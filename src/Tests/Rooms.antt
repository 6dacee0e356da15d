-- ===== src/Tests/Rooms.antt =====
-- A connection in one channel with one nick.
use mathlib.Core.Option.{some-injective}
use shroudbnc.Base.{
  ◌+◌, ◌≡◌, refl, sym, ap, subst, ◌∙◌, [], ◌∷◌, ◌++◌, none, some, true, false, if◌then◌else◌, arith,
  All, ok, Bool-cases, inl, inr,
}
use shroudbnc.Hashtable.Key.{KeyRule, Text, same, hash, hash_loop}
use shroudbnc.Hashtable.Entries.{Bucket, find}
use shroudbnc.Hashtable.{Table, get, new, home, place}
use shroudbnc.Hashtable.View.{IsValid, get_or-replicate}
use shroudbnc.Hashtable.Row.{new-IsValid}
use shroudbnc.Hashtable.Writes.{Writes, place-Writes}
use shroudbnc.Nick.{Nick}
use shroudbnc.Nick as Nick
use shroudbnc.Channel.{Channel}
use shroudbnc.Channel as Channels
use shroudbnc.Session.{Session, nick_from_hostmask, get_channel, is_me, on_nick, on_quit}
use shroudbnc.Session.Everywhere.{
  IsSession, Across, Leaves, Renames, on_quit-Across, on_nick-Across,
}
use shroudbnc.Session.Lines.{Settings, on_join}
use shroudbnc.Session.Lines.Names.{on_names}
use shroudbnc.Session.Lines.Entries.{Entry, word, IsEntry}
use shroudbnc.Session.Lines.Listed.{HasRoom, listed, on_names-listed}
use shroudbnc.Session.Lines.Rooms.{IsRooms}
use shroudbnc.Tokens.Joined.{IsWord, more}
use shroudbnc.Session.Lines.Kept.{on_join-IsRooms}
use shroudbnc.Session.Lines.Reached.{Reaches, no_rooms, Reaches-IsRooms}
use shroudbnc.Isupport.ChanModes.{in_group}
use shroudbnc.Isupport.Prefixes.{prefix_value}
use shroudbnc.Tests.Ascii.{ascii, lower, equal_text}

abbrev irc_rule : KeyRule
irc_rule = ascii false

-- "n", in "#a".
abbrev n_name : Text
n_name = 110 ∷ []

abbrev a_name : Text
a_name = 35 ∷ 97 ∷ []

abbrev no_nicks : Table Nick
no_nicks = new

abbrev n_nicks : Table Nick
n_nicks = place ⦃rule = irc_rule⦄ n_name (Nick.new true 1 n_name) no_nicks

n_nicks-Writes : Writes ⦃rule = irc_rule⦄ no_nicks n_name (some (Nick.new true 1 n_name)) n_nicks
unfolding get new find home hash hash_loop lower
n_nicks-Writes =
    place-Writes ⦃rule = irc_rule⦄ n_name (Nick.new true 1 n_name) no_nicks
      (new-IsValid ⦃rule = irc_rule⦄) refl

abbrev a_channel : Channel
a_channel = record (Channels.new ⦃rule = irc_rule⦄ true 1 a_name) { nicks = n_nicks }

abbrev no_channels : Table Channel
no_channels = new

abbrev in_a : Session
in_a = record {
  channels = place ⦃rule = irc_rule⦄ a_name a_channel no_channels;
  current_nick = some n_name;
  site = none;
  sent = [];
}

in_a-Writes : Writes ⦃rule = irc_rule⦄ no_channels a_name (some a_channel) in_a.channels
unfolding get new find home hash hash_loop lower
in_a-Writes =
    place-Writes ⦃rule = irc_rule⦄ a_name a_channel no_channels (new-IsValid ⦃rule = irc_rule⦄) refl

no_channel : (q : Text) → get ⦃rule = irc_rule⦄ (some q) no_channels ≡ none
unfolding get new find
no_channel q =
    ap (find ⦃rule = irc_rule⦄ {V = Channel} q)
      (get_or-replicate {A = Bucket Channel} 32 (home ⦃rule = irc_rule⦄ q 32) [])

in_a-IsSession : IsSession ⦃rule = irc_rule⦄ in_a
unfolding get_channel
in_a-IsSession = record {
  channels = in_a-Writes.valid;
  nicks = λ q c at. elim (Bool-cases (same ⦃rule = irc_rule⦄ a_name q)) [
    | inl here ↦
        let e : some a_channel ≡ some c = sym (in_a-Writes.reads q ∙ rw here refl) ∙ at in
        subst (λ (o : Channel). IsValid ⦃rule = irc_rule⦄ o.nicks) (some-injective _ _ e)
          n_nicks-Writes.valid
    | inr other ↦
        let e : none ≡ some c = sym (in_a-Writes.reads q ∙ rw other (no_channel q)) ∙ at in
        absurd (not_both c e)
  ];
}
  where
    not_both : (c : Channel) → ¬ (none ≡ some c)
    not_both c f = cc

-- "n!u"
abbrev n_mask : Text
n_mask = 110 ∷ 33 ∷ 117 ∷ []

on_quit-Across_example :
    (d : Session) × (on_quit ⦃rule = irc_rule⦄ n_mask in_a ≡ some d)
    × IsSession ⦃rule = irc_rule⦄ d
    × (d.channels.length_cache ≡ in_a.channels.length_cache)
    × Across ⦃rule = irc_rule⦄ (Leaves ⦃rule = irc_rule⦄ n_name) in_a d
unfolding nick_from_hostmask
on_quit-Across_example = on_quit-Across ⦃rule = irc_rule⦄ n_mask n_name in_a in_a-IsSession refl

on_nick-Across_example :
    (d : Session) × (on_nick ⦃rule = irc_rule⦄ 3 3 false none n_mask (109 ∷ []) in_a ≡ some (ok d))
    × IsSession ⦃rule = irc_rule⦄ d
    × (d.channels.length_cache ≡ in_a.channels.length_cache)
    × Across ⦃rule = irc_rule⦄ (Renames ⦃rule = irc_rule⦄ n_name (109 ∷ [])) in_a d
    × (d.current_nick
        ≡ (if is_me ⦃rule = irc_rule⦄ (some n_name) in_a then some (109 ∷ []) else some n_name))
unfolding nick_from_hostmask
on_nick-Across_example =
    on_nick-Across ⦃rule = irc_rule⦄ 3 2 false none n_mask n_name (109 ∷ []) in_a in_a-IsSession
      (omega arith) refl

abbrev small : Settings
small = record {
  lean_mode = 0;
  max_nicks = 5;
  quota = 2;
  now = 7;
  client = false;
  limit = 64;
  doublings = 7;
}

abbrev registered : Session
registered = record { channels = new; current_nick = some n_name; site = none; sent = [] }

registered-Reaches : Reaches ⦃rule = irc_rule⦄ small registered
registered-Reaches = Reaches.registers n_name Reaches.starts

-- The user joins "#a".
joined :
    (t : Session) × (on_join ⦃rule = irc_rule⦄ small n_mask a_name registered ≡ some t)
    × IsRooms ⦃rule = irc_rule⦄ 3 t.channels
joined =
    on_join-IsRooms ⦃rule = irc_rule⦄ small n_mask a_name registered (omega arith)
      (no_rooms ⦃rule = irc_rule⦄ 3)

Reaches-IsRooms_example : IsRooms ⦃rule = irc_rule⦄ (small.quota + 1) joined.0.channels
Reaches-IsRooms_example =
    Reaches-IsRooms ⦃rule = irc_rule⦄ small joined.0 (omega arith)
      (Reaches.joins small n_mask a_name registered-Reaches joined.1)

-- "@n" and "+m", where PREFIX is "(ov)@+".
abbrev ov : Text
ov = 111 ∷ 118 ∷ []

abbrev op_and_voice : Text
op_and_voice = 64 ∷ 43 ∷ []

abbrev op_n : Entry
op_n = record { marks = 64 ∷ []; nick = n_name }

abbrev voice_m : Entry
voice_m = record { marks = 43 ∷ []; nick = 109 ∷ [] }

two_entries : All (λ e. IsWord (word e) × IsEntry op_and_voice e) (op_n ∷ voice_m ∷ [])
unfolding in_group
two_entries = (
  (((omega arith, omega arith), omega arith, ((omega arith, omega arith), tt)), ((refl, tt), refl)),
  (
    (
      ((omega arith, omega arith), omega arith, ((omega arith, omega arith), tt)),
      ((refl, tt), refl),
    ),
    tt,
  ),
)

a_channel-HasRoom : HasRoom ⦃rule = irc_rule⦄ small 2 a_channel
unfolding Channels.new new
a_channel-HasRoom = record {
  valid = n_nicks-Writes.valid;
  keeps = refl;
  few = omega (arith, n_nicks-Writes.length);
}

in_a-get_channel : get_channel ⦃rule = irc_rule⦄ a_name in_a ≡ some a_channel
unfolding get_channel same equal_text lower
in_a-get_channel = in_a-Writes.reads a_name

on_names-listed_example :
    (d : Channel) × (t : Session) × (on_names ⦃rule = irc_rule⦄ small
        (some (prefix_value ov op_and_voice))
        a_name
        (word op_n ++ more (word voice_m ∷ []) none)
        in_a
      ≡ some (ok t))
    × IsValid ⦃rule = irc_rule⦄ t.channels
    × IsValid ⦃rule = irc_rule⦄ d.nicks
    × ((q : Text)
        → get ⦃rule = irc_rule⦄ (some q) d.nicks
          ≡ listed ⦃rule = irc_rule⦄ 7 q
              (op_n ∷ voice_m ∷ [])
              (get ⦃rule = irc_rule⦄ (some q) a_channel.nicks))
    × ((other : Text)
        → get_channel ⦃rule = irc_rule⦄ other t ≡ (
            if same ⦃rule = irc_rule⦄ a_name other
            then some d
            else get_channel ⦃rule = irc_rule⦄ other in_a))
on_names-listed_example =
    on_names-listed ⦃rule = irc_rule⦄ ov op_and_voice
      ((omega arith, omega arith), ((omega arith, omega arith), tt)) small a_name op_n
      (voice_m ∷ []) a_channel in_a in_a-Writes.valid in_a-get_channel two_entries (omega arith)
      (omega arith) a_channel-HasRoom
