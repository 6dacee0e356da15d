-- ===== src/Session/Lines/Reached.antt =====
-- The channels of CIRCConnection of src/IRCConnection.cpp after any sequence of lines of the server.
use mathlib.Core.Option.{some-injective}
use shroudbnc.Base.{
  ℕ, suc, ◌+◌, ◌^◌, ◌≤◌, ◌<◌, ◌≡◌, sym, ap, subst, ◌∙◌, [], Option, none, some, arith, ok, Outcome,
  fault, refl, Bool, true, false, Option-cases, inl, inr,
}
use shroudbnc.Hashtable.Key.{KeyRule, Text}
use shroudbnc.Hashtable.{new, get}
use shroudbnc.Hashtable.Entries.{Bucket, find}
use shroudbnc.Hashtable.View.{get_or-replicate}
use shroudbnc.Hashtable.{home}
use shroudbnc.Hashtable.Row.{new-IsValid}
use shroudbnc.Channel.{Channel}
use shroudbnc.Session.{
  Session, nick_from_hostmask, get_channel, on_nick, on_quit, is_me, rename_any, remove_any,
  want_away_nick,
}
use shroudbnc.Session.Each.{each-some}
use shroudbnc.Session.Everywhere.{IsSession, on_nick-Across, on_quit-Across}
use shroudbnc.Session.Lines.{Settings, on_join, on_part, on_kick, on_topic}
use shroudbnc.Session.Lines.Rooms.{IsRooms}
use shroudbnc.Session.Lines.Kept.{
  on_join-IsRooms, on_part-IsRooms, on_kick-IsRooms, on_topic-IsRooms,
}
use shroudbnc.Session.Lines.Names.{on_names, on_end_of_names}
use shroudbnc.Session.Lines.Naming.{on_names-IsRooms, on_end_of_names-IsRooms}
use shroudbnc.Session.Lines.Numerics.{
  on_creation_time, on_topic_text, on_topic_nick, on_no_topic, on_creation_time-IsRooms,
  on_topic_text-IsRooms, on_topic_nick-IsRooms, on_no_topic-IsRooms,
}

module _ ⦃rule : KeyRule⦄ where
  IsRooms-IsSession : (most : ℕ) (s : Session) → IsRooms most s.channels → IsSession s
  unfolding get_channel
  IsRooms-IsSession most s r = record { channels = r.channels; nicks = r.nicks }

  IsSession-IsRooms :
      (most : ℕ) (s : Session)
      → IsSession s
      → s.channels.length_cache ≤ most
      → IsRooms most s.channels
  unfolding get_channel
  IsSession-IsRooms most s v few = record { channels = v.channels; nicks = v.nicks; few = few }

  ok-injective : {a b : Session} → ok a ≡ ok b → a ≡ b
  ok-injective e = cc

  pub no_rooms : (most : ℕ) → IsRooms most new
  unfolding new get find
  no_rooms most = record {
    channels = new-IsValid;
    nicks = λ q c at. absurd (
        not_both c
          (sym (ap (find q) (get_or-replicate {A = Bucket Channel} 32 (home q 32) [])) ∙ at));
    few = omega arith;
  }
    where
      not_both : (c : Channel) → ¬ (none ≡ some c)
      not_both c f = cc

  -- A source without a nick is in no channel: QUIT changes nothing.
  on_quit-unnamed :
      (reply : Text) (s : Session) → nick_from_hostmask reply ≡ none → on_quit reply s ≡ some s
  unfolding on_quit remove_any
  on_quit-unnamed reply s unnamed = rw (on_quit, unnamed, each-some s.channels) refl

  is_me-none : (s : Session) → is_me none s ≡ false
  unfolding is_me
  is_me-none s = elim (Option-cases s.current_nick) [
    | inl fresh ↦ rw (is_me, fresh) refl
    | inr (mine, own) ↦ rw (is_me, own) refl
  ]

  fault-ne-ok : (o : Option (Outcome Session)) (s : Session) → o ≡ some fault → ¬ (o ≡ some (ok s))
  fault-ne-ok o s f e = cc

  -- NICK either meets a fault or changes nothing.
  on_nick-unnamed :
      (limit fuel : ℕ) (client : Bool) (away_nick : Option Text) (reply new_nick : Text)
      (s t : Session)
      → nick_from_hostmask reply ≡ none
      → on_nick limit fuel client away_nick reply new_nick s ≡ some (ok t)
      → s ≡ t
  unfolding on_nick rename_any want_away_nick
  on_nick-unnamed limit fuel true away_nick reply new_nick s t unnamed e =
      let run : on_nick limit fuel true away_nick reply new_nick s ≡ some (ok s) =
        ground (arith, unnamed, is_me-none s, each-some s.channels) in
      ok-injective (some-injective _ _ (sym run ∙ e))
  on_nick-unnamed limit fuel false none reply new_nick s t unnamed e =
      let run : on_nick limit fuel false none reply new_nick s ≡ some (ok s) =
        ground (arith, unnamed, is_me-none s, each-some s.channels) in
      ok-injective (some-injective _ _ (sym run ∙ e))
  on_nick-unnamed limit fuel false (some away) reply new_nick s t unnamed e =
      let run : on_nick limit fuel false (some away) reply new_nick s ≡ some fault =
        ground (arith, unnamed, is_me-none s) in
      absurd (fault-ne-ok _ t run e)

  -- The settings at one line: the user may change them, and time passes, but the quota and the memory
  -- for tables stay.
  abbrev pub moment : Settings → Settings → Settings
  moment u w = record w { quota = u.quota; limit = u.limit; doublings = u.doublings }

  -- The states of a connection, from its start on: the server gives the user a nick, and sends lines.
  pub data Reaches (u : Settings) : Session → Type 0 where
    starts : Reaches u (record { channels = new; current_nick = none; site = none; sent = [] })
    registers :
        {s : Session} (nick : Text)
        → Reaches u s
        → Reaches u (record s { current_nick = some nick })
    joins :
        {s t : Session} (w : Settings) (reply name : Text)
        → Reaches u s
        → on_join (moment u w) reply name s ≡ some t
        → Reaches u t
    parts :
        {s : Session} (w : Settings) (reply name : Text)
        → Reaches u s
        → Reaches u (on_part (moment u w) reply name s)
    kicks :
        {s : Session} (w : Settings) (reply name victim : Text)
        → Reaches u s
        → Reaches u (on_kick (moment u w) reply name victim s)
    changes_topic :
        {s : Session} (w : Settings) (reply name topic : Text)
        → Reaches u s
        → Reaches u (on_topic (moment u w) reply name topic s)
    names :
        {s t : Session} (w : Settings) (prefixes : Option Text) (name text : Text)
        → Reaches u s
        → on_names (moment u w) prefixes name text s ≡ some (ok t)
        → Reaches u t
    ends_names : {s : Session} (name : Text) → Reaches u s → Reaches u (on_end_of_names name s)
    tells_age :
        {s : Session} (time : ℕ) (name : Text)
        → Reaches u s
        → Reaches u (on_creation_time time name s)
    tells_topic :
        {s : Session} (topic name : Text) → Reaches u s → Reaches u (on_topic_text topic name s)
    tells_topic_nick :
        {s : Session} (nick : Text) (time : ℕ) (name : Text)
        → Reaches u s
        → Reaches u (on_topic_nick nick time name s)
    tells_no_topic : {s : Session} (name : Text) → Reaches u s → Reaches u (on_no_topic name s)
    quits : {s t : Session} (reply : Text) → Reaches u s → on_quit reply s ≡ some t → Reaches u t
    renames :
        {s t : Session} (client : Bool) (away_nick : Option Text) (reply new_nick : Text)
        → Reaches u s
        → on_nick u.limit (suc u.doublings) client away_nick reply new_nick s ≡ some (ok t)
        → Reaches u t

  -- In every state that a user's nick at the start and the lines JOIN, PART, KICK, TOPIC, NICK, QUIT, 353, 366, 329, 331, 332 and 333 of the server lead to, from any sources and at any times, clients and limits of nicks, with a fixed limit of channels and enough fuel for tables of any size, the table of channels and the table of nicks of
  -- each channel are valid, and there is at most one channel more than the limit.
  pub Reaches-IsRooms :
      (u : Settings) (s : Session)
      → u.limit < 2 ^ u.doublings
      → Reaches u s
      → IsRooms (u.quota + 1) s.channels
  Reaches-IsRooms u _ h starts = no_rooms (u.quota + 1)
  Reaches-IsRooms u _ h (registers {s = s} nick r) = Reaches-IsRooms u s h r
  Reaches-IsRooms u t h (joins {s = s} w reply name r e) =
      let (d, run, rooms) = on_join-IsRooms (moment u w) reply name s h (Reaches-IsRooms u s h r) in
      subst (λ (o : Session). IsRooms (u.quota + 1) o.channels) (some-injective _ _ (sym run ∙ e))
        rooms
  Reaches-IsRooms u _ h (parts {s = s} w reply name r) =
      on_part-IsRooms (u.quota + 1) (moment u w) reply name s (Reaches-IsRooms u s h r)
  Reaches-IsRooms u _ h (kicks {s = s} w reply name victim r) =
      on_kick-IsRooms (u.quota + 1) (moment u w) reply name victim s (Reaches-IsRooms u s h r)
  Reaches-IsRooms u _ h (changes_topic {s = s} w reply name topic r) =
      on_topic-IsRooms (u.quota + 1) (moment u w) reply name topic s (Reaches-IsRooms u s h r)
  Reaches-IsRooms u t h (names {s = s} w prefixes name text r e) =
      on_names-IsRooms (u.quota + 1) (moment u w) prefixes name text s t h (Reaches-IsRooms u s h r)
        e
  Reaches-IsRooms u _ h (ends_names {s = s} name r) =
      on_end_of_names-IsRooms (u.quota + 1) name s (Reaches-IsRooms u s h r)
  Reaches-IsRooms u _ h (tells_age {s = s} time name r) =
      on_creation_time-IsRooms (u.quota + 1) time name s (Reaches-IsRooms u s h r)
  Reaches-IsRooms u _ h (tells_topic {s = s} topic name r) =
      on_topic_text-IsRooms (u.quota + 1) topic name s (Reaches-IsRooms u s h r)
  Reaches-IsRooms u _ h (tells_topic_nick {s = s} nick time name r) =
      on_topic_nick-IsRooms (u.quota + 1) nick time name s (Reaches-IsRooms u s h r)
  Reaches-IsRooms u _ h (tells_no_topic {s = s} name r) =
      on_no_topic-IsRooms (u.quota + 1) name s (Reaches-IsRooms u s h r)
  Reaches-IsRooms u t h (quits {s = s} reply r e) =
      let before = Reaches-IsRooms u s h r in
      elim (Option-cases (nick_from_hostmask reply)) [
        | inl unnamed ↦
            subst (λ (o : Session). IsRooms (u.quota + 1) o.channels)
              (some-injective _ _ (sym (on_quit-unnamed reply s unnamed) ∙ e)) before
        | inr (nick, named) ↦
            let (d, run, v, many, across) =
              on_quit-Across reply nick s (IsRooms-IsSession (u.quota + 1) s before) named in
            subst (λ (o : Session). IsRooms (u.quota + 1) o.channels)
              (some-injective _ _ (sym run ∙ e))
              (IsSession-IsRooms (u.quota + 1) d v (omega (arith, many, before.few)))
      ]
  Reaches-IsRooms u t h (renames {s = s} client away_nick reply new_nick r e) =
      let before = Reaches-IsRooms u s h r in
      elim (Option-cases (nick_from_hostmask reply)) [
        | inl unnamed ↦
            subst (λ (o : Session). IsRooms (u.quota + 1) o.channels)
              (on_nick-unnamed u.limit (suc u.doublings) client away_nick reply new_nick s t unnamed
                e)
              before
        | inr (nick, named) ↦
            let (d, run, v, many, across, own) =
              on_nick-Across u.limit u.doublings client away_nick reply nick new_nick s
                (IsRooms-IsSession (u.quota + 1) s before) h named in
            subst (λ (o : Session). IsRooms (u.quota + 1) o.channels)
              (ok-injective (some-injective _ _ (sym run ∙ e)))
              (IsSession-IsRooms (u.quota + 1) d v (omega (arith, many, before.few)))
      ]
