-- ===== src/Session.antt =====
-- The channels of CIRCConnection of src/IRCConnection.cpp, and what the lines NICK and QUIT of the
-- server do to them before the modules see them. A nick is `none` where the pointer is null.
pub mod Lines
pub mod Each
pub mod Everywhere
use shroudbnc.Base.{
  ℕ, List, [], ◌∷◌, ◌++◌, Option, none, some, Bool, true, false, ◌==◌, not, ◌&&◌, ltb,
  if◌then◌else◌, Outcome, ok, err, fault,
}
use shroudbnc.Hashtable.Key.{KeyRule, Text}
use shroudbnc.Hashtable.Entries.{Bucket}
use shroudbnc.Hashtable.{Table, get, get_length, add_key, remove_key}
use shroudbnc.Channel.{Channel, remove_user, rename_user}
use shroudbnc.Channel as Channels

-- The channels, m_CurrentNick, m_Site, and the lines that WriteLine was called with.
pub record Session : Type 0 where
  pub channels : Table Channel
  pub current_nick : Option Text
  pub site : Option Text
  pub sent : List Text

-- NickFromHostmask of src/utility.cpp, with memory.
unfoldable pub nick_from_hostmask : Text → Option Text
nick_from_hostmask [] = none
nick_from_hostmask (x ∷ mask) =
    if x == 33
    then some []
    else elim (nick_from_hostmask mask) [ none ↦ none | some nick ↦ some (x ∷ nick) ]

module _ {ℓ} {V : Type ℓ} where
  -- A loop with Iterate that changes each value of the table where it stands. `none` says that the
  -- change ran out of fuel.
  unfoldable pub each_bucket : (V → Option V) → Bucket V → Option (Bucket V)
  each_bucket change [] = some []
  each_bucket change (e ∷ es) = elim (change e.1) [
    | none ↦ none
    | some v ↦ elim (each_bucket change es) [ none ↦ none | some rest ↦ some ((e.0, v) ∷ rest) ]
  ]

  unfoldable pub each_row : (V → Option V) → List (Bucket V) → Option (List (Bucket V))
  each_row change [] = some []
  each_row change (b ∷ bs) = elim (each_bucket change b) [
    | none ↦ none
    | some c ↦ elim (each_row change bs) [ none ↦ none | some rest ↦ some (c ∷ rest) ]
  ]

  unfoldable pub each : (V → Option V) → Table V → Option (Table V)
  each change t = elim (each_row change t.buckets) [
    | none ↦ none
    | some bs ↦ some (record t { buckets = bs })
  ]

-- The rule is that of the tables of channels and of nicks.
module _ ⦃rule : KeyRule⦄ where
  -- b_Me
  unfoldable pub is_me : Option Text → Session → Bool
  is_me nick s = elim s.current_nick [
    | none ↦ false
    | some mine ↦ elim nick [ none ↦ false | some name ↦ rule.strcasecmp_zero name mine ]
  ]

  unfoldable pub get_channel : Text → Session → Option Channel
  get_channel name s = get (some name) s.channels

  -- AddChannel without UpdateChannelConfig; `quota` is the limit of channels. `none` says that the
  -- fuel of the table's Add ran out.
  unfoldable pub add_channel : ℕ → ℕ → ℕ → ℕ → Text → Session → Option (Session × Bool)
  add_channel quota limit fuel now name s =
      if ltb quota (get_length s.channels)
      then some (record s { sent = s.sent ++ (80 ∷ 65 ∷ 82 ∷ 84 ∷ 32 ∷ name) ∷ [] }, false)
      else elim (add_key limit fuel name (Channels.new true now name) s.channels) [
        | none ↦ none
        | some channels ↦ some (record s { channels = channels }, true)
      ]

  -- RemoveChannel without UpdateChannelConfig.
  unfoldable pub remove_channel : Text → Session → Session
  remove_channel name s = record s { channels = remove_key false name s.channels }

  -- RenameUser where the old nick may be a null pointer, which Get finds nothing for.
  unfoldable pub rename_any : ℕ → ℕ → Option Text → Text → Channel → Option Channel
  rename_any limit fuel none new_nick c = some c
  rename_any limit fuel (some nick) new_nick c = rename_user limit fuel true nick new_nick c

  -- RemoveUser likewise.
  unfoldable pub remove_any : Option Text → Channel → Channel
  remove_any none c = c
  remove_any (some nick) c = remove_user nick c

  -- Asking for the nick that the user wants while away, when it is left: a fault is strcasecmp of a null pointer.
  unfoldable pub want_away_nick : Bool → Option Text → Option Text → Session → Outcome Session
  want_away_nick asks away_nick nick s = if not asks then ok s else elim away_nick [
    | none ↦ ok s
    | some away ↦ elim nick [
      | none ↦ fault
      | some name ↦
          if rule.strcasecmp_zero away name
          then ok (record s { sent = s.sent ++ (78 ∷ 73 ∷ 67 ∷ 75 ∷ 32 ∷ away) ∷ [] })
          else ok s
    ]
  ]

  -- The branch for NICK, of the line with the source `reply` and the argument `new_nick`. `client` says that a
  -- client is there, `away_nick` is the user's.
  unfoldable pub on_nick :
      ℕ → ℕ → Bool → Option Text → Text → Text → Session → Option (Outcome Session)
  on_nick limit fuel client away_nick reply new_nick s =
      let nick = nick_from_hostmask reply in
      let me = is_me nick s in
      let named = (if me then record s { current_nick = some new_nick } else s) in
      elim (want_away_nick (not me && not client) away_nick nick named) [
        | err e ↦ some (err e)
        | fault ↦ some fault
        | ok asked ↦ elim (each (rename_any limit fuel nick new_nick) asked.channels) [
          | none ↦ none
          | some channels ↦ some (ok (record asked { channels = channels }))
        ]
      ]

  -- The branch for QUIT.
  unfoldable pub on_quit : Text → Session → Option Session
  on_quit reply s = elim (each (λ c. some (remove_any (nick_from_hostmask reply) c)) s.channels) [
    | none ↦ none
    | some channels ↦ some (record s { channels = channels })
  ]
