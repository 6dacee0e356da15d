-- ===== src/Session/Lines.antt =====
-- What the lines JOIN, PART, KICK and TOPIC of the server do in ParseLineArgV of src/IRCConnection.cpp, with
-- UpdateHostHelper, which they call, and GetSite of src/Nick.cpp.
pub mod Put
pub mod Rooms
pub mod Kept
pub mod Names
pub mod Entries
pub mod Numerics
pub mod Naming
pub mod Listed
pub mod Reached
use mathlib.Core.List.{flatten}
use shroudbnc.Base.{
  ℕ, suc, List, [], ◌∷◌, ◌++◌, map, Option, none, some, Bool, true, false, not, ◌&&◌, ltb,
  if◌then◌else◌, length, set, Outcome, ok,
}
use shroudbnc.Hashtable.Key.{KeyRule, Text}
use shroudbnc.Hashtable.Key as Keys
use shroudbnc.Hashtable.Entries.{Bucket}
use shroudbnc.Hashtable.{Table, get, home, bucket_of}
use shroudbnc.Nick.{Nick, internal_get_site, set_site, behind_mark}
use shroudbnc.Channel.{Channel, add_user, remove_user, set_topic, set_topic_nick, set_topic_stamp}
use shroudbnc.Channel as Channels
use shroudbnc.Session.{Session, nick_from_hostmask, is_me, get_channel, add_channel, remove_channel}

-- What the lines depend on: the user's lean mode and limits, the time, whether there is a client, and the
-- memory for tables: their Add has
-- fuel for as many doublings, and one more.
pub record Settings : Type 0 where
  pub lean_mode : ℕ
  pub max_nicks : ℕ
  pub quota : ℕ
  pub now : ℕ
  pub client : Bool
  pub limit : ℕ
  pub doublings : ℕ

module _ {ℓ} ⦃rule : KeyRule⦄ {V : Type ℓ} where
  -- A change of the object that Get found under a key, in its place.
  unfoldable pub put_bucket : Text → V → Bucket V → Bucket V
  put_bucket k v [] = []
  put_bucket k v (e ∷ es) = if Keys.same e.0 k then (e.0, v) ∷ es else e ∷ put_bucket k v es

  unfoldable pub put : Text → V → Table V → Table V
  put k v t = record t {
    buckets = set t.buckets (home k (length t.buckets)) (put_bucket k v (bucket_of t.buckets k));
  }

module _ ⦃rule : KeyRule⦄ where
  -- The loop of GetSite over the channels: whether one of them knows a site of the nick object.
  unfoldable pub site_loop : ℕ → Nick → List Channel → Bool
  site_loop lean_mode obj [] = false
  site_loop lean_mode obj (c ∷ channels) =
      let later = site_loop lean_mode obj channels in
      if not (Channels.has_names lean_mode c) then later else elim (get obj.nick c.nicks) [
        | none ↦ later
        | some other ↦ elim other.nick [
          | none ↦ later
          | some name ↦ elim obj.nick [
            | none ↦ later
            | some mine ↦
                if rule.strcasecmp_zero name mine
                then elim (internal_get_site other) [ none ↦ later | some site ↦ true ]
                else later
          ]
        ]
      ]

  -- Whether GetSite gives a site.
  unfoldable pub has_site : ℕ → Nick → Table Channel → Bool
  has_site lean_mode obj channels = elim (internal_get_site obj) [
    | some site ↦ true
    | none ↦ site_loop lean_mode obj (map (λ e. e.1) (flatten channels.buckets))
  ]

  -- A round of the loop of UpdateHostHelper, at a channel of the table, with memory.
  unfoldable pub host_round : ℕ → Text → Text → Table Channel → Channel → Channel
  host_round lean_mode nick site channels c =
      if not (Channels.has_names lean_mode c) then c else elim (get (some nick) c.nicks) [
        | none ↦ c
        | some obj ↦
            if has_site lean_mode obj channels
            then c
            else record c { nicks = put nick (set_site true (some site) obj).0 c.nicks }
      ]

  -- The loop over the channels with the names that are left.
  unfoldable pub host_loop : ℕ → Text → Text → List Text → Table Channel → Table Channel
  host_loop lean_mode nick site [] channels = channels
  host_loop lean_mode nick site (name ∷ names) channels = elim (get (some name) channels) [
    | none ↦ host_loop lean_mode nick site names channels
    | some c ↦
        host_loop lean_mode nick site names
          (put name (host_round lean_mode nick site channels c) channels)
  ]

  -- UpdateHostHelper where the nick and the site are known.
  unfoldable pub learn_site : ℕ → Text → Text → Session → Session
  learn_site lean_mode nick site s =
      let known : Session = (if is_me (some nick) s then record s { site = some site } else s) in
      if ltb 0 lean_mode then known else record known {
        channels =
            host_loop lean_mode nick site (map (λ e. e.0) (flatten known.channels.buckets))
              known.channels;
      }

  -- UpdateHostHelper with memory.
  unfoldable pub update_host_helper : ℕ → Text → Session → Session
  update_host_helper lean_mode host s =
      let seen : Bool = elim s.site [ none ↦ false | some site ↦ true ] in
      if ltb 0 lean_mode && seen then s else elim (nick_from_hostmask host) [
        | none ↦ s
        | some nick ↦ elim (behind_mark host) [
          | none ↦ s
          | some site ↦ learn_site lean_mode nick site s
        ]
      ]

  -- The part of JOIN for the user's own nick.
  unfoldable pub enter : Settings → Text → Session → Option Session
  enter u name s = elim (add_channel u.quota u.limit (suc u.doublings) u.now name s) [
    | none ↦ none
    | some (t, made) ↦
        some (
          if u.client
          then t
          else record t { sent = t.sent ++ (77 ∷ 79 ∷ 68 ∷ 69 ∷ 32 ∷ name) ∷ [] })
  ]

  -- The part of JOIN for any nick.
  unfoldable pub join : Settings → Text → Text → Session → Option Session
  join u reply name s = elim (get_channel name s) [
    | none ↦ some (update_host_helper u.lean_mode reply s)
    | some c ↦ elim (nick_from_hostmask reply) [
      | none ↦ some s
      | some nick ↦
          elim (add_user u.lean_mode u.max_nicks u.limit (suc u.doublings) true u.now nick none c) [
            | none ↦ none
            | some d ↦ some (
                update_host_helper u.lean_mode reply
                  (record s { channels = put name d s.channels }))
          ]
    ]
  ]

  -- The branch for JOIN.
  unfoldable pub on_join : Settings → Text → Text → Session → Option Session
  on_join u reply name s =
      if is_me (nick_from_hostmask reply) s
      then elim (enter u name s) [ none ↦ none | some t ↦ join u reply name t ]
      else join u reply name s

  -- A change of the channel with the name, if there is one.
  unfoldable pub at_channel : Text → (Channel → Channel) → Session → Session
  at_channel name change s = elim (get_channel name s) [
    | none ↦ s
    | some c ↦ record s { channels = put name (change c) s.channels }
  ]

  -- The branch for PART.
  unfoldable pub on_part : Settings → Text → Text → Session → Session
  on_part u reply name s =
      if is_me (nick_from_hostmask reply) s
      then update_host_helper u.lean_mode reply (remove_channel name s)
      else elim (get_channel name s) [
        | none ↦ update_host_helper u.lean_mode reply s
        | some c ↦ elim (nick_from_hostmask reply) [
          | none ↦ s
          | some nick ↦
              update_host_helper u.lean_mode reply
                (record s { channels = put name (remove_user nick c) s.channels })
        ]
      ]

  -- The branch for KICK but for the log.
  unfoldable pub on_kick : Settings → Text → Text → Text → Session → Session
  on_kick u reply name victim s = update_host_helper u.lean_mode reply (
      if is_me (some victim) s
      then remove_channel name s
      else at_channel name (remove_user victim) s)

  -- The branch for TOPIC, with memory.
  unfoldable pub on_topic : Settings → Text → Text → Text → Session → Session
  on_topic u reply name topic s = update_host_helper u.lean_mode reply (
      at_channel name
        (λ c. set_topic_nick true reply (set_topic_stamp u.now (set_topic true topic c))) s)
