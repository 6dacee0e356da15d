-- ===== src/Channel/Modes.antt =====
-- The modes of a CChannel: FindSlot and ParseModeChange. What other objects are asked to do stands
-- in a list of calls, in the order in which the code makes them.
use shroudbnc.Base.{
  ℕ, suc, List, [], ◌∷◌, ◌++◌, map, Option, none, some, Bool, true, false, ◌==◌, ◌&&◌, not,
  if◌then◌else◌, set, ok, err, fault,
}
use shroudbnc.Hashtable.Key.{KeyRule, Text, same}
use shroudbnc.Hashtable.Entries.{Bucket}
use shroudbnc.Hashtable.{Table}
use shroudbnc.Isupport.{nick_mode_loop, prefix_for_chan_mode, parameter_loop}
use shroudbnc.Nick.{Nick, add_prefix, remove_prefix}
use shroudbnc.Channel.{Channel, ChanMode}

pub data Call : Type 0 where
  -- SingleModeChange of every module in turn.
  single_mode_change : Bool → ℕ → Option Text → Call
  -- The line "MODE <channel>" to the server.
  write_mode : Call
  set_ban : Text → Call
  unset_ban : Text → Call
  set_key : Text → Call

-- What ParseModeChange learns from other objects. PREFIX and CHANMODES have a value from the
-- connection's constructor on. `memory` is the outcome of the nicks' allocations, and `grows` that of
-- GetNew for the slots. There is memory for the copies of parameters.
pub record World : Type 0 where
  pub prefix : Text
  pub chanmodes : Text
  pub current_nick : Text
  pub has_client : Bool
  pub ban_fails : Text → Bool
  pub memory : Bool
  pub grows : Bool

-- The index of the first slot with the mode.
unfoldable pub find_slot : ℕ → List ChanMode → Option ℕ
find_slot mode [] = none
find_slot mode (m ∷ modes) =
    if m.mode == mode
    then some 0
    else elim (find_slot mode modes) [ none ↦ none | some i ↦ some (suc i) ]

-- The branch of `Flip` on the mode's slot or a new one from GetNew, of which `grows` says whether there is memory.
unfoldable pub set_mode : Bool → ℕ → Option Text → List ChanMode → List ChanMode
set_mode grows mode parameter modes = elim (find_slot mode modes) [
  | some i ↦ set modes i (record { mode = mode; parameter = parameter })
  | none ↦ if grows then modes ++ record { mode = mode; parameter = parameter } ∷ [] else modes
]

-- The other branch, which clears the slot.
unfoldable pub unset_mode : ℕ → List ChanMode → List ChanMode
unset_mode mode modes = elim (find_slot mode modes) [
  | some i ↦ set modes i (record { mode = 0; parameter = none })
  | none ↦ modes
]

-- Whether a mode of the type takes its parameter: when set, and when unset.
abbrev pub takes : Bool → ℕ → Bool
takes flip mode_type =
    if flip then not (mode_type == 0) else not (mode_type == 0) && not (mode_type == 1)

abbrev pub only_if : Bool → Option Text → Option Text
only_if b arg = if b then arg else none

-- The parameters that are left once one is used, where there is one.
abbrev pub rest_of : Bool → List Text → List Text
rest_of used [] = []
rest_of used (a ∷ args) = if used then args else a ∷ args

abbrev pub first_of : List Text → Option Text
first_of [] = none
first_of (a ∷ args) = some a

module _ ⦃rule : KeyRule⦄ where
  -- The object that Get finds in a bucket, changed in place.
  unfoldable pub modify_bucket : Text → (Nick → Nick) → Bucket Nick → Bucket Nick
  modify_bucket k f [] = []
  modify_bucket k f (e ∷ es) = if same e.0 k then (e.0, f e.1) ∷ es else e ∷ modify_bucket k f es

  abbrev pub modify_nick : Text → (Nick → Nick) → Table Nick → Table Nick
  modify_nick k f t = record t { buckets = map (modify_bucket k f) t.buckets }

  -- What is done to the nick object for a mode and its prefix.
  unfoldable pub prefix_change : World → Bool → ℕ → Nick → Nick
  prefix_change w flip mode n = elim (prefix_for_chan_mode (some w.prefix) mode) [
    | ok prefix ↦
        if flip
        then (add_prefix w.memory (some (some w.prefix)) prefix n).0
        else (remove_prefix w.memory prefix n).0
    | err e ↦ n
    | fault ↦ n
  ]

  -- A mode of a nick, whose parameter is the nick.
  unfoldable pub nick_mode : World → Bool → ℕ → Text → Channel → Channel × List Call
  nick_mode w flip mode nick c =
      let nicks = modify_nick nick (prefix_change w flip mode) c.nicks in
      if flip && (mode == 111) && rule.strcasecmp_zero nick w.current_nick
      then (
        record c { nicks = nicks; modes_valid = false },
        single_mode_change flip mode (some nick) ∷ (if w.has_client then [] else write_mode ∷ []),
      )
      else (record c { nicks = nicks }, single_mode_change flip mode (some nick) ∷ [])

  -- The ban list, for mode b (98), where there is a parameter.
  unfoldable pub ban_mode : World → Bool → ℕ → Option Text → Channel → Channel × List Call
  ban_mode w flip mode none c = (c, [])
  ban_mode w flip mode (some mask) c =
      if mode == 98
      then (if flip
          then (if w.ban_fails mask then record c { has_bans = false } else c, set_ban mask ∷ [])
          else (c, unset_ban mask ∷ []))
      else (c, [])

  -- The key ring, for mode k (107); "*" is no key.
  unfoldable pub key_mode : Bool → ℕ → Option Text → List Call
  key_mode flip mode none = []
  key_mode flip mode (some key) =
      if (mode == 107) && flip && not (rule.strcmp_zero key (42 ∷ [])) then set_key key ∷ [] else []

  -- A mode of the channel. `arg` is the next parameter, if there is one.
  unfoldable pub channel_mode : World → Bool → ℕ → Option Text → Channel → Channel × List Call
  channel_mode w flip mode arg c =
      let used = takes flip (parameter_loop 3 mode w.chanmodes) in
      let (d, bans) = ban_mode w flip mode arg c in
      (
        record d {
          modes =
              if flip
              then set_mode w.grows mode (only_if used arg) d.modes
              else unset_mode mode d.modes;
        },
        bans ++ key_mode flip mode arg ++ single_mode_change flip mode (only_if used arg) ∷ [],
      )

  -- One round of the loop of ParseModeChange: Flip, the parameters that are left, the channel and
  -- the calls. `none` is the return where a mode of a nick has no parameter.
  unfoldable pub parse_step :
      World
      → Bool
      → ℕ
      → List Text
      → Channel × List Call
      → Option (Bool × List Text × Channel × List Call)
  parse_step w flip x args (c, calls) =
      if x == 43
      then some (true, args, c, calls)
      else (if x == 45
          then some (false, args, c, calls)
          else (if nick_mode_loop x w.prefix
              then elim args [
                | [] ↦ none
                | nick ∷ rest ↦
                    let (d, more) = nick_mode w flip x nick c in some (flip, rest, d, calls ++ more)
              ]
              else (let (d, more) = channel_mode w flip x (first_of args) c in
                  let used = takes flip (parameter_loop 3 x w.chanmodes) in
                  some (flip, rest_of used args, d, calls ++ more))))

  -- The loop, over the characters that are left.
  unfoldable pub parse_loop :
      World → Bool → Text → List Text → Channel × List Call → Channel × List Call
  parse_loop w flip [] args s = s
  parse_loop w flip (x ∷ text) args s = elim (parse_step w flip x args s) [
    | none ↦ s
    | some (next, rest, d, more) ↦ parse_loop w next text rest (d, more)
  ]

  unfoldable pub parse_mode_change : World → Text → List Text → Channel → Channel × List Call
  parse_mode_change w text args c = parse_loop w true text args (record c { temp_modes = none }, [])
