-- ===== src/Channel.antt =====
-- CChannel of src/Channel.cpp: topic, nick list, backlog and modes of a channel. A string is `none`
-- where the pointer is null; outcomes of allocations are arguments. A CList is the list of its values.
pub mod Modes
pub mod Backlog
pub mod Slots
pub mod Changes
pub mod Parsing
pub mod Nicks
use shroudbnc.Base.{
  ℕ, zero, suc, ◌+◌, List, [], ◌∷◌, ◌++◌, Option, none, some, Bool, true, false, ltb, ◌&&◌, ◌||◌,
  not, if◌then◌else◌, ℤ, pos, negsuc, length, map, drop,
}
use shroudbnc.Hashtable.Key.{KeyRule, Text}
use shroudbnc.Hashtable.{Table, get, remove_key, add_key, clear, register_value_destructor}
use shroudbnc.Hashtable as Hashtable
use shroudbnc.Nick.{Nick, set_nick, set_prefixes}
use shroudbnc.Nick as Nick

pub record ChanMode : Type 0 where
  pub mode : ℕ
  pub parameter : Option Text

pub record BacklogLine : Type 0 where
  pub time : ℕ
  pub source : Text
  pub message : Text

pub record Channel : Type 0 where
  pub name : Option Text
  pub creation : ℕ
  pub timestamp : ℕ
  pub modes : List ChanMode
  pub modes_valid : Bool
  pub temp_modes : Option Text
  pub topic : Option Text
  pub topic_nick : Option Text
  pub topic_stamp : ℕ
  pub has_topic : ℤ
  pub nicks : Table Nick
  pub has_names : Bool
  pub keep_nicklist : Bool
  pub has_bans : Bool
  pub backlog : List BacklogLine
  pub backlog_count : ℕ

-- The constructor at the time `now`; `copied` is the outcome of strdup.
unfoldable pub new : ⦃rule : KeyRule⦄ → Bool → ℕ → Text → Channel
new copied now name = record {
  name = if copied then some name else none;
  creation = 0;
  timestamp = now;
  modes = [];
  modes_valid = false;
  temp_modes = none;
  topic = none;
  topic_nick = none;
  topic_stamp = 0;
  has_topic = pos 0;
  nicks = register_value_destructor Hashtable.new;
  has_names = false;
  keep_nicklist = true;
  has_bans = false;
  backlog = [];
  backlog_count = 0;
}

unfoldable pub set_topic : Bool → Text → Channel → Channel
set_topic copied topic c = if copied then record c { topic = some topic; has_topic = pos 1 } else c

unfoldable pub set_topic_nick : Bool → Text → Channel → Channel
set_topic_nick copied nick c =
    if copied then record c { topic_nick = some nick; has_topic = pos 1 } else c

unfoldable pub set_topic_stamp : ℕ → Channel → Channel
set_topic_stamp time c = record c { topic_stamp = time; has_topic = pos 1 }

unfoldable pub set_no_topic : Channel → Channel
set_no_topic c = record c { has_topic = negsuc 0 }

-- The user's lean mode is the first argument.
unfoldable pub has_names : ℕ → Channel → Bool
has_names lean_mode c = if ltb 1 lean_mode || not c.keep_nicklist then false else c.has_names

unfoldable pub set_has_names : Channel → Channel
set_has_names c = record c { has_names = true }

unfoldable pub clear_modes : Channel → Channel
clear_modes c = record c { modes = [] }

-- AddBacklogLine, with the outcomes of the two strdup calls.
unfoldable pub add_backlog_line : Bool → Bool → ℕ → Text → Text → Channel → Channel
add_backlog_line source_copied message_copied now source message c =
    if source_copied && message_copied
    then record c {
      backlog_count = c.backlog_count + 1;
      backlog =
          (if ltb 1000 (c.backlog_count + 1) then drop 1 c.backlog else c.backlog)
          ++ record { time = now; source = source; message = message } ∷ [];
    }
    else c

-- The loop removes the head until there is none.
unfoldable pub erase_backlog : Channel → Channel
erase_backlog c = record c { backlog = []; backlog_count = 0 }

-- The rule is that of CHashtable<CNick *, false>.
module _ ⦃rule : KeyRule⦄ where
  -- What AddUser does where it gives up on the nick list.
  abbrev pub forget_nicks : Channel → Channel
  forget_nicks c = record c { nicks = clear c.nicks; keep_nicklist = false; has_names = false }

  -- AddUser. `lean_mode` and `max_nicks` are the user's, `copied` the outcome of the strdup calls for
  -- the nick and its prefixes; the new object and the table's memory are there. `none` says that the
  -- fuel of the table's Add ran out.
  unfoldable pub add_user : ℕ → ℕ → ℕ → ℕ → Bool → ℕ → Text → Option Text → Channel → Option Channel
  add_user lean_mode max_nicks limit fuel copied now nick mode_chars c =
      if ltb 1 lean_mode || not c.keep_nicklist
      then some c
      else (if ltb max_nicks (Hashtable.get_length c.nicks)
          then some (forget_nicks c)
          else (let obj = (set_prefixes copied mode_chars (Nick.new copied now nick)).0 in
              elim (add_key limit fuel nick obj (remove_key false nick c.nicks)) [
                | none ↦ none
                | some nicks ↦ some (record c { nicks = nicks })
              ]))

  unfoldable pub remove_user : Text → Channel → Channel
  remove_user nick c = record c { nicks = remove_key false nick c.nicks }

  -- RenameUser; the object is kept while its entry is removed.
  unfoldable pub rename_user : ℕ → ℕ → Bool → Text → Text → Channel → Option Channel
  rename_user limit fuel copied nick new_nick c = elim (get (some nick) c.nicks) [
    | none ↦ some c
    | some obj ↦
        elim (add_key limit fuel new_nick (set_nick copied new_nick obj).0
          (remove_key true nick c.nicks)) [
            | none ↦ none
            | some nicks ↦ some (record c { nicks = nicks })
          ]
  ]
