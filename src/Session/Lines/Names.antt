-- ===== src/Session/Lines/Names.antt =====
-- What the line 353, a list of the nicks of a channel, does in ParseLineArgV of src/IRCConnection.cpp.
use shroudbnc.Base.{
  suc, ◌-◌, List, [], ◌∷◌, ◌++◌, Option, none, some, true, ◌==◌, if◌then◌else◌, length, take,
  Outcome, ok, err, fault,
}
use shroudbnc.Hashtable.Key.{KeyRule, Text}
use shroudbnc.Isupport.{is_nick_prefix}
use shroudbnc.Tokens.{c_string, arg_tokenize, arg_to_array}
use shroudbnc.Tokens.Trim.{str_trim}
use shroudbnc.Channel.{Channel, add_user, set_has_names}
use shroudbnc.Session.{Session, get_channel}
use shroudbnc.Session.Lines.{Settings, put, at_channel}

-- The loop over IsNickPrefix: the string from the first character on that is no prefix. No prefix
-- is the terminating zero.
unfoldable pub past_prefixes : Option Text → Text → Text
past_prefixes prefixes [] = []
past_prefixes prefixes (x ∷ name) =
    let rest = past_prefixes prefixes name in if is_nick_prefix prefixes x then rest else x ∷ name

-- Modes: the prefixes, a null pointer where there is none.
unfoldable pub modes_of : Option Text → Text → Option Text
modes_of prefixes name =
    let count = length name - length (past_prefixes prefixes name) in
    if count == 0 then none else some (take count name)

-- The code after a call that may have run out of fuel, failed or met a fault.
unfoldable pub next_step :
    {A B : Type 0} → Option (Outcome A) → (A → Option (Outcome B)) → Option (Outcome B)
next_step none f = none
next_step (some (err e)) f = some (err e)
next_step (some fault) f = some fault
next_step (some (ok a)) f = f a

module _ ⦃rule : KeyRule⦄ where
  -- AddUser with the modes and the nick of a trimmed name.
  unfoldable pub add_name : Settings → Option Text → Text → Channel → Option (Outcome Channel)
  add_name u prefixes name c =
      elim (add_user u.lean_mode u.max_nicks u.limit (suc u.doublings) true u.now
        (past_prefixes prefixes name) (modes_of prefixes name) c) [
          | none ↦ none
          | some d ↦ some (ok d)
        ]

  -- A round of the loop over nickv, with memory.
  unfoldable pub name_round :
      Settings → Option Text → Option Text → Channel → Option (Outcome Channel)
  name_round u prefixes none c = some fault
  name_round u prefixes (some p) c =
      next_step (some (str_trim 32 (c_string p ++ 0 ∷ [])))
        λ bytes. add_name u prefixes (c_string bytes) c

  unfoldable pub names_loop :
      Settings → Option Text → List (Option Text) → Channel → Option (Outcome Channel)
  names_loop u prefixes [] c = some (ok c)
  names_loop u prefixes (p ∷ ps) c =
      next_step (name_round u prefixes p c) λ d. names_loop u prefixes ps d

  -- The change of the channel.
  unfoldable pub add_names : Settings → Option Text → Text → Channel → Option (Outcome Channel)
  add_names u prefixes text c = elim (arg_tokenize (some text)) [
    | none ↦ some (ok c)
    | some args ↦ next_step (some (arg_to_array args)) λ ps. names_loop u prefixes ps c
  ]

  -- The branch for 353, with memory; `prefixes` is the value of PREFIX.
  unfoldable pub on_names :
      Settings → Option Text → Text → Text → Session → Option (Outcome Session)
  on_names u prefixes name text s = elim (get_channel name s) [
    | none ↦ some (ok s)
    | some c ↦
        next_step (add_names u prefixes text c)
          λ d. some (ok (record s { channels = put name d s.channels }))
  ]

  -- The branch for 366, the end of the list.
  unfoldable pub on_end_of_names : Text → Session → Session
  on_end_of_names name s = at_channel name set_has_names s
