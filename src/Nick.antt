-- ===== src/Nick.antt =====
-- CNick of src/Nick.cpp: a nick on a channel with its prefixes and tags. A string is `none` where
-- the pointer is null. The outcome of each allocation is an argument of the operation.
pub mod Rounds
pub mod Sorting
pub mod Prefixes
pub mod Tags
use shroudbnc.Base.{
  ℕ, zero, suc, List, [], ◌∷◌, ◌++◌, Option, none, some, Bool, true, false, ◌==◌, ◌&&◌, ◌||◌, not,
  if◌then◌else◌, length, Outcome, ok, err, fault,
}
use shroudbnc.Hashtable.Key.{KeyRule, Text}
use shroudbnc.Hashtable.Entries.{find, position}
use shroudbnc.Isupport.{has_char, get_highest_user_flag}
use shroudbnc.Vector.{Vector, empty, insert, remove_at}

-- The tag's name and its value.
abbrev pub NickTag : Type 0
NickTag = Text × Text

pub record Nick : Type 0 where
  pub nick : Option Text
  pub prefixes : Option Text
  pub site : Option Text
  pub realname : Option Text
  pub server : Option Text
  pub creation : ℕ
  pub idle_since : ℕ
  pub tags : Vector NickTag

-- The constructor at the time `now`; `copied` is the outcome of strdup.
unfoldable pub new : Bool → ℕ → Text → Nick
new copied now name = record {
  nick = if copied then some name else none;
  prefixes = none;
  site = none;
  realname = none;
  server = none;
  creation = now;
  idle_since = now;
  tags = empty;
}

unfoldable pub set_nick : Bool → Text → Nick → Nick × Bool
set_nick copied name n = if copied then (record n { nick = some name }, true) else (n, false)

unfoldable pub has_prefix : ℕ → Nick → Bool
has_prefix prefix n = elim n.prefixes [ none ↦ false | some text ↦ has_char prefix text ]

unfoldable pub is_op : Nick → Bool
is_op = has_prefix 64

unfoldable pub is_voice : Nick → Bool
is_voice = has_prefix 43

unfoldable pub is_halfop : Nick → Bool
is_halfop = has_prefix 37

-- The inner loop of SortPrefixes behind the place `i`: the first character equal to `highest` is
-- overwritten by the one that stood at `i`.
unfoldable pub swap_first : ℕ → ℕ → Text → Option Text
swap_first highest at_i [] = none
swap_first highest at_i (x ∷ text) =
    if x == highest
    then some (at_i ∷ text)
    else elim (swap_first highest at_i text) [ none ↦ none | some ys ↦ some (x ∷ ys) ]

-- One round of the outer loop: the character at the place and those behind it.
unfoldable pub bring : ℕ → ℕ → Text → ℕ × Text
bring highest x text =
    if x == highest
    then (x, text)
    else elim (swap_first highest x text) [ none ↦ (x, text) | some ys ↦ (highest, ys) ]

-- The outer loop with `n` rounds left; the second argument is the server's PREFIX.
unfoldable pub sort_loop : ℕ → Option Text → Text → Text
sort_loop zero supported text = text
sort_loop (suc n) supported [] = []
sort_loop (suc n) supported (x ∷ text) =
    let (y, ys) = bring (get_highest_user_flag supported (some (x ∷ text))) x text in
    y ∷ sort_loop n supported ys

-- SortPrefixes. `irc` is the channel's connection and what it has under PREFIX.
unfoldable pub sort_prefixes : Option (Option Text) → Text → Text
sort_prefixes none text = text
sort_prefixes (some supported) text = sort_loop (length text) supported text

abbrev pub text_of : Option Text → Text
text_of none = []
text_of (some text) = text

-- A prefix that is the terminating zero makes the string no longer.
abbrev pub with_char : ℕ → Text → Text
with_char c text = if c == 0 then text else text ++ c ∷ []

-- `grown` is the outcome of realloc.
unfoldable pub add_prefix : Bool → Option (Option Text) → ℕ → Nick → Nick × Bool
add_prefix grown irc prefix n =
    if has_prefix prefix n
    then (n, true)
    else (if grown
        then (
          record n { prefixes = some (sort_prefixes irc (with_char prefix (text_of n.prefixes))) },
          true,
        )
        else (n, false))

-- The loop of RemovePrefix.
unfoldable pub without : ℕ → Text → Text
without prefix [] = []
without prefix (x ∷ text) = let rest = without prefix text in if x == prefix then rest else x ∷ rest

unfoldable pub remove_prefix : Bool → ℕ → Nick → Nick × Bool
remove_prefix allocated prefix n = elim n.prefixes [
  | none ↦ (n, true)
  | some text ↦
      if allocated then (record n { prefixes = some (without prefix text) }, true) else (n, false)
]

unfoldable pub set_prefixes : Bool → Option Text → Nick → Nick × Bool
set_prefixes copied none n = (record n { prefixes = none }, true)
set_prefixes copied (some text) n =
    if copied then (record n { prefixes = some text }, true) else (n, false)

-- IMPL_NICKSET: what the attribute becomes, or `none` where it is left alone.
unfoldable pub nickset : Bool → Bool → Option Text → Option Text → Option Text
nickset copied fixed none none = none
nickset copied fixed none (some value) = if copied then some value else none
nickset copied fixed (some old) none = none
nickset copied fixed (some old) (some value) =
    if fixed then none else (if copied then some value else none)

unfoldable pub set_site : Bool → Option Text → Nick → Nick × Bool
set_site copied value n = elim (nickset copied false n.site value) [
  | none ↦ (n, false)
  | some new_value ↦ (record n { site = some new_value }, true)
]

unfoldable pub set_realname : Bool → Option Text → Nick → Nick × Bool
set_realname copied value n = elim (nickset copied true n.realname value) [
  | none ↦ (n, false)
  | some new_value ↦ (record n { realname = some new_value }, true)
]

unfoldable pub set_server : Bool → Option Text → Nick → Nick × Bool
set_server copied value n = elim (nickset copied true n.server value) [
  | none ↦ (n, false)
  | some new_value ↦ (record n { server = some new_value }, true)
]

-- What follows the first exclamation mark.
unfoldable pub behind_mark : Text → Option Text
behind_mark [] = none
behind_mark (x ∷ text) = if x == 33 then some text else behind_mark text

unfoldable pub internal_get_site : Nick → Option Text
internal_get_site n = elim n.site [
  | none ↦ none
  | some text ↦ elim (behind_mark text) [ none ↦ some text | some host ↦ some host ]
]

unfoldable pub set_idle_since : ℕ → Nick → Nick × Bool
set_idle_since time n = (record n { idle_since = time }, true)

-- The rule of strcasecmp.
abbrev pub loose : KeyRule → KeyRule
loose rule = record {
  case_sensitive = false;
  tolower = rule.tolower;
  strcmp_zero = rule.strcmp_zero;
  strcasecmp_zero = rule.strcasecmp_zero;
  strcmp_iff = rule.strcmp_iff;
  strcasecmp_iff = rule.strcasecmp_iff;
}

module _ ⦃rule : KeyRule⦄ where
  unfoldable pub get_tag : Text → Nick → Option Text
  get_tag name n = find ⦃rule = loose rule⦄ name n.tags.items

  -- The loop of SetTag, which removes the first tag with the name.
  unfoldable pub drop_tag : Text → Nick → Nick
  drop_tag name n = elim (position ⦃rule = loose rule⦄ name n.tags.items) [
    | none ↦ n
    | some i ↦ elim (remove_at i n.tags) [
      | ok tags ↦ record n { tags = tags }
      | err e ↦ n
      | fault ↦ n
    ]
  ]

  -- The last steps of SetTag; the flags are the outcomes of the two strdup calls and of realloc.
  unfoldable pub insert_tag : Bool → Bool → Text → Text → Nick → Nick × Bool
  insert_tag copied grown name value n =
      if copied
      then elim (insert grown (name, value) n.tags) [
        | ok tags ↦ (record n { tags = tags }, true)
        | err e ↦ (n, false)
        | fault ↦ (n, false)
      ]
      else (n, false)

  unfoldable pub set_tag : Bool → Bool → Bool → Option Text → Option Text → Nick → Nick × Bool
  set_tag name_copied value_copied grown none value n = (n, false)
  set_tag name_copied value_copied grown (some name) none n = (drop_tag name n, true)
  set_tag name_copied value_copied grown (some name) (some value) n =
      insert_tag (name_copied && value_copied) grown name value (drop_tag name n)
