-- ===== src/Isupport.antt =====
-- The part of CIRCConnection that reads what the server supports (src/IRCConnection.cpp): the
-- values of PREFIX, such as "(ov)@+", and of CHANMODES. A string is its characters before the
-- terminating zero; `none` is a null pointer, and `fault` a read through one.
pub mod Prefixes
pub mod Announced
pub mod ChanModes
use shroudbnc.Base.{
  ℕ, zero, suc, ◌-◌, List, [], ◌∷◌, Option, none, some, Bool, true, false, ◌==◌, ◌||◌, ◌&&◌, not,
  if◌then◌else◌, Outcome, ok, err, fault,
}
use shroudbnc.Hashtable.Key.{Text}

abbrev pub open_paren : ℕ
open_paren = 40

abbrev pub close_paren : ℕ
close_paren = 41

abbrev pub comma : ℕ
comma = 44

-- Whether strchr finds the character; it finds the terminating zero of every string.
unfoldable pub has_char : ℕ → Text → Bool
has_char c [] = c == 0
has_char c (x ∷ text) = (x == c) || has_char c text

-- The loop of GetHighestUserFlag; the flag is Flip.
unfoldable pub highest_loop : Bool → Text → Text → ℕ
highest_loop flip [] modes = 0
highest_loop false (p ∷ ps) modes = highest_loop (p == close_paren) ps modes
highest_loop true (p ∷ ps) modes = if has_char p modes then p else highest_loop true ps modes

unfoldable pub get_highest_user_flag : Option Text → Option Text → ℕ
get_highest_user_flag none modes = 0
get_highest_user_flag (some prefixes) none = 0
get_highest_user_flag (some prefixes) (some modes) = highest_loop false prefixes modes

-- The loop of IsNickPrefix; the flag is flip.
unfoldable pub nick_prefix_loop : Bool → ℕ → Text → Bool
nick_prefix_loop flip c [] = false
nick_prefix_loop true c (p ∷ ps) = if p == c then true else nick_prefix_loop true c ps
nick_prefix_loop false c (p ∷ ps) = nick_prefix_loop (p == close_paren) c ps

unfoldable pub is_nick_prefix : Option Text → ℕ → Bool
is_nick_prefix none c = false
is_nick_prefix (some prefixes) c = nick_prefix_loop false c prefixes

-- The loop of IsNickMode.
unfoldable pub nick_mode_loop : ℕ → Text → Bool
nick_mode_loop c [] = false
nick_mode_loop c (p ∷ ps) =
    if p == close_paren
    then false
    else (if (p == c) && not (p == open_paren) then true else nick_mode_loop c ps)

unfoldable pub is_nick_mode : Option Text → ℕ → Outcome Bool
is_nick_mode none c = fault
is_nick_mode (some prefixes) c = ok (nick_mode_loop c prefixes)

-- What follows the first closing parenthesis.
unfoldable pub actual_prefixes : Text → Option Text
actual_prefixes [] = none
actual_prefixes (p ∷ ps) = if p == close_paren then some ps else actual_prefixes ps

-- The loop of PrefixForChanMode over the two pointers. The first one starts behind the second in
-- the same string, so it does not come to the end first.
unfoldable pub prefix_loop : ℕ → Text → Text → ℕ
prefix_loop mode ps [] = 0
prefix_loop mode [] (a ∷ actual) = 0
prefix_loop mode (p ∷ ps) (a ∷ actual) = if p == mode then a else prefix_loop mode ps actual

-- The pointer to the modes starts at the second character of PREFIX.
unfoldable pub prefix_for_chan_mode : Option Text → ℕ → Outcome ℕ
prefix_for_chan_mode none mode = fault
prefix_for_chan_mode (some []) mode = ok 0
prefix_for_chan_mode (some (p ∷ ps)) mode = elim (actual_prefixes (p ∷ ps)) [
  | none ↦ ok 0
  | some actual ↦ ok (prefix_loop mode ps actual)
]

unfoldable pub is_chan_mode : Option Text → ℕ → Outcome Bool
is_chan_mode none mode = fault
is_chan_mode (some modes) mode = ok (has_char mode modes)

-- The loop of RequiresParameter; `value` is ReturnValue.
unfoldable pub parameter_loop : ℕ → ℕ → Text → ℕ
parameter_loop value mode [] = value
parameter_loop value mode (x ∷ modes) =
    if x == mode
    then value
    else (let next = if x == comma then value - 1 else value in
        if next == 0 then 0 else parameter_loop next mode modes)

unfoldable pub requires_parameter : Option Text → ℕ → Outcome ℕ
requires_parameter none mode = fault
requires_parameter (some modes) mode = ok (parameter_loop 3 mode modes)
