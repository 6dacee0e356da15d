-- ===== src/Isupport/ChanModes.antt =====
-- RequiresParameter over the four groups of CHANMODES.
use shroudbnc.Base.{
  ℕ, suc, ◌≡◌, ◌≢◌, ap, [], ◌∷◌, ◌++◌, some, Bool, false, ◌==◌, ◌||◌, if◌then◌else◌, ok, arith, All,
}
use shroudbnc.Hashtable.Key.{Text}
use shroudbnc.Isupport.{comma, parameter_loop, requires_parameter}

-- Whether a mode is one of a group.
unfoldable pub in_group : ℕ → Text → Bool
in_group mode [] = false
in_group mode (x ∷ group) = (x == mode) || in_group mode group

abbrev pub NoComma : Text → Type 0
NoComma = All (λ x. x ≢ comma)

-- A group, the comma after it, and the rest.
parameter_loop-group :
    (n mode : ℕ) (group rest : Text)
    → mode ≢ comma
    → NoComma group
    → parameter_loop (suc n) mode (group ++ comma ∷ rest)
      ≡ (if in_group mode group then suc n else (if n == 0 then 0 else parameter_loop n mode rest))
unfolding parameter_loop in_group
parameter_loop-group n mode [] rest h clean = ground (arith, h)
parameter_loop-group n mode (x ∷ group) rest h clean =
    ground (arith, clean.0, parameter_loop-group n mode group rest h clean.1)

-- The loop of RequiresParameter over the four groups.
pub parameter_loop-groups :
    (a b c d : Text) (mode : ℕ)
    → mode ≢ comma
    → NoComma a
    → NoComma b
    → NoComma c
    → parameter_loop 3 mode (a ++ comma ∷ (b ++ comma ∷ (c ++ comma ∷ d))) ≡ (
        if in_group mode a
        then 3
        else (if in_group mode b then 2 else (if in_group mode c then 1 else 0)))
parameter_loop-groups a b c d mode h ca cb clear = rw (
  parameter_loop-group 2 mode a (b ++ comma ∷ (c ++ comma ∷ d)) h ca,
  parameter_loop-group 1 mode b (c ++ comma ∷ d) h cb,
  parameter_loop-group 0 mode c d h clear,
)

-- With CHANMODES=a,b,c,d, where the first three groups have no comma in them, RequiresParameter
-- gives 3 for the modes of the first group, 2 for those of the second, 1 for those of the third
-- and 0 for any other character but the comma. A mode in two groups counts for the first of them.
pub requires_parameter-groups :
    (a b c d : Text) (mode : ℕ)
    → mode ≢ comma
    → NoComma a
    → NoComma b
    → NoComma c
    → requires_parameter (some (a ++ comma ∷ (b ++ comma ∷ (c ++ comma ∷ d)))) mode
      ≡ ok (
          if in_group mode a
          then 3
          else (if in_group mode b then 2 else (if in_group mode c then 1 else 0)))
unfolding requires_parameter
requires_parameter-groups a b c d mode h ca cb clear =
    ap ok (parameter_loop-groups a b c d mode h ca cb clear)
