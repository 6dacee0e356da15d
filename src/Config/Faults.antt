-- ===== src/Config/Faults.antt =====
-- Which files ParseConfig of src/Config.cpp can read.
use shroudbnc.Base.{
  ℕ, suc, ◌*◌, ◌^◌, ◌<◌, ◌≡◌, ◌≢◌, ◌⊎◌, refl, ap, ◌∙◌, List, [], ◌∷◌, Option, none, some, ◌==◌,
  length, All, arith, ok, fault, Bool-cases, inl, inr,
}
use native.Mathlib.Nat.{mul-le-mul_right}
use shroudbnc.Hashtable.Key.{KeyRule, Text}
use shroudbnc.Hashtable.{Table}
use shroudbnc.Hashtable.View.{IsValid}
use shroudbnc.Hashtable.Adding.{add_key-Writes}
use shroudbnc.Config.{strip_last, split_at, parse_line, parse_loop}

-- A string of fgets that is not the line feed alone.
abbrev pub IsFull : Text → Type 0
IsFull line = line ≢ 10 ∷ []

strip_last-some : (c x : ℕ) (text : Text) → (rest : Text) × (strip_last c (x ∷ text) ≡ some rest)
unfolding strip_last
strip_last-some c x [] = (_, refl)
strip_last-some c x (y ∷ text) =
    let (rest, e) = strip_last-some c y text in (x ∷ rest, rw (strip_last, e))

strip_last-full :
    (x : ℕ) (text : Text)
    → IsFull (x ∷ text)
    → (y : ℕ) × (rest : Text) × (strip_last 10 (x ∷ text) ≡ some (y ∷ rest))
unfolding strip_last
strip_last-full x [] full = (x, [], ground (arith, λ (e : x ≡ 10). full (ap (λ z. z ∷ []) e)))
strip_last-full x (y ∷ text) full =
    let (rest, e) = strip_last-some 10 y text in (x, rest, rw (strip_last, e))

-- A full string is read without a fault.
parse_line-full :
    (line : Text) → IsFull line → (o : Option (Text × Text)) × (parse_line line ≡ ok o)
unfolding parse_line
parse_line-full [] full = (none, refl)
parse_line-full (x ∷ line) full =
    let (y, rest, e) = strip_last-full x line full in
    let (text, f) = strip_last-some 13 y rest in (split_at 61 text, rw (parse_line, e, f))

line_cases : (line : Text) → (line ≡ 10 ∷ []) ⊎ IsFull line
line_cases [] = inr (λ e. cc)
line_cases (x ∷ []) = elim (Bool-cases (x == 10)) [
  | inl e ↦ inl (ap (λ z. z ∷ []) (ground (arith, e)))
  | inr n ↦ inr (λ e. ground (arith, n, e))
]
line_cases (x ∷ y ∷ line) = inr (λ e. cc)

module _ ⦃rule : KeyRule⦄ where
  -- A line that is read leaves a valid table to the rest of the loop.
  parsed-line :
      (limit fuel : ℕ) (line : Text) (lines : List Text) (t : Table Text) (o : Option (Text × Text))
      → IsValid t
      → limit < length t.buckets * 2 ^ fuel
      → parse_line line ≡ ok o
      → (u : Table Text) × IsValid u
        × (limit < length u.buckets * 2 ^ fuel)
        × (parse_loop limit (suc fuel) (line ∷ lines) t ≡ parse_loop limit (suc fuel) lines u)
  unfolding parse_loop
  parsed-line limit fuel line lines t none v h e = (t, v, h, rw (parse_loop, e))
  parsed-line limit fuel line lines t (some (setting, value)) v h e =
      let (u, run, w, wide) = add_key-Writes limit fuel setting value t v h in
      (u, w.valid, omega (arith, h, mul-le-mul_right (2 ^ fuel) wide), rw (parse_loop, e, run))

  -- The loop of ParseConfig on the strings of fgets: either none of them is a line feed alone, and all are read into a valid table, or one is, and the loop reads outside its buffer.
  pub parse_loop-blank :
      (limit fuel : ℕ) (lines : List Text) (t : Table Text)
      → IsValid t
      → limit < length t.buckets * 2 ^ fuel
      → (All IsFull lines
          × ((u : Table Text) × (parse_loop limit (suc fuel) lines t ≡ some (ok u)) × IsValid u))
        ⊎ (¬ (All IsFull lines) × (parse_loop limit (suc fuel) lines t ≡ some fault))
  unfolding parse_loop parse_line strip_last
  parse_loop-blank limit fuel [] t v h = inl (tt, (t, refl, v))
  parse_loop-blank limit fuel (line ∷ lines) t v h = elim (line_cases line) [
    | inl blank ↦ inr (λ all. all.0 blank, rw (parse_loop, blank) refl)
    | inr full ↦
        let (o, e) = parse_line-full line full in
        let (u, valid, wide, step) = parsed-line limit fuel line lines t o v h e in
        elim (parse_loop-blank limit fuel lines u valid wide) [
          | inl (all, (w, run, final)) ↦ inl ((full, all), (w, step ∙ run, final))
          | inr (broken, run) ↦ inr (λ all. broken all.1, step ∙ run)
        ]
  ]
