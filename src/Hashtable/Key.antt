-- ===== src/Hashtable/Key.antt =====
-- The keys of CHashtable (src/Hashtable.h): C strings, their hash and their comparison. A string is
-- the list of its characters before the terminating zero, each as the unsigned long that C makes
-- of it. The functions of the C library are parameters, with what the standard says of them.
use shroudbnc.Base.{
  ℕ, ◌+◌, ◌*◌, ◌%◌, ◌^◌, ◌≡◌, refl, sym, ap, ◌∙◌, ◌↔◌, List, [], ◌∷◌, map, Bool, true, false,
  if◌then◌else◌, Bool-cases, inl, inr, arith,
}

abbrev pub Text : Type 0
Text = List ℕ

-- `strcmp_zero` and `strcasecmp_zero` are the tests of a result against zero.
pub record KeyRule : Type 0 where
  pub case_sensitive : Bool
  pub tolower : ℕ → ℕ
  pub strcmp_zero : Text → Text → Bool
  pub strcasecmp_zero : Text → Text → Bool
  pub strcmp_iff : (a b : Text) → (strcmp_zero a b ≡ true) ↔ (a ≡ b)
  pub strcasecmp_iff : (a b : Text) → (strcasecmp_zero a b ≡ true) ↔ (map tolower a ≡ map tolower b)

-- The values of unsigned long, 64 bits wide.
abbrev pub word : ℕ
word = 2 ^ 64

module _ ⦃rule : KeyRule⦄ where
  -- The loop of Hash. The shift drops the high bits, as each sum does.
  unfoldable pub hash_loop : ℕ → Text → ℕ
  hash_loop value [] = value
  hash_loop value (x ∷ text) =
      hash_loop
        (((value * 2 ^ 5) % word + value + (if rule.case_sensitive then x else rule.tolower x))
          % word)
        text

  unfoldable pub hash : Text → ℕ
  unfolding hash_loop
  hash = hash_loop 5381

  -- `(CaseSensitive ? strcmp(a, b) : strcasecmp(a, b)) == 0`
  unfoldable pub same : Text → Text → Bool
  same a b = if rule.case_sensitive then rule.strcmp_zero a b else rule.strcasecmp_zero a b

  -- What the comparison sees of a key.
  abbrev pub folded : Text → Text
  folded a = if rule.case_sensitive then a else map rule.tolower a

  pub same_iff : (a b : Text) → (same a b ≡ true) ↔ (folded a ≡ folded b)
  unfolding same
  same_iff a b = elim (Bool-cases rule.case_sensitive) [
    | inl exact ↦ rw exact (rule.strcmp_iff a b)
    | inr loose ↦ rw loose (rule.strcasecmp_iff a b)
  ]

  pub same_refl : (a : Text) → same a a ≡ true
  same_refl a = (same_iff a a).1 refl

  pub same_symm : (a b : Text) → same a b ≡ same b a
  same_symm a b = ground (arith, same_iff a b, same_iff b a)

  pub same_congr : (a b q : Text) → same a b ≡ true → same a q ≡ same b q
  same_congr a b q e = ground (arith, same_iff a b, same_iff a q, same_iff b q, e)

  -- The loop over characters that are already folded.
  hash_plain : ℕ → Text → ℕ
  hash_plain value [] = value
  hash_plain value (x ∷ text) = hash_plain (((value * 2 ^ 5) % word + value + x) % word) text

  abbrev letter : ℕ → ℕ
  letter x = if rule.case_sensitive then x else rule.tolower x

  hash_loop-letter : (value : ℕ) (a : Text) → hash_loop value a ≡ hash_plain value (map letter a)
  unfolding hash_loop hash_plain
  hash_loop-letter value [] = refl
  hash_loop-letter value (x ∷ a) =
      hash_loop-letter (((value * 2 ^ 5) % word + value + letter x) % word) a

  map_self : (a : Text) → map {B = ℕ} (λ x. x) a ≡ a
  map_self [] = refl
  map_self (x ∷ a) = ap (λ t. x ∷ t) (map_self a)

  map-letter : (a : Text) → map letter a ≡ folded a
  map-letter a = by_flag rule.case_sensitive
    where
      by_flag :
          (b : Bool)
          → map (λ x. if b then x else rule.tolower x) a ≡ (if b then a else map rule.tolower a)
      by_flag true = map_self a
      by_flag false = refl

  hash_loop-plain : (value : ℕ) (a : Text) → hash_loop value a ≡ hash_plain value (folded a)
  hash_loop-plain value a = hash_loop-letter value a ∙ ap (hash_plain value) (map-letter a)

  hash_loop-folded :
      (value : ℕ) (a b : Text) → folded a ≡ folded b → hash_loop value a ≡ hash_loop value b
  hash_loop-folded value a b e =
      hash_loop-plain value a ∙ ap (hash_plain value) e ∙ sym (hash_loop-plain value b)

  -- Keys that compare equal hash alike.
  pub hash-same : (a b : Text) → same a b ≡ true → hash a ≡ hash b
  unfolding hash
  hash-same a b e = hash_loop-folded 5381 a b ((same_iff a b).0 e)
