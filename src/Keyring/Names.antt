-- ===== src/Keyring/Names.antt =====
-- What RemoveRedundantKeys of src/Keyring.cpp counts in the sorted keys, in terms of the names of the settings.
use mathlib.Core.List.{flatten}
use shroudbnc.Base.{
  ℕ, suc, ◌≡◌, refl, sym, ap, ◌∙◌, List, [], ◌∷◌, ◌++◌, map, take, drop, take-append-drop, subst,
  ltb, Bool, true, false, ◌&&◌, if◌then◌else◌, length, arith, Bool-cases, inl, inr,
}
use shroudbnc.Hashtable.Key.{KeyRule, Text, same}
use shroudbnc.Config.{Config}
use shroudbnc.Keyring.{prefix, starts_with, is_key, Owner, get_sorted_keys, count_keys}

-- RemoveRedundantKeys takes the setting for redundant.
abbrev pub is_redundant : Owner → Text → Bool
is_redundant owner key = is_key key && owner.joined (drop 4 key)

-- How many of the texts pass a test.
unfoldable pub how_many : (Text → Bool) → List Text → ℕ
how_many test [] = 0
how_many test (x ∷ xs) = let rest = how_many test xs in if test x then suc rest else rest

-- qsort puts what it is given in another order.
abbrev pub Rearranges : (List Text → List Text) → Type 0
Rearranges qsort =
    (keys : List Text) (test : Text → Bool) → how_many test (qsort keys) ≡ how_many test keys

-- The names of the settings.
abbrev pub names_of : Config → List Text
names_of c = map (λ e. e.0) (flatten c.settings.buckets)

how_many-congr :
    (f g : Text → Bool) (xs : List Text) → ((x : Text) → f x ≡ g x) → how_many f xs ≡ how_many g xs
unfolding how_many
how_many-congr f g [] e = refl
how_many-congr f g (x ∷ xs) e = ground (arith, e x, how_many-congr f g xs e)

starts_with-append : (p rest : Text) → starts_with p (p ++ rest) ≡ true
unfolding starts_with
starts_with-append [] rest = refl
starts_with-append (x ∷ p) rest = ground (arith, starts_with-append p rest)

starts_with-take : (p text : Text) → starts_with p text ≡ true → take (length p) text ≡ p
unfolding starts_with
starts_with-take [] text h = refl
starts_with-take (x ∷ p) [] h = cc
starts_with-take (x ∷ p) (y ∷ text) h =
    let same_first : y ≡ x = ground (arith, h) in
    let later : starts_with p text ≡ true = ground (arith, h) in
    rw (same_first, starts_with-take p text later) refl

module _ ⦃rule : KeyRule⦄ where
  -- Whether a setting is one of the redundant ones among the keys.
  unfoldable pub is_removed : Owner → List Text → Text → Bool
  is_removed owner [] q = false
  is_removed owner (key ∷ keys) q =
      let rest = is_removed owner keys q in
      if is_redundant owner key && same key q then true else rest

  -- How many of the keys are redundant ones.
  unfoldable pub count_redundant : Owner → List Text → ℕ
  count_redundant owner [] = 0
  count_redundant owner (key ∷ keys) =
      let rest = count_redundant owner keys in if is_redundant owner key then suc rest else rest

  -- The name of a key's setting, and that of the key of a channel that the connection is in.
  abbrev pub names_key : Text → Bool
  names_key k = rule.strcmp_zero (take 4 k) (b'k' ∷ b'e' ∷ b'y' ∷ b'.' ∷ [])

  abbrev pub names_joined : Owner → Text → Bool
  names_joined owner k = names_key k && owner.joined (drop 4 k)

  is_key-names_key : (k : Text) → is_key k ≡ names_key k
  is_key-names_key k = elim (Bool-cases (is_key k)) [
    | inl yes_key ↦
        yes_key ∙ sym ((rule.strcmp_iff (take 4 k) prefix).1 (starts_with-take prefix k yes_key))
    | inr no_key ↦ elim (Bool-cases (names_key k)) [
      | inr other ↦ no_key ∙ sym other
      | inl named ↦
          let e : prefix ++ drop 4 k ≡ k =
            ap (λ z. z ++ drop 4 k) (sym ((rule.strcmp_iff (take 4 k) prefix).0 named))
            ∙ take-append-drop 4 k in
          subst (λ z. starts_with prefix z ≡ true) e (starts_with-append prefix (drop 4 k))
          ∙ sym named
    ]
  ]

  count_keys-how_many : (keys : List Text) → count_keys keys ≡ how_many is_key keys
  unfolding count_keys how_many
  count_keys-how_many [] = refl
  count_keys-how_many (k ∷ keys) = ground (arith, count_keys-how_many keys)

  count_redundant-how_many :
      (owner : Owner) (keys : List Text)
      → count_redundant owner keys ≡ how_many (is_redundant owner) keys
  unfolding count_redundant how_many
  count_redundant-how_many owner [] = refl
  count_redundant-how_many owner (k ∷ keys) = ground (arith, count_redundant-how_many owner keys)

  is_removed-how_many :
      (owner : Owner) (keys : List Text) (q : Text)
      → is_removed owner keys q ≡ ltb 0 (how_many (λ k. is_redundant owner k && same k q) keys)
  unfolding is_removed how_many
  is_removed-how_many owner [] q = refl
  is_removed-how_many owner (k ∷ keys) q = ground (arith, is_removed-how_many owner keys q)

  -- What is counted in the sorted keys is counted in the names of the settings.
  sorted-names :
      (qsort : List Text → List Text) (c : Config) (f g : Text → Bool)
      → Rearranges qsort
      → ((k : Text) → f k ≡ g k)
      → how_many f (get_sorted_keys qsort c.settings) ≡ how_many g (names_of c)
  unfolding get_sorted_keys
  sorted-names qsort c f g sorts e = sorts (names_of c) f ∙ how_many-congr f g (names_of c) e

  pub count_keys-names :
      (qsort : List Text → List Text) (c : Config)
      → Rearranges qsort
      → count_keys (get_sorted_keys qsort c.settings) ≡ how_many names_key (names_of c)
  count_keys-names qsort c sorts =
      count_keys-how_many (get_sorted_keys qsort c.settings)
      ∙ sorted-names qsort c is_key names_key sorts is_key-names_key

  pub count_redundant-names :
      (qsort : List Text → List Text) (owner : Owner) (c : Config)
      → Rearranges qsort
      → count_redundant owner (get_sorted_keys qsort c.settings)
        ≡ how_many (names_joined owner) (names_of c)
  count_redundant-names qsort owner c sorts =
      count_redundant-how_many owner (get_sorted_keys qsort c.settings)
      ∙ sorted-names qsort c (is_redundant owner) (names_joined owner) sorts
          (λ k. ap (λ b. b && owner.joined (drop 4 k)) (is_key-names_key k))

  pub is_removed-names :
      (qsort : List Text → List Text) (owner : Owner) (c : Config) (q : Text)
      → Rearranges qsort
      → is_removed owner (get_sorted_keys qsort c.settings) q
        ≡ ltb 0 (how_many (λ k. names_joined owner k && same k q) (names_of c))
  is_removed-names qsort owner c q sorts =
      is_removed-how_many owner (get_sorted_keys qsort c.settings) q
      ∙ ap (ltb 0) (
          sorted-names qsort c (λ k. is_redundant owner k && same k q)
            (λ k. names_joined owner k && same k q) sorts
            (λ k. ap (λ b. b && owner.joined (drop 4 k) && same k q) (is_key-names_key k)))
