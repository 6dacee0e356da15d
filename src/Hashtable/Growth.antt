-- ===== src/Hashtable/Growth.antt =====
-- How far the buckets of a CHashtable fill, and how far their number grows.
use mathlib.Core.List.{flatten}
use mathlib.Core.Option.{some-injective}
use shroudbnc.Base.{
  ℕ, zero, suc, ◌+◌, ◌*◌, ◌^◌, ◌≤◌, ◌<◌, ◌≡◌, ◌≢◌, refl, sym, subst, ◌∙◌, List, [], ◌∷◌, Option,
  none, some, false, length, get_or, set, arith, dec_lt, Bool-cases, Option-cases, inl, inr, ◌⊎◌,
  ℕ_discrete, ◌%◌,
}
use shroudbnc.Hashtable.Key.{KeyRule, Text, hash, same, same_refl, same_symm, same_congr}
use shroudbnc.Hashtable.Entries.{Bucket, to_ℕ, find, find-eq-none, count, bucket_remove}
use shroudbnc.Hashtable.{
  Table, new, home, bucket_of, get, remove_key, place, add_all, add_key, doubled,
}
use shroudbnc.Hashtable.View.{IsValid, get_or-replicate}
use shroudbnc.Hashtable.Adding.{
  must_grow, stored, length-place, length-remove_key, add_key-small, add_key-full, length-stored,
  add_key-Writes,
}

module _ {ℓ} ⦃rule : KeyRule⦄ {V : Type ℓ} where
  -- No bucket has more than three entries, or there is no memory to double their number.
  abbrev pub IsRoomy : ℕ → Table V → Type 0
  IsRoomy limit t = ((i : ℕ) → length (get_or t.buckets i []) ≤ 3) ⊎ (limit < 2 * length t.buckets)

  set-elsewhere :
      (bs : List (Bucket V)) (i j : ℕ) (c : Bucket V)
      → i ≢ j
      → get_or (set bs i c) j [] ≡ get_or bs j []
  set-elsewhere [] i j c h = refl
  set-elsewhere (b ∷ bs) zero zero c h = absurd (h refl)
  set-elsewhere (b ∷ bs) zero (suc j) c h = refl
  set-elsewhere (b ∷ bs) (suc i) zero c h = refl
  set-elsewhere (b ∷ bs) (suc i) (suc j) c h = set-elsewhere bs i j c (omega arith)

  removed-elsewhere :
      (k : Text) (t : Table V) (i : ℕ)
      → home k (length t.buckets) ≢ i
      → get_or (remove_key false k t).buckets i [] ≡ get_or t.buckets i []
  unfolding remove_key
  removed-elsewhere k t i h = elim (Option-cases (bucket_remove k (bucket_of t.buckets k))) [
    | inl e ↦ rw (remove_key, e)
    | inr ((x, rest), e) ↦
        rw (remove_key, e) (set-elsewhere t.buckets (home k (length t.buckets)) i rest h)
  ]

  stored-elsewhere :
      (k : Text) (x : V) (t : Table V) (i : ℕ)
      → home k (length (stored k x t).buckets) ≢ i
      → get_or (stored k x t).buckets i [] ≡ get_or t.buckets i []
  stored-elsewhere k x t i h =
      let r = remove_key false k t in
      let away : home k (length r.buckets) ≢ i = subst (λ n. home k n ≢ i) (length-place k x r) h in
      let away' : home k (length t.buckets) ≢ i =
        subst (λ n. home k n ≢ i) (length-remove_key false k t) away in
      unfold place in
      set-elsewhere r.buckets (home k (length r.buckets)) i _ away ∙ removed-elsewhere k t i away'

  stored-IsRoomy :
      (limit : ℕ) (k : Text) (x : V) (t : Table V)
      → IsRoomy limit t
      → must_grow limit k (stored k x t) ≡ false
      → IsRoomy limit (stored k x t)
  stored-IsRoomy limit k x t (inr h) e = inr (omega (arith, length-stored k x t))
  stored-IsRoomy limit k x t (inl h) e = elim (dec_lt limit (2 * length (stored k x t).buckets)) [
    | yes over ↦ inr over
    | no under ↦ inl λ i. elim (ℕ_discrete (home k (length (stored k x t).buckets)) i) [
      | yes here ↦
          subst (λ j. length (get_or (stored k x t).buckets j []) ≤ 3) here
            (ground (arith, e, under))
      | no away ↦ rw (stored-elsewhere k x t i away) (h i)
    ]
  ]

  -- An Add that keeps tables roomy.
  abbrev Keeps : ℕ → (Text → V → Table V → Option (Table V)) → Type ℓ
  Keeps limit add_one =
      (k : Text) (x : V) (t u : Table V)
      → IsRoomy limit t
      → add_one k x t ≡ some u
      → IsRoomy limit u

  add_all-IsRoomy :
      (limit : ℕ) (add_one : Text → V → Table V → Option (Table V)) (es : Bucket V) (t u : Table V)
      → Keeps limit add_one
      → IsRoomy limit t
      → add_all add_one es t ≡ some u
      → IsRoomy limit u
  unfolding add_all
  add_all-IsRoomy limit add_one [] t u keeps h e = subst (IsRoomy limit) (some-injective _ _ e) h
  add_all-IsRoomy limit add_one (x ∷ es) t u keeps h e = elim (Option-cases (add_one x.0 x.1 t)) [
    | inl fails ↦ cc
    | inr (r, run) ↦
        add_all-IsRoomy limit add_one es r u keeps (keeps x.0 x.1 t r h run)
          (sym (rw (add_all, run) refl) ∙ e)
  ]

  doubled-IsRoomy : (limit : ℕ) (t : Table V) → IsRoomy limit (doubled t)
  unfolding doubled
  doubled-IsRoomy limit t =
      inl λ i. rw (get_or-replicate {A = Bucket V} (2 * length t.buckets) i []) (omega arith)

  -- A run of Add that returns.
  pub IsRoomy-after :
      (limit fuel : ℕ) (k : Text) (x : V) (t u : Table V)
      → IsRoomy limit t
      → add_key limit fuel k x t ≡ some u
      → IsRoomy limit u
  unfolding add_key
  IsRoomy-after limit zero k x t u h e = cc
  IsRoomy-after limit (suc fuel) k x t u h e =
      elim (Bool-cases (must_grow limit k (stored k x t))) [
        | inr small ↦
            subst (IsRoomy limit)
              (some-injective _ _ (sym (add_key-small limit fuel k x t small) ∙ e))
              (stored-IsRoomy limit k x t h small)
        | inl full ↦
            add_all-IsRoomy limit (add_key limit fuel) (flatten (stored k x t).buckets)
              (doubled (stored k x t)) u (IsRoomy-after limit fuel)
              (doubled-IsRoomy limit (stored k x t)) (sym (add_key-full limit fuel k x t full) ∙ e)
      ]

  -- Add on a valid table whose buckets have at most three entries or cannot be doubled, with enough fuel, returns a valid table
  -- of that kind: no bucket has more than three entries, or malloc refuses twice as many buckets.
  pub add_key-IsRoomy :
      (limit fuel : ℕ) (k : Text) (x : V) (t : Table V)
      → IsValid t
      → limit < length t.buckets * 2 ^ fuel
      → IsRoomy limit t
      → (u : Table V) × (add_key limit (suc fuel) k x t ≡ some u) × IsValid u × IsRoomy limit u
  add_key-IsRoomy limit fuel k x t v h r =
      let (u, run, w, wide) = add_key-Writes limit fuel k x t v h in
      (u, run, w.valid, IsRoomy-after limit (suc fuel) k x t u r run)

module _ ⦃rule : KeyRule⦄ where
  exclusive : (e a b : Text) → same a b ≡ false → to_ℕ (same e a) + to_ℕ (same e b) ≤ 1
  exclusive e a b h = elim (Bool-cases (same e a)) [
    | inr miss ↦ rw miss (ground arith)
    | inl hit ↦ rw (hit, same_congr e a b hit, h) (omega arith)
  ]

at_most_one :
    (a b c d : ℕ)
    → a + b ≤ 1
    → a + c ≤ 1
    → a + d ≤ 1
    → b + c ≤ 1
    → b + d ≤ 1
    → c + d ≤ 1
    → a + b + c + d ≤ 1
at_most_one a b c d ab ac ad bc bd cd = omega arith

module _ {ℓ} ⦃rule : KeyRule⦄ {V : Type ℓ} where
  count-four :
      (a b c d : Text) (es : Bucket V)
      → same a b ≡ false
      → same a c ≡ false
      → same a d ≡ false
      → same b c ≡ false
      → same b d ≡ false
      → same c d ≡ false
      → count a es + count b es + count c es + count d es ≤ length es
  unfolding count
  count-four a b c d [] ab ac ad bc bd cd = omega arith
  count-four a b c d (e ∷ es) ab ac ad bc bd cd = omega (
    arith,
    count-four a b c d es ab ac ad bc bd cd,
    at_most_one (to_ℕ (same e.0 a)) (to_ℕ (same e.0 b)) (to_ℕ (same e.0 c)) (to_ℕ (same e.0 d))
        (exclusive e.0 a b ab) (exclusive e.0 a c ac) (exclusive e.0 a d ad) (exclusive e.0 b c bc)
        (exclusive e.0 b d bd) (exclusive e.0 c d cd),
  )

  found-count : (k : Text) (es : Bucket V) → find k es ≢ none → 1 ≤ count k es
  found-count k es h = elim (ℕ_discrete (count k es) 0) [
    | yes zero_count ↦ absurd (h (find-eq-none k es zero_count))
    | no more ↦ omega arith
  ]

  -- Four keys in one bucket of a roomy table.
  crowded :
      (limit : ℕ) (a b c d : Text) (t : Table V)
      → IsRoomy limit t
      → hash b ≡ hash a
      → hash c ≡ hash a
      → hash d ≡ hash a
      → same a b ≡ false
      → same a c ≡ false
      → same a d ≡ false
      → same b c ≡ false
      → same b d ≡ false
      → same c d ≡ false
      → get (some a) t ≢ none
      → get (some b) t ≢ none
      → get (some c) t ≢ none
      → get (some d) t ≢ none
      → limit < 2 * length t.buckets
  unfolding get home
  crowded limit a b c d t (inr h) hb hc hd ab ac ad bc bd cd ga gb gc gd = h
  crowded limit a b c d t (inl h) hb hc hd ab ac ad bc bd cd ga gb gc gd =
      let n = length t.buckets in
      let es = get_or t.buckets (hash a % n) [] in
      let in_bucket : (k : Text) → hash k ≡ hash a → get (some k) t ≢ none → 1 ≤ count k es =
        λ k e g. subst (λ j. 1 ≤ count k (get_or t.buckets (j % n) [])) e (found-count k _ g) in
      absurd (
        omega (
          arith,
          h (hash a % n),
          count-four a b c d es ab ac ad bc bd cd,
          in_bucket a refl ga,
          in_bucket b hb gb,
          in_bucket c hc gc,
          in_bucket d hd gd,
        ))

  -- Four different keys with one hash value, of which three stand in a valid table whose buckets
  -- have at most three entries or cannot be doubled: Add of the fourth, with enough fuel, returns
  -- only after doubling the buckets until malloc refuses to double them again.
  pub add_key-collision :
      (limit fuel : ℕ) (a b c d : Text) (x : V) (t : Table V)
      → IsValid t
      → IsRoomy limit t
      → limit < length t.buckets * 2 ^ fuel
      → hash b ≡ hash a
      → hash c ≡ hash a
      → hash d ≡ hash a
      → same a b ≡ false
      → same a c ≡ false
      → same a d ≡ false
      → same b c ≡ false
      → same b d ≡ false
      → same c d ≡ false
      → get (some a) t ≢ none
      → get (some b) t ≢ none
      → get (some c) t ≢ none
      → (u : Table V) × (add_key limit (suc fuel) d x t ≡ some u) × (limit < 2 * length u.buckets)
  add_key-collision limit fuel a b c d x t v r h hb hc hd ab ac ad bc bd cd ga gb gc =
      let (u, run, w, wide) = add_key-Writes limit fuel d x t v h in
      let kept : (k : Text) → same k d ≡ false → get (some k) t ≢ none → get (some k) u ≢ none =
        λ k away g e. g (sym (ground (arith, w.reads k, same_symm k d, away)) ∙ e) in
      (
        u,
        run,
        crowded limit a b c d u (IsRoomy-after limit (suc fuel) d x t u r run) hb hc hd ab ac ad bc
            bd cd (kept a ad ga) (kept b bd gb) (kept c cd gc)
            (λ e. ground (arith, w.reads d, same_refl d, e)),
      )

pub new-IsRoomy {ℓ} : ⦃rule : KeyRule⦄ (V : Type ℓ) (limit : ℕ) → IsRoomy {V = V} limit new
unfolding new
new-IsRoomy V limit = inl λ i. rw (get_or-replicate {A = Bucket V} 32 i []) (omega arith)
