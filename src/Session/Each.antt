-- ===== src/Session/Each.antt =====
-- A change of every value of a hash table.
use mathlib.Core.List.{flatten}
use shroudbnc.Base.{
  ℕ, zero, suc, ◌≤◌, ◌≡◌, ◌≢◌, ◌==◌, refl, sym, ap, subst, ◌∙◌, List, [], ◌∷◌, Option, none, some,
  length, length-append, get_or, All, arith, Bool-cases, inl, inr,
}
use shroudbnc.Hashtable.Key.{KeyRule, Text, same, same_refl}
use shroudbnc.Hashtable.Entries.{Bucket, find, count, find-eq-none}
use shroudbnc.Hashtable.{Table, get, home}
use shroudbnc.Hashtable.View.{IsValid}
use shroudbnc.Session.{each_bucket, each_row, each}

module _ {ℓ} ⦃rule : KeyRule⦄ {V : Type ℓ} where
  -- The value of a change of what may be missing.
  abbrev pub changed : (V → Option V) → Option V → Option V
  changed change none = none
  changed change (some v) = change v

  -- A bucket after the change of its values.
  record Same (change : V → Option V) (b c : Bucket V) : Type ℓ where
    sizes : length c ≡ length b
    counts : (q : Text) → count q c ≡ count q b
    finds : (q : Text) → find q c ≡ changed change (find q b)

  each_bucket-Same :
      (change : V → Option V) (b : Bucket V)
      → All (λ e. (w : V) × (change e.1 ≡ some w)) b
      → (c : Bucket V) × (each_bucket change b ≡ some c) × Same change b c
  unfolding each_bucket count find
  each_bucket-Same change [] total =
      ([], refl, record { sizes = refl; counts = λ q. refl; finds = λ q. refl })
  each_bucket-Same change (e ∷ b) total =
      let (w, run) = total.0 in
      let (c, rest, s) = each_bucket-Same change b total.1 in
      (
        (e.0, w) ∷ c,
        rw (each_bucket, run, rest) refl,
        record {
          sizes = ap suc s.sizes;
          counts = λ q. omega (arith, s.counts q);
          finds = λ q. elim (Bool-cases (same e.0 q)) [
            | inl here ↦ rw here (sym run)
            | inr other ↦ rw other (s.finds q)
          ];
        },
      )

  -- A list of buckets after it.
  record SameRow (change : V → Option V) (bs cs : List (Bucket V)) : Type ℓ where
    width : length cs ≡ length bs
    sizes : length (flatten cs) ≡ length (flatten bs)
    rows : (i : ℕ) → Same change (get_or bs i []) (get_or cs i [])

  nothing-Same : (change : V → Option V) → Same change [] []
  unfolding count find
  nothing-Same change = record { sizes = refl; counts = λ q. refl; finds = λ q. refl }

  each_row-SameRow :
      (change : V → Option V) (bs : List (Bucket V))
      → ((i : ℕ) → All (λ e. (w : V) × (change e.1 ≡ some w)) (get_or bs i []))
      → (cs : List (Bucket V)) × (each_row change bs ≡ some cs) × SameRow change bs cs
  unfolding each_row flatten
  each_row-SameRow change [] total =
      ([], refl, record { width = refl; sizes = refl; rows = λ i. nothing-Same change })
  each_row-SameRow change (b ∷ bs) total =
      let (c, run, s) = each_bucket-Same change b (total 0) in
      let (cs, later, r) = each_row-SameRow change bs (λ i. total (suc i)) in
      (
        c ∷ cs,
        rw (each_row, run, later) refl,
        record {
          width = ap suc r.width;
          sizes =
              omega (
                arith,
                s.sizes,
                r.sizes,
                length-append c (flatten cs),
                length-append b (flatten bs),
              );
          rows = λ i. row_of c cs s r i;
        },
      )
    where
      row_of :
          (d : Bucket V) (ds : List (Bucket V))
          → Same change b d
          → SameRow change bs ds
          → (i : ℕ) → Same change (get_or (b ∷ bs) i []) (get_or (d ∷ ds) i [])
      row_of d ds same_here same_later zero = same_here
      row_of d ds same_here same_later (suc i) = same_later.rows i

  -- What holds of each value that is found holds of each entry.
  found-All :
      (Q : V → Type ℓ) (es : Bucket V)
      → ((q : Text) → count q es ≤ 1)
      → ((q : Text) (v : V) → find q es ≡ some v → Q v)
      → All (λ e. Q e.1) es
  unfolding count find
  found-All Q [] once holds = tt
  found-All Q (e ∷ es) once holds = (
    holds e.0 e.1 (rw (same_refl e.0) refl),
    found-All Q es (λ q. omega (arith, once q))
        λ q v at. elim (Bool-cases (same e.0 q)) [
          | inr other ↦ holds q v (rw other at)
          | inl here ↦
              let gone : count q es ≡ 0 = ground (arith, once q, here) in
              absurd (not_both v (sym (find-eq-none q es gone) ∙ at))
        ],
  )
    where
      not_both : (v : V) → ¬ (none ≡ some v)
      not_both v f = cc

  -- A bucket of a valid table holds no key that Get does not find there.
  get-row :
      (t : Table V) (i : ℕ) (q : Text) (v : V)
      → IsValid t
      → find q (get_or t.buckets i []) ≡ some v
      → get (some q) t ≡ some v
  unfolding get
  get-row t i q v valid at = elim (Bool-cases (home q (length t.buckets) == i)) [
    | inl here ↦
        let e : home q (length t.buckets) ≡ i = ground (arith, here) in
        ap (λ n. find q (get_or t.buckets n [])) e ∙ at
    | inr elsewhere ↦
        let gone : count q (get_or t.buckets i []) ≡ 0 =
          (valid.placed q i).1 (ground (arith, elsewhere)) in
        absurd (not_both (sym (find-eq-none q _ gone) ∙ at))
  ]
    where
      not_both : ¬ (none ≡ some v)
      not_both f = cc

  -- A change of every value of a valid table, which succeeds on each value that the table has: the table
  -- stays valid, and each key reads the changed value.
  pub each-changed :
      (change : V → Option V) (t : Table V)
      → IsValid t
      → ((q : Text) (v : V) → get (some q) t ≡ some v → (w : V) × (change v ≡ some w))
      → (u : Table V) × (each change t ≡ some u)
        × IsValid u
        × (u.length_cache ≡ t.length_cache)
        × ((q : Text) → get (some q) u ≡ changed change (get (some q) t))
  unfolding each get
  each-changed change t valid total =
      let all_rows : (i : ℕ) → All (λ e. (w : V) × (change e.1 ≡ some w)) (get_or t.buckets i []) =
        λ i.
          found-All (λ v. (w : V) × (change v ≡ some w)) (get_or t.buckets i [])
            (λ q. (valid.placed q i).0) (λ q v at. total q v (get-row t i q v valid at)) in
      let (cs, run, r) = each_row-SameRow change t.buckets all_rows in
      (
        record t { buckets = cs },
        rw (each, run) refl,
        record {
          roomy = omega (arith, r.width, valid.roomy);
          placed = λ q i.
              subst
                (λ n.
                  (count q (get_or cs i []) ≤ 1) × (home q n ≢ i → count q (get_or cs i []) ≡ 0))
                (sym r.width)
                (subst (λ n. (n ≤ 1) × (home q (length t.buckets) ≢ i → n ≡ 0))
                  (sym ((r.rows i).counts q)) (valid.placed q i));
          counted = valid.counted ∙ sym r.sizes;
        },
        refl,
        λ q.
            ap (λ n. find q (get_or cs (home q n) [])) r.width
            ∙ (r.rows (home q (length t.buckets))).finds q,
      )

module _ {ℓ} {V : Type ℓ} where
  each_bucket-some : (b : Bucket V) → each_bucket (λ v. some v) b ≡ some b
  unfolding each_bucket
  each_bucket-some [] = refl
  each_bucket-some (e ∷ b) = rw (each_bucket, each_bucket-some b) refl

  each_row-some : (bs : List (Bucket V)) → each_row (λ v. some v) bs ≡ some bs
  unfolding each_row
  each_row-some [] = refl
  each_row-some (b ∷ bs) = rw (each_row, each_bucket-some b, each_row-some bs) refl

  -- A loop that changes nothing.
  pub each-some : (t : Table V) → each (λ v. some v) t ≡ some t
  unfolding each
  each-some t = rw (each, each_row-some t.buckets) refl
