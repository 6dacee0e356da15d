-- ===== src/Hashtable/Adding.antt =====
-- Add and Rehash of CHashtable. The two call one another: a bucket of more than three entries
-- doubles the number of buckets, and the entries are added anew, which may double them again.
use mathlib.Core.List.{flatten}
use native.Mathlib.Nat.{pow-suc, mul-le-mul_right}
use shroudbnc.Base.{
  Option-cases, length-set, ℕ, zero, suc, ◌+◌, ◌*◌, ◌^◌, ◌≤◌, ◌<◌, ◌≡◌, refl, ap, ◌∙◌, [], ◌∷◌,
  Option, none, some, Bool, true, false, length, ltb, leb, ◌&&◌, arith, Bool-cases, inl, inr,
}
use shroudbnc.Hashtable.Key.{KeyRule, Text, same_refl}
use shroudbnc.Hashtable.Entries.{Bucket, bucket_remove, find, count, find-eq-none}
use shroudbnc.Hashtable.{Table, home, bucket_of, get, remove_key, place, add_all, add_key, doubled}
use shroudbnc.Hashtable.View.{IsValid, found}
use shroudbnc.Hashtable.Writes.{Writes, remove_key-Writes, place-Writes}
use shroudbnc.Hashtable.Row.{doubled-IsValid, flatten-get}

pub enough-doubled : (limit n m f : ℕ) → limit < n * 2 ^ suc f → 2 * n ≤ m → limit < m * 2 ^ f
enough-doubled limit n m f h le =
    omega (arith, ap (λ (t : ℕ). n * t) (pow-suc 2 f), mul-le-mul_right (2 ^ f) le)

module _ {ℓ} ⦃rule : KeyRule⦄ {V : Type ℓ} where
  -- What an Add that is good for tables of `m` buckets or more does.
  abbrev pub Adds : ℕ → (Text → V → Table V → Option (Table V)) → Type ℓ
  Adds m add_one =
      (k : Text) (x : V) (t : Table V)
      → IsValid t
      → m ≤ length t.buckets
      → (u : Table V) × (add_one k x t ≡ some u)
        × Writes t k (some x) u
        × (length t.buckets ≤ length u.buckets)

  -- What adding the entries `es` to the table `t` leaves.
  pub record Stores (t : Table V) (es : Bucket V) (u : Table V) : Type ℓ where
    pub valid : IsValid u
    pub wider : length t.buckets ≤ length u.buckets
    pub reads :
        (q : Text) → get (some q) u ≡ elim (find q es) [ none ↦ get (some q) t | some v ↦ some v ]
    pub counts : u.length_cache ≡ t.length_cache + length es

  pub add_all-Stores :
      (m : ℕ) (add_one : Text → V → Table V → Option (Table V))
      → Adds m add_one
      → (es : Bucket V) (t : Table V) → IsValid t
      → m ≤ length t.buckets
      → ((q : Text) → count q es ≤ 1)
      → ((q : Text) → 0 < count q es → get (some q) t ≡ none)
      → (u : Table V) × (add_all add_one es t ≡ some u) × Stores t es u
  unfolding add_all find count
  add_all-Stores m add_one adds [] t v h once apart =
      (t, refl, record { valid = v; wider = omega arith; reads = λ q. refl; counts = omega arith })
  add_all-Stores m add_one adds (e ∷ es) t v h once apart =
      let (u, run, w, wide) = adds e.0 e.1 t v h in
      let fresh : get (some e.0) t ≡ none = apart e.0 (ground (arith, same_refl e.0)) in
      let (r, rest, s) =
        add_all-Stores m add_one adds es u w.valid (omega arith) (λ q. omega (arith, once q))
          (λ q c. ground (arith, w.reads q, once q, apart q)) in
      (
        r,
        rw (add_all, run) rest,
        record {
          valid = s.valid;
          wider = omega (arith, s.wider);
          reads = λ q. s.reads q ∙ ground (arith, w.reads q, once q, find-eq-none q es);
          counts = omega (arith, s.counts, w.length, ap found fresh);
        },
      )

  pub length-remove_key :
      (keep : Bool) (k : Text) (t : Table V)
      → length (remove_key keep k t).buckets ≡ length t.buckets
  unfolding remove_key
  length-remove_key keep k t = elim (Option-cases (bucket_remove k (bucket_of t.buckets k))) [
    | inl e ↦ rw (remove_key, e)
    | inr ((x, rest), e) ↦
        rw (remove_key, e) (length-set t.buckets (home k (length t.buckets)) rest)
  ]

  pub length-place :
      (k : Text) (x : V) (t : Table V) → length (place k x t).buckets ≡ length t.buckets
  unfolding place
  length-place k x t = length-set t.buckets (home k (length t.buckets)) _

  abbrev pub stored : Text → V → Table V → Table V
  stored k x t = place k x (remove_key false k t)

  pub length-stored :
      (k : Text) (x : V) (t : Table V) → length (stored k x t).buckets ≡ length t.buckets
  length-stored k x t = length-place k x (remove_key false k t) ∙ length-remove_key false k t

  stored-Writes : (k : Text) (x : V) (t : Table V) → IsValid t → Writes t k (some x) (stored k x t)
  stored-Writes k x t v =
      let r = remove_key-Writes false k t v in
      let gone : get (some k) (remove_key false k t) ≡ none =
        ground (arith, r.reads k, same_refl k) in
      let w = place-Writes k x (remove_key false k t) r.valid gone in
      record {
        valid = w.valid;
        reads = λ q. ground (arith, w.reads q, r.reads q);
        length = omega (arith, w.length, r.length, ap found gone);
      }

  -- All the entries of a table, added to one with twice as many buckets.
  rehash-Writes :
      (m : ℕ) (add_one : Text → V → Table V → Option (Table V)) (k : Text) (x : V) (t u : Table V)
      → Adds m add_one
      → m ≤ 2 * length u.buckets
      → Writes t k (some x) u
      → (r : Table V) × (add_all add_one (flatten u.buckets) (doubled u) ≡ some r)
        × Writes t k (some x) r
        × (2 * length u.buckets ≤ length r.buckets)
  rehash-Writes m add_one k x t u adds h w =
      let (dv, empty, size) = doubled-IsValid u w.valid.roomy in
      let (r, run, s) =
        add_all-Stores m add_one adds (flatten u.buckets) (doubled u) dv (omega arith)
          (λ q. (flatten-get u q w.valid).0) (λ q c. empty q) in
      (
        r,
        run,
        record {
          valid = s.valid;
          reads = λ q. s.reads q ∙ ground (arith, (flatten-get u q w.valid).1, empty q) ∙ w.reads q;
          length = omega (arith, w.length, s.counts, w.valid.counted, doubled_cache u);
        },
        omega (arith, s.wider),
      )
    where
      doubled_cache : (t : Table V) → (doubled t).length_cache ≡ 0
      doubled_cache t = unfold doubled in refl

  abbrev pub must_grow : ℕ → Text → Table V → Bool
  must_grow limit k u = ltb 3 (length (bucket_of u.buckets k)) && leb (2 * length u.buckets) limit

  pub add_key-small :
      (limit fuel : ℕ) (k : Text) (x : V) (t : Table V)
      → must_grow limit k (stored k x t) ≡ false
      → add_key limit (suc fuel) k x t ≡ some (stored k x t)
  unfolding add_key
  add_key-small limit fuel k x t e = rw (add_key, e)

  pub add_key-full :
      (limit fuel : ℕ) (k : Text) (x : V) (t : Table V)
      → must_grow limit k (stored k x t) ≡ true
      → add_key limit (suc fuel) k x t
        ≡ add_all (add_key limit fuel) (flatten (stored k x t).buckets) (doubled (stored k x t))
  unfolding add_key
  add_key-full limit fuel k x t e = rw (add_key, e)

  -- Add to a valid table, where memory for its entry is there, returns with enough fuel: each
  -- Rehash doubles the number of buckets and malloc refuses to pass `limit`. The key then reads
  -- the value, every other key reads as before, and the table is valid, m_LengthCache included.
  pub add_key-Writes :
      (limit fuel : ℕ) (k : Text) (x : V) (t : Table V)
      → IsValid t
      → limit < length t.buckets * 2 ^ fuel
      → (u : Table V) × (add_key limit (suc fuel) k x t ≡ some u)
        × Writes t k (some x) u
        × (length t.buckets ≤ length u.buckets)
  add_key-Writes limit zero k x t v h = elim (Bool-cases (must_grow limit k (stored k x t))) [
    | inr small ↦ (
      stored k x t,
      add_key-small limit 0 k x t small,
      stored-Writes k x t v,
      omega (arith, length-stored k x t),
    )
    | inl full ↦ absurd (ground (arith, length-stored k x t, h))
  ]
  add_key-Writes limit (suc fuel) k x t v h = elim (Bool-cases (must_grow limit k (stored k x t))) [
    | inr small ↦ (
      stored k x t,
      add_key-small limit (suc fuel) k x t small,
      stored-Writes k x t v,
      omega (arith, length-stored k x t),
    )
    | inl full ↦
        let size = length-stored k x t in
        let (r, run, w, wide) =
          rehash-Writes (2 * length t.buckets) (add_key limit (suc fuel)) k x t (stored k x t)
            (λ j y s valid wider.
              add_key-Writes limit fuel j y s valid
                (enough-doubled limit (length t.buckets) (length s.buckets) fuel h wider))
            (omega (arith, size)) (stored-Writes k x t v) in
        (r, add_key-full limit (suc fuel) k x t full ∙ run, w, omega (arith, wide, size))
  ]

  -- The same, as what an Add does that is good for tables of some size.
  pub add_key-Adds : (limit fuel m : ℕ) → limit < m * 2 ^ fuel → Adds m (add_key limit (suc fuel))
  add_key-Adds limit fuel m h k x t v wide =
      add_key-Writes limit fuel k x t v (omega (arith, h, mul-le-mul_right (2 ^ fuel) wide))
