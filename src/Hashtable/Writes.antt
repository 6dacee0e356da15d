-- ===== src/Hashtable/Writes.antt =====
-- Remove and the store of Add of CHashtable, as writes to a map.
use mathlib.Core.List.{flatten}
use shroudbnc.Base.{
  ℕ, ◌+◌, ◌≤◌, ◌≡◌, sym, ap, ◌∙◌, List, [], ◌∷◌, ◌++◌, Option, none, some, Bool, true, length,
  length-append, length-set, get_or, set, if◌then◌else◌, arith, Bool-cases, inl, inr, Option-cases,
}
use shroudbnc.Hashtable.Key.{KeyRule, Text, same}
use shroudbnc.Hashtable.Entries.{
  Bucket, find, count, find-eq-none, count-eq-zero, count_congr, count-append, find-append,
  bucket_remove-Removed, bucket_remove-none,
}
use shroudbnc.Hashtable.{Table, home, bucket_of, get, remove_key, place}
use shroudbnc.Hashtable.View.{
  length-flatten_replace, home-lt, home-same, IsPlaced, set-IsPlaced, find-set_bucket, IsValid,
  found,
}

module _ {ℓ} ⦃rule : KeyRule⦄ {V : Type ℓ} where
  -- What is known of a table `u` that came out of `t` by making `v` the value of the key `k`.
  pub record Writes (t : Table V) (k : Text) (v : Option V) (u : Table V) : Type ℓ where
    pub valid : IsValid u
    pub reads : (q : Text) → get (some q) u ≡ (if same k q then v else get (some q) t)
    pub length : u.length_cache + found (get (some k) t) ≡ t.length_cache + found v

  -- The bucket `c` in the place of the bucket of `k`, where it differs from it only in `k`.
  module _ (t : Table V) (k : Text) (c : Bucket V) (v : IsValid t) where
    bucket-IsPlaced :
        ((q : Text) → count q c ≤ (if same k q then 1 else count q (bucket_of t.buckets k)))
        → IsPlaced (set t.buckets (home k (length t.buckets)) c)
    bucket-IsPlaced few =
        set-IsPlaced t.buckets (home k (length t.buckets)) c (home-lt k (length t.buckets) v.roomy)
          v.placed
          λ q. (
            ground (arith, few q, v.placed q (home k (length t.buckets))),
            ground (
              arith,
              few q,
              v.placed q (home k (length t.buckets)),
              home-same k q (length t.buckets),
            ),
          )

    pub bucket-Writes :
        (value : Option V) (cache : ℕ) (log : List V)
        → ((q : Text) → count q c ≤ (if same k q then 1 else count q (bucket_of t.buckets k)))
        → ((q : Text) → find q c ≡ (if same k q then value else find q (bucket_of t.buckets k)))
        → length c + found (get (some k) t) ≡ length (bucket_of t.buckets k) + found value
        → cache + found (get (some k) t) ≡ t.length_cache + found value
        → Writes t k value (record t {
          buckets = set t.buckets (home k (length t.buckets)) c;
          length_cache = cache;
          destroyed = log;
        })
    unfolding get
    bucket-Writes value cache log few finds size counted = record {
      valid = record {
        roomy = rw (length-set t.buckets (home k (length t.buckets)) c) v.roomy;
        placed = bucket-IsPlaced few;
        counted = omega (
          arith,
          v.counted,
          size,
          counted,
          length-flatten_replace t.buckets (home k (length t.buckets)) c
              (home-lt k (length t.buckets) v.roomy),
        );
      };
      reads = λ q.
          find-set_bucket t.buckets (home k (length t.buckets)) c q
            (home-lt k (length t.buckets) v.roomy)
          ∙ ground (arith, finds q, home-same k q (length t.buckets));
      length = counted;
    }

  once : (t : Table V) (k q : Text) → IsValid t → count q (bucket_of t.buckets k) ≤ 1
  once t k q v = (v.placed q (home k (length t.buckets))).0

  length-bucket-le :
      (t : Table V) (k : Text)
      → IsValid t
      → length (bucket_of t.buckets k) ≤ length (flatten t.buckets)
  length-bucket-le t k v = omega (
    arith,
    length-flatten_replace t.buckets (home k (length t.buckets)) []
        (home-lt k (length t.buckets) v.roomy),
  )

  -- A key that reads as absent reads so under every spelling.
  get_absent :
      (t : Table V) (k q : Text)
      → get (some k) t ≡ none
      → same k q ≡ true
      → (count q (bucket_of t.buckets k) ≡ 0) × (get (some q) t ≡ none)
  unfolding get
  get_absent t k q e s =
      let c = bucket_of t.buckets k in
      let zero_k : count k c ≡ 0 = count-eq-zero k c e in
      let zero_q : count q c ≡ 0 = sym (count_congr k q c s) ∙ zero_k in
      let there : c ≡ bucket_of t.buckets q =
        ap (λ i. get_or t.buckets i []) (home-same k q (length t.buckets) s) in
      (zero_q, ap (find q) (sym there) ∙ find-eq-none q c zero_q)

  absent-Writes : (k : Text) (t : Table V) → IsValid t → get (some k) t ≡ none → Writes t k none t
  absent-Writes k t v e = record {
    valid = v;
    reads = λ q. elim (Bool-cases (same k q)) [
      | inl s ↦ rw (s, (get_absent t k q e s).1)
      | inr s ↦ rw s
    ];
    length = ap (λ o. t.length_cache + found o) e;
  }

  -- Remove of a key from a valid table, with or without the destructor call, leaves a valid table:
  -- the key reads nothing then, every other key reads as before, and m_LengthCache goes down by
  -- one where the key was there and not otherwise.
  pub remove_key-Writes :
      (keep : Bool) (k : Text) (t : Table V) → IsValid t → Writes t k none (remove_key keep k t)
  unfolding remove_key
  remove_key-Writes keep k t v = elim (Option-cases (find k (bucket_of t.buckets k))) [
    | inl absent ↦
        rw (remove_key, bucket_remove-none k _ absent) (absent-Writes k t v (unfold get in absent))
    | inr (x, e) ↦
        let (rest, gone, r) =
          bucket_remove-Removed k (bucket_of t.buckets k) x (λ q. once t k q v) e in
        let there : found (get (some k) t) ≡ 1 = unfold get in ap found e in
        rw (remove_key, gone)
          (bucket-Writes t k rest v none _ _ (λ q. ground (arith, r.counts q, once t k q v)) r.finds
            (omega (arith, r.shorter, there))
            (omega (arith, r.shorter, there, v.counted, length-bucket-le t k v)))
  ]

  -- Storing a key that is not there makes it read the value.
  pub place-Writes :
      (k : Text) (x : V) (t : Table V)
      → IsValid t
      → get (some k) t ≡ none
      → Writes t k (some x) (place k x t)
  unfolding place count find
  place-Writes k x t v e =
      let old = bucket_of t.buckets k in
      let gone : found (get (some k) t) ≡ 0 = ap found e in
      bucket-Writes t k (old ++ (k, x) ∷ []) v (some x) _ _
        (λ q. ground (
          arith,
          count-append q old ((k, x) ∷ []),
          λ (s : same k q ≡ true). (get_absent t k q e s).0,
        ))
        (λ q. ground (
          arith,
          find-append q old ((k, x) ∷ []),
          λ (s : same k q ≡ true). find-eq-none q old (get_absent t k q e s).0,
        ))
        (omega (arith, gone, length-append old ((k, x) ∷ []))) (omega (arith, gone))
