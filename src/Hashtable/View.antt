-- ===== src/Hashtable/View.antt =====
-- A CHashtable as a map: where its entries stand, and what replacing one bucket does.
use mathlib.Core.List.{flatten}
use shroudbnc.Base.{
  ℕ, zero, suc, ◌+◌, ◌%◌, ◌≤◌, ◌<◌, ◌≡◌, refl, ap, ◌≢◌, List, [], ◌∷◌, Option, none, some, Bool,
  true, false, length, length-append, length-set, get_or, set, replicate, if◌then◌else◌, arith,
  ◌==◌,
}
use shroudbnc.Hashtable.Key.{KeyRule, Text, hash-same, same}
use shroudbnc.Hashtable.Entries.{Bucket, find, count}
use shroudbnc.Hashtable.{Table, home, bucket_of}

module _ {ℓ} {A : Type ℓ} where
  pub get_or-set :
      (xs : List A) (i j : ℕ) (v d : A)
      → i < length xs
      → get_or (set xs i v) j d ≡ (if i == j then v else get_or xs j d)
  get_or-set [] i j v d h = absurd (omega arith)
  get_or-set (x ∷ xs) zero zero v d h = refl
  get_or-set (x ∷ xs) zero (suc j) v d h = ground arith
  get_or-set (x ∷ xs) (suc i) zero v d h = ground arith
  get_or-set (x ∷ xs) (suc i) (suc j) v d h = ground (arith, get_or-set xs i j v d)

  pub get_or-replicate : (n j : ℕ) (d : A) → get_or (replicate n d) j d ≡ d
  get_or-replicate zero j d = refl
  get_or-replicate (suc n) zero d = refl
  get_or-replicate (suc n) (suc j) d = get_or-replicate n j d

  -- How the number of entries changes when the row at `at` is replaced.
  pub length-flatten_replace :
      (rows : List (List A)) (at : ℕ) (row : List A)
      → at < length rows
      → length (flatten rows) + length row
        ≡ length (get_or rows at []) + length (flatten (set rows at row))
  unfolding flatten
  length-flatten_replace [] at row inside = absurd (omega arith)
  length-flatten_replace (old ∷ rows) zero row inside =
      omega (arith, length-append old (flatten rows), length-append row (flatten rows))
  length-flatten_replace (old ∷ rows) (suc at) row inside =
      let later = length-flatten_replace rows at row (omega arith) in
      omega (
        arith,
        later,
        length-append old (flatten rows),
        length-append old (flatten (set rows at row)),
      )

module _ ⦃rule : KeyRule⦄ where
  pub home-lt : (k : Text) (n : ℕ) → 0 < n → home k n < n
  unfolding home
  home-lt k n h = omega arith

  pub home-same : (a b : Text) (n : ℕ) → same a b ≡ true → home a n ≡ home b n
  unfolding home
  home-same a b n e = ap (λ h. h % n) (hash-same a b e)

module _ {ℓ} ⦃rule : KeyRule⦄ {V : Type ℓ} where
  -- A key stands at most once, and only in the bucket that its hash selects.
  abbrev pub IsPlaced : List (Bucket V) → Type 0
  IsPlaced buckets =
      (key : Text) (at : ℕ)
      → let here = count key (get_or buckets at []) in
        (here ≤ 1) × (home key (length buckets) ≢ at → here ≡ 0)

  -- A bucket may be replaced by one with no key twice and with keys of that bucket alone.
  pub set-IsPlaced :
      (bs : List (Bucket V)) (i : ℕ) (c : Bucket V)
      → i < length bs
      → IsPlaced bs
      → ((q : Text) → (count q c ≤ 1) × (home q (length bs) ≢ i → count q c ≡ 0))
      → IsPlaced (set bs i c)
  set-IsPlaced bs i c h placed fits q j =
      rw (length-set bs i c, get_or-set bs i j c [] h) (ground (arith, placed q j, fits q))

  pub find-set_bucket :
      (bs : List (Bucket V)) (i : ℕ) (c : Bucket V) (q : Text)
      → i < length bs
      → find q (bucket_of (set bs i c) q)
        ≡ (if i == home q (length bs) then find q c else find q (bucket_of bs q))
  find-set_bucket bs i c q h =
      rw (length-set bs i c, get_or-set bs i (home q (length bs)) c [] h)
        (by_flag (i == home q (length bs)))
    where
      by_flag :
          (b : Bool)
          → find q (if b then c else bucket_of bs q)
            ≡ (if b then find q c else find q (bucket_of bs q))
      by_flag true = refl
      by_flag false = refl

  -- A table with buckets whose entries are in place and are counted by m_LengthCache.
  pub record IsValid (t : Table V) : Type ℓ where
    pub roomy : 0 < length t.buckets
    pub placed : IsPlaced t.buckets
    pub counted : t.length_cache ≡ length (flatten t.buckets)

  abbrev pub found : Option V → ℕ
  found none = 0
  found (some v) = 1
