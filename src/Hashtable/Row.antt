-- ===== src/Hashtable/Row.antt =====
-- The row of all entries of a CHashtable, in the order in which Rehash adds them anew.
use mathlib.Core.List.{flatten}
use shroudbnc.Base.{
  ℕ, zero, suc, ◌*◌, ◌≤◌, ◌<◌, ◌≡◌, ◌≢◌, refl, sym, ap, List, [], ◌∷◌, none, some, length,
  length-replicate, get_or, replicate, arith,
}
use shroudbnc.Hashtable.Key.{KeyRule, Text}
use shroudbnc.Hashtable.Entries.{Bucket, find, count, find-eq-none, count-append, find-append}
use shroudbnc.Hashtable.{Table, new, clear, home, get, doubled}
use shroudbnc.Hashtable.View.{IsValid, get_or-replicate}

module _ {ℓ} ⦃rule : KeyRule⦄ {V : Type ℓ} where
  flatten-empty : (n : ℕ) → flatten {A = Text × V} (replicate n []) ≡ []
  unfolding flatten
  flatten-empty zero = refl
  flatten-empty (suc n) = flatten-empty n

  pub doubled-IsValid :
      (t : Table V)
      → 0 < length t.buckets
      → IsValid (doubled t)
        × ((q : Text) → get (some q) (doubled t) ≡ none)
        × (length (doubled t).buckets ≡ 2 * length t.buckets)
  unfolding doubled get find count
  doubled-IsValid t h = (
    record {
      roomy = rw (length-replicate {A = Bucket V} (2 * length t.buckets) []) (omega arith);
      placed =
          λ q i. rw (get_or-replicate {A = Bucket V} (2 * length t.buckets) i []) (omega arith);
      counted = sym (ap length (flatten-empty (2 * length t.buckets)));
    },
    λ q. rw (get_or-replicate {A = Bucket V}),
    length-replicate (2 * length t.buckets) [],
  )

  pub new-IsValid : IsValid {V = V} new
  unfolding new find count flatten
  new-IsValid = record {
    roomy = omega arith;
    placed = λ q i. rw (get_or-replicate {A = Bucket V} 32 i []) (omega arith);
    counted = refl;
  }

  -- Clear leaves a valid table with as many buckets and no entry.
  pub cleared-IsValid :
      (t : Table V)
      → 0 < length t.buckets
      → IsValid (clear t)
        × ((q : Text) → get (some q) (clear t) ≡ none)
        × (length (clear t).buckets ≡ length t.buckets)
  unfolding clear get find count
  cleared-IsValid t h = (
    record {
      roomy = rw (length-replicate {A = Bucket V} (length t.buckets) []) (omega arith);
      placed = λ q i. rw (get_or-replicate {A = Bucket V} (length t.buckets) i []) (omega arith);
      counted = sym (ap length (flatten-empty (length t.buckets)));
    },
    λ q. rw (get_or-replicate {A = Bucket V}),
    length-replicate (length t.buckets) [],
  )

  -- A key that stands in at most one of the buckets is found in the row of all entries.
  flatten-only :
      (q : Text) (bs : List (Bucket V)) (j : ℕ)
      → ((i : ℕ) → j ≢ i → count q (get_or bs i []) ≡ 0)
      → (count q (flatten bs) ≡ count q (get_or bs j []))
        × (find q (flatten bs) ≡ find q (get_or bs j []))
  unfolding flatten find count
  flatten-only q [] j h = (refl, refl)
  flatten-only q (b ∷ bs) zero h =
      let none_later : count q (flatten bs) ≡ 0 =
        flatten-nowhere bs (λ i. h (suc i) (omega arith)) in
      (
        omega (arith, count-append q b (flatten bs), none_later),
        ground (arith, find-append q b (flatten bs), find-eq-none q (flatten bs) none_later),
      )
    where
      flatten-nowhere :
          (cs : List (Bucket V))
          → ((i : ℕ) → count q (get_or cs i []) ≡ 0)
          → count q (flatten cs) ≡ 0
      flatten-nowhere [] g = refl
      flatten-nowhere (c ∷ cs) g =
          omega (arith, count-append q c (flatten cs), g 0, flatten-nowhere cs (λ i. g (suc i)))
  flatten-only q (b ∷ bs) (suc j) h =
      let (counts, finds) = flatten-only q bs j (λ i n. h (suc i) (omega arith)) in
      let here : count q b ≡ 0 = h 0 (omega arith) in
      (
        omega (arith, count-append q b (flatten bs), here, counts),
        ground (arith, find-append q b (flatten bs), find-eq-none q b here, finds),
      )

  pub flatten-get :
      (t : Table V) (q : Text)
      → IsValid t
      → (count q (flatten t.buckets) ≤ 1) × (find q (flatten t.buckets) ≡ get (some q) t)
  unfolding get
  flatten-get t q v =
      let n = length t.buckets in
      let (counts, finds) = flatten-only q t.buckets (home q n) (λ i ne. (v.placed q i).1 ne) in
      (omega (arith, counts, (v.placed q (home q n)).0), finds)
