-- ===== src/Hashtable/Iteration.antt =====
-- Iterate of CHashtable (src/Hashtable.h). Its static variables, which all tables of a type share,
-- are a record that is passed on; a table's address is a number.
use mathlib.Core.List.{flatten}
use shroudbnc.Base.{
  ℕ, zero, suc, ◌+◌, ◌-◌, ◌≤◌, ◌≡◌, refl, sym, ap, subst, ◌∙◌, List, [], ◌∷◌, ◌++◌, Option, none,
  some, Bool, true, false, ◌==◌, ◌&&◌, if◌then◌else◌, length, get_elem?, drop, drop-drop, arith,
  Bool-cases, inl, inr, ◌⊎◌,
}

-- `owner` is thisPointer, `none` for a null pointer.
pub record Cursor : Type 0 where
  pub owner : Option ℕ
  pub index : ℕ
  pub bucket : ℕ
  pub slot : ℕ

abbrev pub owned : Cursor → ℕ → Bool
owned c self = elim c.owner [ none ↦ false | some address ↦ address == self ]

-- Where the loops start: Skip, the bucket and the slot.
unfoldable pub start : ℕ → ℕ → Cursor → ℕ × ℕ × ℕ
start self index c =
    if owned c self && (suc c.index == index) then (c.index, c.bucket, c.slot) else (0, 0, 0)

-- An entry of a bucket is of any type here.
module _ {ℓ} {E : Type ℓ} where
  -- The inner loop from the slot on: Skip, and the slot and the entry that it stops at.
  unfoldable pub scan_bucket : ℕ → ℕ → ℕ → List E → ℕ × Option (ℕ × E)
  scan_bucket index skip slot [] = (skip, none)
  scan_bucket index skip slot (e ∷ es) =
      if skip == index then (skip, some (slot, e)) else scan_bucket index (suc skip) (suc slot) es

  -- The outer loop over the buckets from `i` on, the first of them from the slot on.
  unfoldable pub scan : ℕ → ℕ → ℕ → ℕ → List (List E) → Option (ℕ × ℕ × E)
  scan index skip i slot [] = none
  scan index skip i slot (b ∷ bs) =
      let (next, hit) = scan_bucket index skip slot (drop slot b) in
      elim hit [ some (a, e) ↦ some (i, a, e) | none ↦ scan index next (suc i) 0 bs ]

  -- What Iterate keeps and returns.
  unfoldable pub stop : ℕ → ℕ → Cursor → Option (ℕ × ℕ × E) → Cursor × Option E
  stop self index c none = (c, none)
  stop self index c (some (i, a, e)) =
      (record { owner = some self; index = index; bucket = i; slot = a }, some e)

  -- The entries from a slot of the first bucket on.
  abbrev pub row : ℕ → List (List E) → List E
  row slot [] = []
  row slot (b ∷ bs) = drop slot b ++ flatten bs

  get_elem?-drop : (n k : ℕ) (es : List E) → get_elem? (drop n es) k ≡ get_elem? es (n + k)
  get_elem?-drop zero k es = ap (get_elem? es) (omega arith)
  get_elem?-drop (suc n) k [] = refl
  get_elem?-drop (suc n) k (e ∷ es) = get_elem?-drop n k es ∙ ap (get_elem? (e ∷ es)) (suc_add n k)
    where
      suc_add : (a b : ℕ) → suc (a + b) ≡ suc a + b
      suc_add a b = omega arith

  -- What the inner loop does on a bucket `b` from the slot on, before the entries `later`.
  unfoldable Stops : ℕ → ℕ → ℕ → List E → List E → Type ℓ
  Stops index skip slot es later =
      ((a : ℕ) × (e : E) × (scan_bucket index skip slot es ≡ (index, some (a, e)))
        × (slot ≤ a)
        × (get_elem? (es ++ later) (index - skip) ≡ some e)
        × (drop (index - skip) (es ++ later) ≡ drop (a - slot) es ++ later))
      ⊎ ((scan_bucket index skip slot es ≡ (skip + length es, none))
          × (skip + length es ≤ index)
          × (drop (index - skip) (es ++ later) ≡ drop (index - (skip + length es)) later)
          × (get_elem? (es ++ later) (index - skip) ≡ get_elem? later (index - (skip + length es))))

  scan_bucket-Stops :
      (index skip slot : ℕ) (es later : List E) → skip ≤ index → Stops index skip slot es later
  unfolding scan_bucket Stops
  scan_bucket-Stops index skip slot [] later h = inr (
    ap (λ n. (n, none)) (omega arith),
    omega arith,
    ap (λ n. drop n later) (omega arith),
    ap (get_elem? later) (omega arith),
  )
  scan_bucket-Stops index skip slot (x ∷ es) later h = elim (Bool-cases (skip == index)) [
    | inl here ↦
        let now : skip ≡ index = ground (arith, here) in
        let zero_left : 0 ≡ index - skip = omega arith in
        let no_step : 0 ≡ slot - slot = omega arith in
        inl (
          slot,
          x,
          rw (scan_bucket, here) (ap (λ n. (n, some (slot, x))) now),
          omega arith,
          subst (λ n. get_elem? (x ∷ es ++ later) n ≡ some x) zero_left refl,
          subst (λ n. drop n (x ∷ es ++ later) ≡ drop (slot - slot) (x ∷ es) ++ later) zero_left
              (subst (λ n. x ∷ es ++ later ≡ drop n (x ∷ es) ++ later) no_step refl),
        )
    | inr further ↦
        let less : suc skip ≤ index = ground (arith, further, h) in
        let step : suc (index - suc skip) ≡ index - skip = omega arith in
        elim (scan_bucket-Stops index (suc skip) (suc slot) es later less) [
          | inl (a, e, run, le, at_e, rest) ↦
              let back : suc (a - suc slot) ≡ a - slot = omega arith in
              inl (
                a,
                e,
                rw (scan_bucket, further) run,
                omega arith,
                subst (λ n. get_elem? (x ∷ es ++ later) n ≡ some e) step at_e,
                subst (λ n. drop n (x ∷ es ++ later) ≡ drop (a - slot) (x ∷ es) ++ later) step
                    (subst (λ n. drop (index - suc skip) (es ++ later) ≡ drop n (x ∷ es) ++ later)
                      back rest),
              )
          | inr (run, le, rest, at_e) ↦
              let total : suc skip + length es ≡ skip + suc (length es) = omega arith in
              inr (
                rw (scan_bucket, further) (run ∙ ap (λ n. (n, none)) total),
                omega arith,
                subst
                    (λ n. drop n (x ∷ es ++ later) ≡ drop (index - (skip + suc (length es))) later)
                    step
                    (subst (λ n. drop (index - suc skip) (es ++ later) ≡ drop (index - n) later)
                      total rest),
                subst
                    (λ n.
                      get_elem? (x ∷ es ++ later) n
                      ≡ get_elem? later (index - (skip + suc (length es))))
                    step
                    (subst
                      (λ n.
                        get_elem? (es ++ later) (index - suc skip) ≡ get_elem? later (index - n))
                      total at_e),
              )
        ]
  ]

  row_all : (cs : List (List E)) → row 0 cs ≡ flatten cs
  unfolding flatten
  row_all [] = refl
  row_all (c ∷ cs) = refl

  -- What both loops find, from a slot of the first of the buckets `bs` on, where the first of them is
  -- the one with the number `i`.
  unfoldable Finds : ℕ → ℕ → ℕ → ℕ → List (List E) → Type ℓ
  Finds index skip i slot bs =
      ((k a : ℕ) × (e : E) × (scan index skip i slot bs ≡ some (i + k, a, e))
        × (get_elem? (row slot bs) (index - skip) ≡ some e)
        × (drop (index - skip) (row slot bs) ≡ row a (drop k bs)))
      ⊎ ((scan index skip i slot bs ≡ none) × (get_elem? (row slot bs) (index - skip) ≡ none))

  scan-Finds :
      (index skip i slot : ℕ) (bs : List (List E)) → skip ≤ index → Finds index skip i slot bs
  unfolding scan Finds Stops
  scan-Finds index skip i slot [] h = inr (refl, refl)
  scan-Finds index skip i slot (b ∷ bs) h =
      elim (scan_bucket-Stops index skip slot (drop slot b) (flatten bs) h) [
        | inl (a, e, run, le, at_e, rest) ↦ inl (
          0,
          a,
          e,
          rw (scan, run) (ap (λ n. some (n, a, e)) (omega arith)),
          at_e,
          rest
              ∙ ap (λ z. z ++ flatten bs)
                  (drop-drop slot (a - slot) b ∙ ap (λ n. drop n b) (omega arith)),
        )
        | inr (run, le, rest, at_e) ↦
            let next = skip + length (drop slot b) in
            elim (scan-Finds index next (suc i) 0 bs le) [
              | inl (k, a, e, later, at_later, rest_later) ↦ inl (
                suc k,
                a,
                e,
                rw (scan, run, run) (later ∙ ap (λ n. some (n, a, e)) (omega arith)),
                at_e ∙ ap (λ z. get_elem? z (index - next)) (sym (row_all bs)) ∙ at_later,
                rest ∙ ap (drop (index - next)) (sym (row_all bs)) ∙ rest_later,
              )
              | inr (later, at_later) ↦ inr (
                rw (scan, run, run) later,
                at_e ∙ ap (λ z. get_elem? z (index - next)) (sym (row_all bs)) ∙ at_later,
              )
            ]
      ]

  -- The static variables point at the entry with the index, if they are the table's.
  abbrev pub Points : ℕ → List (List E) → Cursor → Type ℓ
  Points self bs c = owned c self ≡ true → drop c.index (flatten bs) ≡ row c.slot (drop c.bucket bs)

  -- Iterate on the buckets of the table at the address `self`.
  unfoldable pub iterate : ℕ → ℕ → List (List E) → Cursor → Cursor × Option E
  iterate self index bs c =
      let (skip, i, slot) = start self index c in
      stop self index c (scan index skip i slot (drop i bs))

  settles :
      (self index skip i slot : ℕ) (bs : List (List E)) (c : Cursor)
      → Points self bs c
      → skip ≤ index
      → drop skip (flatten bs) ≡ row slot (drop i bs)
      → let r = stop self index c (scan index skip i slot (drop i bs)) in
        (r.1 ≡ get_elem? (flatten bs) index) × Points self bs r.0
  unfolding stop Finds
  settles self index skip i slot bs c p le at_start =
      let whole : get_elem? (row slot (drop i bs)) (index - skip) ≡ get_elem? (flatten bs) index =
        ap (λ z. get_elem? z (index - skip)) (sym at_start)
        ∙ get_elem?-drop skip (index - skip) (flatten bs)
        ∙ ap (get_elem? (flatten bs)) (omega arith) in
      elim (scan-Finds index skip i slot (drop i bs) le) [
        | inr (run, gone) ↦ rw (stop, run) (sym gone ∙ whole, p)
        | inl (k, a, e, run, found, rest) ↦
            rw (stop, run)
              (
                sym found ∙ whole,
                λ own.
                    ap (λ n. drop n (flatten bs)) (omega arith)
                    ∙ sym (drop-drop skip (index - skip) (flatten bs))
                    ∙ ap (drop (index - skip)) at_start
                    ∙ rest
                    ∙ ap (row a) (drop-drop i k bs),
              )
      ]

  -- Iterate from static variables that point at their entry, or are of another table, or are unset:
  -- it returns the entry at the index in the row of all the entries, bucket by bucket, and a null
  -- pointer past the end, and the static variables point at their entry again.
  pub iterate-Points :
      (self index : ℕ) (bs : List (List E)) (c : Cursor)
      → Points self bs c
      → ((iterate self index bs c).1 ≡ get_elem? (flatten bs) index)
        × Points self bs (iterate self index bs c).0
  unfolding iterate start
  iterate-Points self index bs c p = elim (Bool-cases (owned c self && (suc c.index == index))) [
    | inl resumes ↦
        rw (iterate, start, resumes)
          (settles self index c.index c.bucket c.slot bs c p (ground (arith, resumes))
            (p (ground (arith, resumes))))
    | inr anew ↦
        rw (iterate, start, anew) (settles self index 0 0 0 bs c p (omega arith) (sym (row_all bs)))
  ]
