-- ===== src/FloodControl/Selection.antt =====
-- The choice of the queue that DequeueItem of CFloodControl takes its line from.
use native.Mathlib.Nat.{zero-add}
use shroudbnc.Base.{
  ℕ, suc, ◌+◌, ◌<◌, ◌≡◌, refl, sym, subst, ap, ◌∙◌, List, [], ◌∷◌, Option, none, some, length,
  get_elem?, All, ltb, arith, ℤ, pos, ◌<ℤ◌, ◌≤ℤ◌, ltbℤ, inl, inr, ◌⊎◌, Bool-cases, ◌&&◌,
}
use shroudbnc.Queue
use shroudbnc.Queue.{Queue}
use shroudbnc.FloodControl.{IrcQueue, select_loop}

abbrev pub waiting : IrcQueue → ℕ
waiting x = length x.queue.items.items

-- No queue with lines has a priority below the given one.
abbrev pub Bound : ℤ → List IrcQueue → Type 0
Bound p = All (λ y. 0 < waiting y → p ≤ℤ y.priority)

-- The choice among `xs`, which begin at the index `i`, improves on the priority `lowest`.
abbrev Picks : List IrcQueue → ℕ → ℤ → ℤ → Option ℕ → Type 0
Picks xs i lowest p c =
    (k : ℕ) × (x : IrcQueue) × (c ≡ some (i + k))
    × (get_elem? xs k ≡ some x)
    × (x.priority ≡ p)
    × (0 < waiting x)
    × (p <ℤ lowest)

Picks-later :
    (y : IrcQueue) (xs : List IrcQueue) (i : ℕ) (lowest p : ℤ) (c : Option ℕ)
    → Picks xs (suc i) lowest p c
    → Picks (y ∷ xs) i lowest p c
Picks-later y xs i lowest p c (k, x, e, g, q, w, l) =
    let same : suc i + k ≡ i + suc k = omega arith in (suc k, x, rw (← same) e, g, q, w, l)

Picks-here :
    (y : IrcQueue) (xs : List IrcQueue) (i : ℕ) (lowest p : ℤ) (c : Option ℕ)
    → y.priority <ℤ lowest
    → 0 < waiting y
    → ((p ≡ y.priority) × (c ≡ some i)) ⊎ Picks xs (suc i) y.priority p c
    → Picks (y ∷ xs) i lowest p c
Picks-here y xs i lowest p c lower filled (inl (e, g)) =
    let here : i ≡ i + 0 = omega arith in (0, y, rw (← here) g, refl, sym e, filled, rw e lower)
Picks-here y xs i lowest p c lower filled (inr (k, x, e, g, q, w, l)) =
    Picks-later y xs i lowest p c (k, x, e, g, q, w, omega (arith, l))

Picks-skip :
    (y : IrcQueue) (xs : List IrcQueue) (i : ℕ) (lowest p : ℤ) (c chosen : Option ℕ)
    → ((p ≡ lowest) × (c ≡ chosen)) ⊎ Picks xs (suc i) lowest p c
    → ((p ≡ lowest) × (c ≡ chosen)) ⊎ Picks (y ∷ xs) i lowest p c
Picks-skip y xs i lowest p c chosen (inl same) = inl same
Picks-skip y xs i lowest p c chosen (inr pick) = inr (Picks-later y xs i lowest p c pick)

select_loop-Picks :
    (xs : List IrcQueue) (i : ℕ) (lowest : ℤ) (chosen : Option ℕ)
    → (p : ℤ) × (c : Option ℕ) × (select_loop xs i (lowest, chosen) ≡ (p, c))
      × (p ≤ℤ lowest)
      × Bound p xs
      × (((p ≡ lowest) × (c ≡ chosen)) ⊎ Picks xs i lowest p c)
unfolding select_loop Queue.get_length
select_loop-Picks [] i lowest chosen = (lowest, chosen, refl, omega arith, tt, inl (refl, refl))
select_loop-Picks (x ∷ xs) i lowest chosen =
    elim (Bool-cases (ltbℤ x.priority lowest && ltb 0 (waiting x))) [
      | inl take ↦
          let (p, c, run, le, bound, pick) = select_loop-Picks xs (suc i) x.priority (some i) in
          let lower : x.priority <ℤ lowest = ground arith in
          let filled : 0 < waiting x = ground arith in
          (
            p,
            c,
            rw (select_loop, take) run,
            omega arith,
            ((λ w. le), bound),
            inr (Picks-here x xs i lowest p c lower filled pick),
          )
      | inr skip ↦
          let (p, c, run, le, bound, pick) = select_loop-Picks xs (suc i) lowest chosen in
          (
            p,
            c,
            rw (select_loop, skip) run,
            le,
            (λ w. ground (arith, le), bound),
            Picks-skip x xs i lowest p c chosen pick,
          )
    ]

-- What the search in DequeueItem finds. Either it finds nothing and no queue with lines has a
-- priority below 100, or it is a queue with lines, of a priority below 100, and no other queue
-- with lines has a lower one.
pub select_loop-lowest :
    (xs : List IrcQueue)
    → (((select_loop xs 0 (pos 100, none)).1 ≡ none) × Bound (pos 100) xs)
      ⊎ ((i : ℕ) × (x : IrcQueue) × ((select_loop xs 0 (pos 100, none)).1 ≡ some i)
          × (get_elem? xs i ≡ some x)
          × (0 < waiting x)
          × (x.priority <ℤ pos 100)
          × Bound x.priority xs)
select_loop-lowest xs =
    let (p, c, run, le, bound, pick) = select_loop-Picks xs 0 (pos 100) none in
    settle p c run bound pick
  where
    settle :
        (p : ℤ) (c : Option ℕ)
        → select_loop xs 0 (pos 100, none) ≡ (p, c)
        → Bound p xs
        → ((p ≡ pos 100) × (c ≡ none)) ⊎ Picks xs 0 (pos 100) p c
        → (((select_loop xs 0 (pos 100, none)).1 ≡ none) × Bound (pos 100) xs)
          ⊎ ((i : ℕ) × (x : IrcQueue) × ((select_loop xs 0 (pos 100, none)).1 ≡ some i)
              × (get_elem? xs i ≡ some x)
              × (0 < waiting x)
              × (x.priority <ℤ pos 100)
              × Bound x.priority xs)
    settle p c run bound (inl (e, g)) = inl (rw run g, subst (λ z. Bound z xs) e bound)
    settle p c run bound (inr (k, x, e, g, q, w, l)) = inr (
      k,
      x,
      ap (λ r. r.1) run ∙ (rw zero-add at e),
      g,
      w,
      rw q l,
      subst (λ z. Bound z xs) (sym q) bound,
    )
