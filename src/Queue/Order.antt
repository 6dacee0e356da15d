-- ===== src/Queue/Order.antt =====
-- The two searches of CQueue for the item of the lowest priority.
use native.Mathlib.Nat.{zero-add}
use shroudbnc.Base.{
  err, generic_unknown, ap, ◌∙◌, dec_lt, lt→ltb, ◌>>=◌, ok, tests, ℕ, suc, ◌+◌, ◌<◌, ◌≡◌, refl,
  List, [], ◌∷◌, none, some, length, get_elem?, All, pos, ◌<ℤ◌, ◌≤ℤ◌, ltbℤ, arith, Bool-cases, inl,
  inr, ◌⊎◌,
}
use shroudbnc.Vector.{swap_remove}
use shroudbnc.Vector.Removal.{remove_at-swap_remove, swap_remove-perm}
use shroudbnc.Queue.{QueueItem, Queue, peek_item, dequeue_item, dequeue_loop, peek_loop}

abbrev pub Lowest : QueueItem → List QueueItem → Type 0
Lowest x = All (λ y. x.priority ≤ℤ y.priority)

Lowest-mono :
    (x y : QueueItem) (xs : List QueueItem) → x.priority ≤ℤ y.priority → Lowest y xs → Lowest x xs
Lowest-mono x y [] h l = tt
Lowest-mono x y (z ∷ xs) h l = (omega (arith, l.0), Lowest-mono x y xs h l.1)

-- Where the item that the loop returns stands: in the list, which begins at the index `i`, or it is
-- the best one of before.
abbrev Place : List QueueItem → ℕ → ℕ → QueueItem → ℕ → QueueItem → Type 0
Place xs i index best r item =
    ((k : ℕ) × (r ≡ i + k) × (get_elem? xs k ≡ some item)) ⊎ ((r ≡ index) × (item ≡ best))

Place-take :
    (x : QueueItem) (xs : List QueueItem) (i index : ℕ) (best : QueueItem) (r : ℕ)
    (item : QueueItem)
    → Place xs (suc i) i x r item
    → Place (x ∷ xs) i index best r item
Place-take x xs i index best r item (inl (k, e, g)) = inl (suc k, omega arith, g)
Place-take x xs i index best r item (inr (e, g)) = inl (0, omega arith, rw g)

Place-skip :
    (x : QueueItem) (xs : List QueueItem) (i index : ℕ) (best : QueueItem) (r : ℕ)
    (item : QueueItem)
    → Place xs (suc i) index best r item
    → Place (x ∷ xs) i index best r item
Place-skip x xs i index best r item (inl (k, e, g)) = inl (suc k, omega arith, g)
Place-skip x xs i index best r item (inr p) = inr p

dequeue_loop-Place :
    (xs : List QueueItem) (i index : ℕ) (best : QueueItem)
    → (item : QueueItem) × (r : ℕ) × (dequeue_loop xs i (index, some best) ≡ (r, some item))
      × Lowest item xs
      × (item.priority ≤ℤ best.priority)
      × Place xs i index best r item
unfolding dequeue_loop
dequeue_loop-Place [] i index best = (best, index, refl, tt, omega arith, inr (refl, refl))
dequeue_loop-Place (x ∷ xs) i index best = elim (Bool-cases (ltbℤ x.priority best.priority)) [
  | inl lower ↦
      let (item, r, run, low, le, place) = dequeue_loop-Place xs (suc i) i x in
      let under : item.priority ≤ℤ best.priority = omega (tests, lower, le) in
      (item, r, rw lower run, (le, low), under, Place-take x xs i index best r item place)
  | inr keep ↦
      let (item, r, run, low, le, place) = dequeue_loop-Place xs (suc i) index best in
      let under : item.priority ≤ℤ x.priority = omega (tests, keep, le) in
      (item, r, rw keep run, (under, low), le, Place-skip x xs i index best r item place)
]

-- DequeueItem's search in a list that is not empty: an item of the lowest priority, at its index.
pub dequeue_loop-Lowest :
    (xs : List QueueItem)
    → 0 < length xs
    → (item : QueueItem) × (r : ℕ) × (dequeue_loop xs 0 (0, none) ≡ (r, some item))
      × Lowest item xs
      × (get_elem? xs r ≡ some item)
unfolding dequeue_loop
dequeue_loop-Lowest [] h = absurd (omega arith)
dequeue_loop-Lowest (x ∷ xs) h =
    let (item, r, run, low, le, place) = dequeue_loop-Place xs 1 0 x in
    (item, r, run, (le, low), found item r (Place-take x xs 0 0 x r item place))
  where
    found :
        (item : QueueItem) (r : ℕ) → Place (x ∷ xs) 0 0 x r item → get_elem? (x ∷ xs) r ≡ some item
    found item r (inl (k, e, g)) = rw (e, zero-add) g
    found item r (inr (e, g)) = rw (e, g)

-- The loops of PeekItem and DequeueItem choose the same item.
peek-dequeue_loop :
    (xs : List QueueItem) (i index : ℕ) (best : QueueItem)
    → (peek_loop xs (best.priority, some best)).1 ≡ (dequeue_loop xs i (index, some best)).1
unfolding peek_loop dequeue_loop
peek-dequeue_loop [] i index best = refl
peek-dequeue_loop (x ∷ xs) i index best = elim (Bool-cases (ltbℤ x.priority best.priority)) [
  | inl lower ↦ rw (peek_loop, dequeue_loop, lower) (peek-dequeue_loop xs (suc i) i x)
  | inr keep ↦ rw (peek_loop, dequeue_loop, keep) (peek-dequeue_loop xs (suc i) index best)
]

-- DequeueItem on a queue that is not empty, with what its search finds.
pub dequeue_item-found :
    (q : Queue) (i : ℕ) (x : QueueItem) (ys : List QueueItem)
    → q.items.alloc_count ≡ 0
    → dequeue_loop q.items.items 0 (0, none) ≡ (i, some x)
    → swap_remove q.items.items i ≡ some ys
    → dequeue_item q ≡ ok (x.line, record { items = record q.items { items = ys } })
unfolding dequeue_item
dequeue_item-found q i x ys a run gone =
    let removed = remove_at-swap_remove i q.items ys a gone in rw (dequeue_item, run, run, removed)

peek-head :
    (x : QueueItem) (xs : List QueueItem)
    → x.priority <ℤ pos 99999
    → peek_loop (x ∷ xs) (pos 99999, none) ≡ peek_loop xs (x.priority, some x)
unfolding peek_loop
peek-head x xs h = rw (lt→ltb _ _ h)

peek-first :
    (xs : List QueueItem)
    → All (λ x. x.priority <ℤ pos 99999) xs
    → (peek_loop xs (pos 99999, none)).1 ≡ (dequeue_loop xs 0 (0, none)).1
unfolding peek_loop dequeue_loop
peek-first [] b = refl
peek-first (x ∷ xs) b = ap (λ r. r.1) (peek-head x xs b.0) ∙ peek-dequeue_loop xs 1 0 x

pub dequeue_loop-none :
    (xs : List QueueItem) → length xs ≡ 0 → dequeue_loop xs 0 (0, none) ≡ (0, none)
unfolding dequeue_loop
dequeue_loop-none [] h = refl
dequeue_loop-none (x ∷ xs) h = absurd (omega arith)

-- On a queue that grows on demand, where each priority is below the start value of PeekItem's
-- search, the line that PeekItem shows is the line that DequeueItem takes, and both fail alike on
-- an empty queue.
pub peek_item-dequeue_item :
    (q : Queue)
    → q.items.alloc_count ≡ 0
    → All (λ x. x.priority <ℤ pos 99999) q.items.items
    → peek_item q ≡ (dequeue_item q >>= λ r. ok r.0)
unfolding peek_item
peek_item-dequeue_item q a below = elim (dec_lt 0 (length q.items.items)) [
  | yes h ↦
      let (item, r, run, low, at_r) = dequeue_loop-Lowest q.items.items h in
      let (ys, gone, p, size, later) = swap_remove-perm q.items.items r item at_r in
      rw (peek_item, peek-first q.items.items below, run, dequeue_item-found q r item ys a run gone)
  | no h ↦
      let run = dequeue_loop-none q.items.items (omega arith) in
      unfold dequeue_item in rw (peek_item, dequeue_item, peek-first q.items.items below, run)
]

-- DequeueItem fails on an empty queue, and takes one item from any other.
pub dequeue_item-cases :
    (q : Queue)
    → q.items.alloc_count ≡ 0
    → ((length q.items.items ≡ 0) × (dequeue_item q ≡ err generic_unknown))
      ⊎ ((line : List ℕ) × (r : Queue) × (dequeue_item q ≡ ok (line, r))
          × (length r.items.items + 1 ≡ length q.items.items))
dequeue_item-cases q a = elim (dec_lt 0 (length q.items.items)) [
  | yes h ↦
      let (item, r, run, low, at_r) = dequeue_loop-Lowest q.items.items h in
      let (ys, gone, p, size, later) = swap_remove-perm q.items.items r item at_r in
      inr (
        item.line,
        record { items = record q.items { items = ys } },
        dequeue_item-found q r item ys a run gone,
        size,
      )
  | no h ↦
      let run = dequeue_loop-none q.items.items (omega arith) in
      inl (omega arith, unfold dequeue_item in rw (dequeue_item, run))
]
