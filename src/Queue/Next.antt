-- ===== src/Queue/Next.antt =====
-- QueueItemNext of CQueue: the new line does not always become the next one.
use mathlib.Core.List.{Perm, head-eq_of_cons-eq}
use mathlib.Core.List.Perm
use shroudbnc.Base.{
  ℕ, suc, ◌<◌, ◌≡◌, refl, ap, List, [], ◌∷◌, ◌++◌, some, true, length, All, All-append, ℤ, pos,
  negsuc, ◌+ℤ◌, +ℤ_parts, ◌<ℤ◌, ◌≤ℤ◌, arith, ok,
}
use shroudbnc.Vector
use shroudbnc.Vector.{swap_remove}
use shroudbnc.Queue.{
  QueueItem, Queue, queue_item, queue_item_next, dequeue_item, shift, max_queue_size,
}
use shroudbnc.Queue.Order.{dequeue_item-found}
use shroudbnc.Queue.Fifo.{Fifo, Rising, lines, shift-below, oldest-removed}

raised : List QueueItem → List QueueItem
raised xs = shift (negsuc 0) (shift (pos 2) xs)

length-shift : (by : ℤ) (xs : List QueueItem) → length (shift by xs) ≡ length xs
length-shift by [] = refl
length-shift by (x ∷ xs) = ap suc (length-shift by xs)

next_item-queued :
    (line : List ℕ) (q : Queue)
    → q.items.alloc_count ≡ 0
    → length q.items.items < max_queue_size
    → queue_item_next true true (some line) q ≡ (
      record {
        items = record q.items {
          items = raised q.items.items ++ (record { priority = pos 0; line = line }) ∷ [];
        };
      },
      ok tt,
    )
unfolding queue_item_next queue_item Vector.insert raised
next_item-queued line q a h = ground (arith, length-shift (pos 2) q.items.items)

-- The oldest of three lines is still below the new one.
raised-lowest :
    (x y z : QueueItem) (t : List QueueItem) (line : List ℕ)
    → Rising (x ∷ y ∷ z ∷ t)
    → All (λ w. w.priority ≤ℤ pos 0) (x ∷ y ∷ z ∷ t)
    → All
        (λ w. ((x.priority +ℤ pos 2) +ℤ negsuc 0) <ℤ w.priority)
        (raised (y ∷ z ∷ t) ++ (record { priority = pos 0; line = line }) ∷ [])
unfolding raised
raised-lowest x y z t line r top =
    let up : QueueItem = record x { priority = x.priority +ℤ pos 2 } in
    let low : (up.priority +ℤ negsuc 0) <ℤ pos 0 = omega (
      arith,
      +ℤ_parts x.priority (pos 2),
      +ℤ_parts up.priority (negsuc 0),
      r.0.0,
      r.1.0.0,
      top.1.1.0,
    ) in
    All-append _ (raised (y ∷ z ∷ t)) _
      (shift-below up (negsuc 0) (shift (pos 2) (y ∷ z ∷ t))
        (shift-below x (pos 2) (y ∷ z ∷ t) r.0))
      (low, tt)

next-ordered :
    (line a b c : List ℕ) (q : Queue) (ls : List (List ℕ)) (order : List QueueItem)
    → Perm q.items.items order
    → Rising order
    → All (λ x. x.priority ≤ℤ pos 0) order
    → lines order ≡ a ∷ b ∷ c ∷ ls
    → q.items.alloc_count ≡ 0
    → length q.items.items < max_queue_size
    → (r s : Queue) × (queue_item_next true true (some line) q ≡ (r, ok tt))
      × (dequeue_item r ≡ ok (a, s))
unfolding raised
next-ordered line a b c q ls [] p r top e al h = cc
next-ordered line a b c q ls (x ∷ []) p r top e al h = cc
next-ordered line a b c q ls (x ∷ y ∷ []) p r top e al h = cc
next-ordered line a b c q ls (x ∷ y ∷ z ∷ t) p r top e al h =
    let fresh : QueueItem = record { priority = pos 0; line = line } in
    let up : QueueItem = record x { priority = (x.priority +ℤ pos 2) +ℤ negsuc 0 } in
    let items = raised q.items.items ++ fresh ∷ [] in
    let moved : Perm items (up ∷ raised (y ∷ z ∷ t) ++ fresh ∷ []) =
      Perm.append_right (fresh ∷ []) (Perm.map _ (Perm.map _ p)) in
    let (i, ys, run, gone, rest) =
      oldest-removed up _ items moved (raised-lowest x y z t line r top) in
    let after : Queue = record { items = record q.items { items = items } } in
    (
      after,
      record { items = record q.items { items = ys } },
      next_item-queued line q al h,
      rw (dequeue_item-found after i up ys al run gone, head-eq_of_cons-eq e),
    )

-- QueueItemNext, with memory and room, on a queue that stands for three lines or more: the line
-- that DequeueItem takes next is the oldest of these as before, not the new one.
pub queue_item_next-dequeue :
    (line a b c : List ℕ) (q : Queue) (ls : List (List ℕ))
    → Fifo q (a ∷ b ∷ c ∷ ls)
    → length q.items.items < max_queue_size
    → (r s : Queue) × (queue_item_next true true (some line) q ≡ (r, ok tt))
      × (dequeue_item r ≡ ok (a, s))
queue_item_next-dequeue line a b c q ls f h =
    next-ordered line a b c q ls f.order f.perm f.rising f.top f.reads f.alloc h
