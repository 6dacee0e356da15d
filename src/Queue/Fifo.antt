-- ===== src/Queue/Fifo.antt =====
-- A CQueue that is filled by QueueItem alone gives its lines back in the order of their arrival.
use mathlib.Core.List.{
  Perm, Mem, mem-cons, mem-cons_self, not-mem-nil, head-eq_of_cons-eq, tail-eq_of_cons-eq,
}
use mathlib.Core.List.Perm
use mathlib.Core.Logic.Or
use native.Mathlib.Bridge.{le_prop}
use shroudbnc.Base.{
  ℕ, ◌<◌, ◌≡◌, refl, sym, ap, ◌∙◌, List, [], ◌∷◌, ◌++◌, map, none, some, true, length, All,
  All-append, ℤ, pos, negsuc, ◌+ℤ◌, +ℤ_parts, ◌<ℤ◌, ◌≤ℤ◌, arith, ok,
}
use shroudbnc.Vector.Removal.{swap_remove-perm}
use shroudbnc.Vector
use shroudbnc.Vector.{swap_remove}
use shroudbnc.Queue.{
  QueueItem, Queue, new, queue_item, dequeue_item, dequeue_loop, shift, max_queue_size,
}
use shroudbnc.Queue.Order.{Lowest, dequeue_loop-Lowest, dequeue_item-found}

-- Each priority is below all later ones.
abbrev pub Rising : List QueueItem → Type 0
Rising [] = Unit
Rising (x ∷ xs) = All (λ y. x.priority <ℤ y.priority) xs × Rising xs

abbrev pub lines : List QueueItem → List (List ℕ)
lines = map (λ x. x.line)

-- The queue `q` stands for the lines `ls`, the oldest first.
pub record Fifo (q : Queue) (ls : List (List ℕ)) : Type 0 where
  pub order : List QueueItem
  pub perm : Perm q.items.items order
  pub rising : Rising order
  pub top : All (λ x. x.priority ≤ℤ pos 0) order
  pub reads : lines order ≡ ls
  pub alloc : q.items.alloc_count ≡ 0

pub new-Fifo : Fifo new []
new-Fifo = record { order = []; perm = Perm.rfl; rising = tt; top = tt; reads = refl; alloc = refl }

QueueItem-set : IsSet QueueItem
QueueItem-set = hlevel

pub shift-below :
    (x : QueueItem) (by : ℤ) (xs : List QueueItem)
    → All (λ y. x.priority <ℤ y.priority) xs
    → All (λ y. (x.priority +ℤ by) <ℤ y.priority) (shift by xs)
shift-below x by [] a = tt
shift-below x by (y ∷ xs) a =
    (omega (arith, +ℤ_parts x.priority by, +ℤ_parts y.priority by, a.0), shift-below x by xs a.1)

shift-Rising : (by : ℤ) (xs : List QueueItem) → Rising xs → Rising (shift by xs)
shift-Rising by [] r = tt
shift-Rising by (x ∷ xs) r = (shift-below x by xs r.0, shift-Rising by xs r.1)

lines-shift : (by : ℤ) (xs : List QueueItem) → lines (shift by xs) ≡ lines xs
lines-shift by [] = refl
lines-shift by (x ∷ xs) = ap (λ t. x.line ∷ t) (lines-shift by xs)

lowered-top :
    (xs : List QueueItem)
    → All (λ x. x.priority ≤ℤ pos 0) xs
    → All (λ x. x.priority <ℤ pos 0) (shift (negsuc 0) xs)
lowered-top [] a = tt
lowered-top (x ∷ xs) a = (omega (arith, +ℤ_parts x.priority (negsuc 0), a.0), lowered-top xs a.1)

Rising-snoc :
    (xs : List QueueItem) (y : QueueItem)
    → Rising xs
    → All (λ x. x.priority <ℤ y.priority) xs
    → Rising (xs ++ y ∷ [])
Rising-snoc [] y r a = (tt, tt)
Rising-snoc (x ∷ xs) y r a = (All-append _ xs (y ∷ []) r.0 (a.0, tt), Rising-snoc xs y r.1 a.1)

weaken :
    (xs : List QueueItem) → All (λ x. x.priority <ℤ pos 0) xs → All (λ x. x.priority ≤ℤ pos 0) xs
weaken [] a = tt
weaken (x ∷ xs) a = (omega (arith, a.0), weaken xs a.1)

lines-append : (xs ys : List QueueItem) → lines (xs ++ ys) ≡ lines xs ++ lines ys
lines-append [] ys = refl
lines-append (x ∷ xs) ys = ap (λ t. x.line ∷ t) (lines-append xs ys)

-- QueueItem on a queue that stands for some lines and has fewer than 500, with memory for the copy
-- and the item, succeeds and leaves a queue that stands for these lines and then the new one.
pub queue_item-Fifo :
    (line : List ℕ) (q : Queue) (ls : List (List ℕ))
    → Fifo q ls
    → length q.items.items < max_queue_size
    → (r : Queue) × (queue_item true true (some line) q ≡ (r, ok tt)) × Fifo r (ls ++ line ∷ [])
unfolding queue_item Vector.insert
queue_item-Fifo line q ls f h =
    let item : QueueItem = record { priority = pos 0; line = line } in
    let items = shift (negsuc 0) q.items.items ++ item ∷ [] in
    let low = lowered-top f.order f.top in
    (
      record { items = record q.items { items = items } },
      ground (arith, f.alloc),
      record {
        order = shift (negsuc 0) f.order ++ item ∷ [];
        perm = Perm.append_right (item ∷ []) (Perm.map _ f.perm);
        rising = Rising-snoc _ item (shift-Rising (negsuc 0) f.order f.rising) low;
        top = All-append _ _ (item ∷ []) (weaken _ low) (omega arith, tt);
        reads =
            lines-append (shift (negsuc 0) f.order) (item ∷ [])
            ∙ ap (λ t. t ++ line ∷ []) (lines-shift (negsuc 0) f.order ∙ f.reads);
        alloc = f.alloc;
      },
    )

All-mem :
    (P : QueueItem → Type 0) (prop : (x : QueueItem) → IsProp (P x)) (xs : List QueueItem)
    → All P xs
    → (x : QueueItem) → Mem x xs
    → P x
All-mem P prop [] a x m = absurd (not-mem-nil m)
All-mem P prop (y ∷ xs) a x m =
    Or.elim (prop x) (mem-cons.0 m) (λ e. rw e a.0) (All-mem P prop xs a.1 x)

-- An item of the lowest priority is the oldest.
Lowest-head :
    (x h : QueueItem) (t xs : List QueueItem)
    → Perm xs (h ∷ t)
    → All (λ y. h.priority <ℤ y.priority) t
    → Lowest x xs
    → Mem x xs
    → x ≡ h
Lowest-head x h t xs p r low m =
    Or.elim (QueueItem-set x h) (mem-cons.0 ((Perm.mem_iff p).0 m)) (λ e. e)
      λ later.
        let over : h.priority <ℤ x.priority = All-mem _ (λ y. le_prop) t r x later in
        let under : x.priority ≤ℤ h.priority =
          All-mem _ (λ y. le_prop) xs low h ((Perm.mem_iff p).1 mem-cons_self) in
        absurd (omega arith)

length-of_mem : (x : QueueItem) (xs : List QueueItem) → Mem x xs → 0 < length xs
length-of_mem x [] m = absurd (not-mem-nil m)
length-of_mem x (y ∷ xs) m = omega arith

-- The search finds the oldest item, and its removal leaves the others.
pub oldest-removed :
    (h : QueueItem) (t xs : List QueueItem)
    → Perm xs (h ∷ t)
    → All (λ y. h.priority <ℤ y.priority) t
    → (i : ℕ) × (ys : List QueueItem) × (dequeue_loop xs 0 (0, none) ≡ (i, some h))
      × (swap_remove xs i ≡ some ys)
      × Perm ys t
oldest-removed h t xs p r =
    let (x, i, run, low, at_i) =
      dequeue_loop-Lowest xs (length-of_mem h xs ((Perm.mem_iff p).1 mem-cons_self)) in
    let (ys, gone, q, size, later) = swap_remove-perm xs i x at_i in
    let e : x ≡ h = Lowest-head x h t xs p r low ((Perm.mem_iff q).1 mem-cons_self) in
    (
      i,
      ys,
      run ∙ ap (λ y. (i, some y)) e,
      gone,
      Perm.cons_inv (Perm.trans (Perm.cons' (sym e) Perm.rfl) (Perm.trans (Perm.symm q) p)),
    )

dequeue_ordered :
    (line : List ℕ) (q : Queue) (ls : List (List ℕ)) (order : List QueueItem)
    → Perm q.items.items order
    → Rising order
    → All (λ x. x.priority ≤ℤ pos 0) order
    → lines order ≡ line ∷ ls
    → q.items.alloc_count ≡ 0
    → (r : Queue) × (dequeue_item q ≡ ok (line, r)) × Fifo r ls
dequeue_ordered line q ls [] p r t e a = cc
dequeue_ordered line q ls (h ∷ t) p r top e a =
    let (i, ys, run, gone, rest) = oldest-removed h t q.items.items p r.0 in
    (
      record { items = record q.items { items = ys } },
      rw (dequeue_item-found q i h ys a run gone, head-eq_of_cons-eq e),
      record {
        order = t;
        perm = rest;
        rising = r.1;
        top = top.1;
        reads = tail-eq_of_cons-eq e;
        alloc = a;
      },
    )

-- DequeueItem on a queue that stands for some lines, the oldest first, returns the oldest one and
-- leaves a queue that stands for the others.
pub dequeue_item-Fifo :
    (line : List ℕ) (q : Queue) (ls : List (List ℕ))
    → Fifo q (line ∷ ls)
    → (r : Queue) × (dequeue_item q ≡ ok (line, r)) × Fifo r ls
dequeue_item-Fifo line q ls f =
    dequeue_ordered line q ls f.order f.perm f.rising f.top f.reads f.alloc
