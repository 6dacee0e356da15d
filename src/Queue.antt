-- ===== src/Queue.antt =====
-- CQueue of src/Queue.cpp: lines with priorities in a vector, the lowest priority first.
pub mod Order
pub mod Fifo
pub mod Next
use shroudbnc.Base.{
  ℕ, zero, suc, List, [], ◌∷◌, map, Option, none, some, Bool, true, false, length, ltb, leb, not,
  if◌then◌else◌, ℤ, pos, negsuc, ◌+ℤ◌, ltbℤ, Outcome, ok, err, fault, generic_unknown,
  generic_out_of_memory, generic_invalid_argument,
}
use shroudbnc.Vector.{Vector}
use shroudbnc.Vector

abbrev pub max_queue_size : ℕ
max_queue_size = 500

-- The line is its bytes.
pub record QueueItem : Type 0 where
  pub priority : ℤ
  pub line : List ℕ

pub record Queue : Type 0 where
  pub items : Vector QueueItem

abbrev pub new : Queue
new = record { items = Vector.empty }

-- The loop of PeekItem: LowestPriority and ThatItem.
unfoldable pub peek_loop : List QueueItem → ℤ × Option QueueItem → ℤ × Option QueueItem
peek_loop [] best = best
peek_loop (x ∷ xs) (lowest, item) =
    peek_loop xs (if ltbℤ x.priority lowest then (x.priority, some x) else (lowest, item))

unfoldable pub peek_item : Queue → Outcome (List ℕ)
peek_item q = elim ((peek_loop q.items.items (pos 99999, none)).1) [
  | none ↦ err generic_unknown
  | some x ↦ ok x.line
]

-- `Item == NULL || m_Items[i].Priority < Item->Priority`
unfoldable pub better : QueueItem → Option QueueItem → Bool
better x none = true
better x (some y) = ltbℤ x.priority y.priority

-- The loop of DequeueItem from the index `i`: Index and Item.
unfoldable pub dequeue_loop : List QueueItem → ℕ → ℕ × Option QueueItem → ℕ × Option QueueItem
unfolding better
dequeue_loop [] i best = best
dequeue_loop (x ∷ xs) i (index, item) =
    dequeue_loop xs (suc i) (if better x item then (i, some x) else (index, item))

-- The result of Remove is not looked at.
unfoldable pub dequeue_item : Queue → Outcome (List ℕ × Queue)
dequeue_item q =
    let (index, item) = dequeue_loop q.items.items 0 (0, none) in
    elim item [
      | none ↦ err generic_unknown
      | some x ↦ elim (Vector.remove_at index q.items) [
        | ok items ↦ ok (x.line, record { items = items })
        | err e ↦ ok (x.line, q)
        | fault ↦ fault
      ]
    ]

abbrev pub shift : ℤ → List QueueItem → List QueueItem
shift by = map {A = QueueItem} (λ x. record x { priority = x.priority +ℤ by })

-- `none` is a null pointer; `copied` and `inserted` are the outcomes of strdup and realloc. With the
-- result comes the queue, which a failing realloc leaves with the lowered priorities.
unfoldable pub queue_item : Bool → Bool → Option (List ℕ) → Queue → Queue × Outcome (Unit {0})
queue_item copied inserted none q = (q, err generic_invalid_argument)
queue_item copied inserted (some line) q =
    if leb max_queue_size (length q.items.items)
    then (q, err generic_unknown)
    else (if not copied
        then (q, err generic_out_of_memory)
        else let lowered = record q.items { items = shift (negsuc 0) q.items.items } in
          elim (Vector.insert inserted (record { priority = pos 0; line = line }) lowered) [
            | ok items ↦ (record { items = items }, ok tt)
            | err e ↦ (record { items = lowered }, err e)
            | fault ↦ (record { items = lowered }, fault)
          ])

unfoldable pub queue_item_next : Bool → Bool → Option (List ℕ) → Queue → Queue × Outcome (Unit {0})
queue_item_next copied inserted line q =
    queue_item copied inserted line
      (record { items = record q.items { items = shift (pos 2) q.items.items } })

unfoldable pub get_length : Queue → ℕ
get_length q = length q.items.items

unfoldable pub clear : Queue → Queue
clear q = record { items = Vector.clear q.items }
