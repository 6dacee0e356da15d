-- ===== src/Tests/Lines.antt =====
-- Lines and bytes: the vector, the FIFO buffer, the queue and flood control.
use mathlib.Core.List.{Perm, perm_middle}
use shroudbnc.Base.{
  ℕ, ◌≡◌, refl, ◌<◌, ◌+◌, ◌↔◌, ◌⊎◌, List, [], ◌∷◌, ◌++◌, none, some, true, false, length, ◌==◌,
  drop, if◌then◌else◌, pos, negsuc, ◌<ℤ◌, get_elem?, ◌>>=◌, arith, ok, err, generic_out_of_memory,
  vector_item_not_found, ltb,
}
use shroudbnc.Vector.{Vector, remove_item}
use shroudbnc.Vector.Removal as Removal
use shroudbnc.FifoBuffer as Bytes
use shroudbnc.FifoBuffer.{FifoBuffer, read, write, flush, peek, write_unformatted_line}
use shroudbnc.FifoBuffer.Contents as Contents
use shroudbnc.FifoBuffer.Blocks as Blocks
use shroudbnc.FifoBuffer.Blocks.{IsValid, contents}
use shroudbnc.FifoBuffer.History as History
use shroudbnc.FifoBuffer.History.{writes, reads, flushes, run}
use shroudbnc.Queue.{
  Queue, QueueItem, max_queue_size, queue_item, dequeue_item, peek_item, queue_item_next,
}
use shroudbnc.Queue as Queue
use shroudbnc.Queue.Order as Order
use shroudbnc.Queue.Fifo.{Fifo, queue_item-Fifo, dequeue_item-Fifo, new-Fifo}
use shroudbnc.Queue.Next as Next
use shroudbnc.FloodControl.{FloodControl, IrcQueue, select_loop}
use shroudbnc.FloodControl as FloodControl
use shroudbnc.FloodControl.Selection.{select_loop-lowest, Bound, waiting}
use shroudbnc.FloodControl.Budget as Budget

abbrev three_twos : Vector ℕ
three_twos = record { items = 2 ∷ 7 ∷ 2 ∷ 2 ∷ []; alloc_count = 0 }

remove_item-kept_example :
    Perm
      (remove_item (λ x. x == 2) three_twos).0.items
      (Removal.kept (λ x. x == 2) (2 ∷ 7 ∷ 2 ∷ 2 ∷ []))
    × ((remove_item (λ x. x == 2) three_twos).0.alloc_count ≡ 0)
    × ((remove_item (λ x. x == 2) three_twos).1 ≡ (
        if ltb (length (remove_item (λ x. x == 2) three_twos).0.items) 4
        then ok tt
        else err vector_item_not_found))
remove_item-kept_example = Removal.remove_item-kept (λ x. x == 2) three_twos refl

new-IsValid : IsValid Bytes.new
new-IsValid = Blocks.new-IsValid

write-err_iff_example :
    (write true [] Bytes.new ≡ err generic_out_of_memory)
    ↔ (length {A = ℕ} [] + length {A = ℕ} [] ≡ 0)
write-err_iff_example = Contents.write-err_iff [] Bytes.new new-IsValid

abbrev filled : FifoBuffer
filled = record { block = some 4096; bytes = 1 ∷ 2 ∷ 3 ∷ 4 ∷ 5 ∷ []; offset = 2 }

filled-IsValid : IsValid filled
unfolding Bytes.resize_buffer
filled-IsValid = record { within = omega arith; sized = refl }

read-contents_example :
    (g : FifoBuffer) × (read true 2 filled ≡ ok (g, contents filled))
    × IsValid g
    × (contents g ≡ drop 2 (contents filled))
read-contents_example = Contents.read-contents true 2 filled filled-IsValid

abbrev history : List History.Call
history = writes true (65 ∷ 66 ∷ []) ∷ reads false 1 ∷ writes false (67 ∷ []) ∷ flushes true ∷ []

run-Conserves_example :
    IsValid (run history filled).after
    × ((run history filled).taken ++ contents (run history filled).after
        ≡ contents filled ++ (run history filled).added)
run-Conserves_example = History.run-Conserves history filled filled-IsValid

queue_item-Fifo_example :
    (r : Queue) × (queue_item true true (some (1 ∷ [])) Queue.new ≡ (r, ok tt))
    × Fifo r ((1 ∷ []) ∷ [])
queue_item-Fifo_example = queue_item-Fifo (1 ∷ []) Queue.new [] new-Fifo (omega arith)

abbrev first_item : QueueItem
first_item = record { priority = negsuc 0; line = 1 ∷ [] }

abbrev second_item : QueueItem
second_item = record { priority = pos 0; line = 2 ∷ [] }

abbrev oldest : QueueItem
oldest = record { priority = negsuc 1; line = 3 ∷ [] }

abbrev queued : Queue
queued = record {
  items = record { items = first_item ∷ second_item ∷ oldest ∷ []; alloc_count = 0 };
}

abbrev in_order : List (List ℕ)
in_order = (3 ∷ []) ∷ (1 ∷ []) ∷ (2 ∷ []) ∷ []

queued-Fifo : Fifo queued in_order
queued-Fifo = record {
  order = oldest ∷ first_item ∷ second_item ∷ [];
  perm = perm_middle (first_item ∷ second_item ∷ []) [];
  rising = ((omega arith, (omega arith, tt)), ((omega arith, tt), (tt, tt)));
  top = (omega arith, (omega arith, (omega arith, tt)));
  reads = refl;
  alloc = refl;
}

dequeue_item-Fifo_example :
    (r : Queue) × (dequeue_item queued ≡ ok (3 ∷ [], r)) × Fifo r ((1 ∷ []) ∷ (2 ∷ []) ∷ [])
dequeue_item-Fifo_example = dequeue_item-Fifo (3 ∷ []) queued ((1 ∷ []) ∷ (2 ∷ []) ∷ []) queued-Fifo

peek_item-dequeue_item_example : peek_item queued ≡ (dequeue_item queued >>= λ r. ok r.0)
peek_item-dequeue_item_example =
    Order.peek_item-dequeue_item queued refl (omega arith, (omega arith, (omega arith, tt)))

queue_item_next-dequeue_example :
    (r s : Queue) × (queue_item_next true true (some (9 ∷ [])) queued ≡ (r, ok tt))
    × (dequeue_item r ≡ ok (3 ∷ [], s))
queue_item_next-dequeue_example =
    Next.queue_item_next-dequeue (9 ∷ []) (3 ∷ []) (1 ∷ []) (2 ∷ []) queued [] queued-Fifo
      (omega arith)

abbrev attached : FloodControl
attached = record {
  queues = record {
    items =
        record { priority = pos 5; queue = queued }
        ∷ record { priority = pos 1; queue = Queue.new }
        ∷ [];
    alloc_count = 0;
  };
  bytes_sent = 1000;
  enabled = true;
  plugged = false;
}

select_loop-lowest_example :
    (((select_loop attached.queues.items 0 (pos 100, none)).1 ≡ none)
      × Bound (pos 100) attached.queues.items)
    ⊎ ((i : ℕ) × (x : IrcQueue) × ((select_loop attached.queues.items 0 (pos 100, none)).1 ≡ some i)
        × (get_elem? attached.queues.items i ≡ some x)
        × (0 < waiting x)
        × (x.priority <ℤ pos 100)
        × Bound x.priority attached.queues.items)
select_loop-lowest_example = select_loop-lowest attached.queues.items

dequeue_item-Sent_example :
    ((FloodControl.dequeue_item true false attached ≡ (attached, ok none)) × Budget.Waits attached)
    ⊎ ((g : FloodControl) × (line : List ℕ) × (FloodControl.dequeue_item true false attached
          ≡ (g, ok (some line)))
        × Budget.Sent attached g line)
dequeue_item-Sent_example =
    Budget.dequeue_item-Sent attached
      ((refl, (omega arith, (omega arith, (omega arith, tt)))), ((refl, tt), tt))
