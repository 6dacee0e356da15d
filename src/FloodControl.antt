-- ===== src/FloodControl.antt =====
-- CFloodControl of src/FloodControl.cpp: the queues of a connection and the bytes sent of late. The
-- attached queues are different objects, so each is kept by value in the vector.
pub mod Budget
pub mod Selection
use shroudbnc.Base.{
  ℕ, suc, ◌+◌, List, [], ◌∷◌, map, Option, none, some, Bool, true, false, length, get_elem?, set,
  ltb, leb, not, ◌&&◌, if◌then◌else◌, ℤ, pos, ltbℤ, Outcome, ok, err, fault,
}
use shroudbnc.Queue.{Queue, peek_item}
use shroudbnc.Queue
use shroudbnc.Vector.{Vector}
use shroudbnc.Vector

-- "SBNCFLOODCHECK"
abbrev pub flood_msg : List ℕ
flood_msg =
    b'S' ∷ b'B' ∷ b'N' ∷ b'C' ∷ b'F' ∷ b'L' ∷ b'O' ∷ b'O' ∷ b'D' ∷ b'C' ∷ b'H' ∷ b'E' ∷ b'C' ∷ b'K'
    ∷ []

abbrev pub flood_bytes : ℕ
flood_bytes = 1024

pub record IrcQueue : Type 0 where
  pub priority : ℤ
  pub queue : Queue

pub record FloodControl : Type 0 where
  pub queues : Vector IrcQueue
  pub bytes_sent : ℕ
  pub enabled : Bool
  pub plugged : Bool

abbrev pub new : FloodControl
new = record { queues = Vector.empty; bytes_sent = 0; enabled = true; plugged = false }

-- The result of Insert is not looked at.
unfoldable pub attach_input_queue : Bool → Queue → ℤ → FloodControl → FloodControl
attach_input_queue allocated queue priority f =
    elim (Vector.insert allocated (record { priority = priority; queue = queue }) f.queues) [
      | ok queues ↦ record f { queues = queues }
      | err e ↦ f
      | fault ↦ f
    ]

unfoldable pub plug : FloodControl → FloodControl
plug f = record f { plugged = true }

unfoldable pub unplug : FloodControl → FloodControl
unplug f = record f { bytes_sent = 0; plugged = false }

unfoldable pub enable : FloodControl → FloodControl
enable f = record f { enabled = true }

unfoldable pub disable : FloodControl → FloodControl
disable f = record f { enabled = false }

-- The loop over the queues from the index `i`: LowestPriority, and the index of ThatQueue.
unfoldable pub select_loop : List IrcQueue → ℕ → ℤ × Option ℕ → ℤ × Option ℕ
select_loop [] i best = best
select_loop (x ∷ xs) i (lowest, chosen) = select_loop xs (suc i) (
    if ltbℤ x.priority lowest && ltb 0 (Queue.get_length x.queue)
    then (x.priority, some i)
    else (lowest, chosen))

abbrev pub over : FloodControl → List ℕ → Bool
over f line =
    f.enabled
    && (ltb 0 f.bytes_sent
        && ltb flood_bytes (f.bytes_sent + length line + 2 + length flood_msg + 2))

-- The part of DequeueItem behind the choice of the queue `x` at the index `i`; `line` is what its
-- PeekItem shows and `copied` the outcome of strdup.
unfoldable pub dequeue_from :
    Bool → Bool → ℕ → IrcQueue → List ℕ → FloodControl → FloodControl × Outcome (Option (List ℕ))
unfolding plug
dequeue_from copied peek i x line f =
    if peek
    then (f, ok (some line))
    else (if over f line
        then (plug f, ok (if copied then some flood_msg else none))
        else elim (Queue.dequeue_item x.queue) [
          | ok (item, queue) ↦ (
            record f {
              queues = record f.queues {
                items = set f.queues.items i (record x { queue = queue });
              };
              bytes_sent = f.bytes_sent + (length item + 2);
            },
            ok (some item),
          )
          | err e ↦ (f, err e)
          | fault ↦ (f, fault)
        ])

-- DequeueItem; `ok none` is a null pointer, for no line to send now.
unfoldable pub dequeue_item : Bool → Bool → FloodControl → FloodControl × Outcome (Option (List ℕ))
dequeue_item copied peek f =
    if f.enabled && f.plugged
    then (f, ok none)
    else elim (select_loop f.queues.items 0 (pos 100, none)).1 [
      | none ↦ (f, ok none)
      | some i ↦ elim (get_elem? f.queues.items i) [
        | none ↦ (f, fault)
        | some x ↦ elim (peek_item x.queue) [
          | ok line ↦ dequeue_from copied peek i x line f
          | err e ↦ (f, err e)
          | fault ↦ (f, fault)
        ]
      ]
    ]

abbrev pub total : List IrcQueue → ℕ
total [] = 0
total (x ∷ xs) = length x.queue.items.items + total xs

unfoldable pub get_real_length : FloodControl → ℕ
get_real_length f = total f.queues.items

unfoldable pub get_queue_size : FloodControl → ℕ
unfolding get_real_length
get_queue_size f = if f.plugged then 0 else if ltb 0 (get_real_length f) then 1 else 0

unfoldable pub clear : FloodControl → FloodControl
clear f = record f {
  queues = record f.queues {
    items = map {A = IrcQueue} (λ x. record x { queue = Queue.clear x.queue }) f.queues.items;
  };
}
