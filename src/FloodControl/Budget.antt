-- ===== src/FloodControl/Budget.antt =====
-- What one call of DequeueItem of CFloodControl does to the queues and to the count of bytes.
use mathlib.Core.Option.{some-injective}
use shroudbnc.Base.{
  ℕ, zero, suc, ◌+◌, ◌≤◌, ◌<◌, ◌≡◌, refl, subst, ap, ◌∙◌, List, [], ◌∷◌, none, some, true, false,
  length, get_elem?, set, All, arith, pos, ◌<ℤ◌, inl, inr, ◌⊎◌, ◌&&◌, Bool-cases, ok, ◌>>=◌,
}
use shroudbnc.Queue
use shroudbnc.Queue.{Queue}
use shroudbnc.Queue.Order.{peek_item-dequeue_item, dequeue_item-cases}
use shroudbnc.FloodControl.{
  FloodControl, IrcQueue, flood_msg, flood_bytes, plug, over, dequeue_from, dequeue_item, total,
}
use shroudbnc.FloodControl.Selection.{waiting, Bound, select_loop-lowest}

-- The queues as their owners build them: vectors that grow, of priorities that PeekItem can see.
abbrev pub IsReady : FloodControl → Type 0
IsReady f =
    All
      (λ x.
        (x.queue.items.alloc_count ≡ 0) × All (λ y. y.priority <ℤ pos 99999) x.queue.items.items)
      f.queues.items

All-get {ℓ} :
    {A : Type ℓ} (P : A → Type 0) (xs : List A) (i : ℕ) (x : A)
    → All P xs
    → get_elem? xs i ≡ some x
    → P x
All-get P [] i x a e = cc
All-get P (y ∷ xs) zero x a e = subst P (some-injective _ _ e) a.0
All-get P (y ∷ xs) (suc i) x a e = All-get P xs i x a.1 e

total-set :
    (xs : List IrcQueue) (i : ℕ) (x y : IrcQueue)
    → get_elem? xs i ≡ some x
    → total (set xs i y) + waiting x ≡ total xs + waiting y
total-set [] i x y e = cc
total-set (z ∷ xs) zero x y e = let same : z ≡ x = some-injective _ _ e in rw same (omega arith)
total-set (z ∷ xs) (suc i) x y e = omega (arith, total-set xs i x y e)

-- The next line to send: it is at the front of a queue with lines, of the lowest priority among those, which is below 100.
pub record Next (f : FloodControl) (line : List ℕ) : Type 0 where
  pub source : IrcQueue
  pub index : ℕ
  pub attached : get_elem? f.queues.items index ≡ some source
  pub shown : Queue.peek_item source.queue ≡ ok line
  pub lowest : Bound source.priority f.queues.items
  pub urgent : source.priority <ℤ pos 100

-- A line is sent: it is the next one of a queue with lines and of the lowest priority among those,
-- it leaves that queue, it is counted with its line end, and there was room for it and for a later
-- warning unless nothing had been sent.
pub record Sends (f g : FloodControl) (line : List ℕ) : Type 0 where
  pub next : Next f line
  pub taken :
      (r : Queue) × (Queue.dequeue_item next.source.queue ≡ ok (line, r))
      × (g.queues.items ≡ set f.queues.items next.index (record next.source { queue = r }))
  pub counted : g.bytes_sent ≡ f.bytes_sent + length line + 2
  pub room :
      f.enabled ≡ true → (f.bytes_sent ≡ 0) ⊎ (g.bytes_sent + length flood_msg + 2 ≤ flood_bytes)
  pub left : total g.queues.items + 1 ≡ total f.queues.items
  pub settings : (g.enabled ≡ f.enabled) × (g.plugged ≡ f.plugged)

-- The warning is sent in place of the next line: with flood control on, something sent, and no room
-- for that line and the warning. The control is then plugged, and nothing else has changed.
pub record Warns (f g : FloodControl) : Type 0 where
  pub line : List ℕ
  pub next : Next f line
  pub on : f.enabled ≡ true
  pub busy : 0 < f.bytes_sent
  pub full : flood_bytes < f.bytes_sent + length line + 2 + length flood_msg + 2
  pub state : g ≡ plug f

-- Nothing is sent and nothing changes: the control is on and plugged, or no queue with lines has a
-- priority below 100.
abbrev pub Waits : FloodControl → Type 0
Waits f = ((f.enabled && f.plugged) ≡ true) ⊎ Bound (pos 100) f.queues.items

abbrev pub Sent : FloodControl → FloodControl → List ℕ → Type 0
Sent f g line = Sends f g line ⊎ (Warns f g × (line ≡ flood_msg))

warns :
    (f : FloodControl) (i : ℕ) (x : IrcQueue) (line : List ℕ)
    → Next f line
    → over f line ≡ true
    → (dequeue_from true false i x line f ≡ (plug f, ok (some flood_msg))) × Warns f (plug f)
unfolding dequeue_from
warns f i x line next full = (
  rw (dequeue_from, full),
  record {
    line = line;
    next = next;
    on = ground arith;
    busy = ground arith;
    full = ground arith;
    state = refl;
  },
)

sends :
    (f : FloodControl) (i : ℕ) (x : IrcQueue) (line : List ℕ) (r : Queue)
    → get_elem? f.queues.items i ≡ some x
    → Queue.peek_item x.queue ≡ ok line
    → Queue.dequeue_item x.queue ≡ ok (line, r)
    → length r.items.items + 1 ≡ waiting x
    → x.priority <ℤ pos 100
    → Bound x.priority f.queues.items
    → over f line ≡ false
    → (g : FloodControl) × (dequeue_from true false i x line f ≡ (g, ok (some line)))
      × Sends f g line
unfolding dequeue_from
sends f i x line r at_i shown run size urgent bound fits =
    let y : IrcQueue = record x { queue = r } in
    (
      record f {
        queues = record f.queues { items = set f.queues.items i y };
        bytes_sent = f.bytes_sent + (length line + 2);
      },
      rw (dequeue_from, fits, run),
      record {
        next = record {
          source = x;
          index = i;
          attached = at_i;
          shown = shown;
          lowest = bound;
          urgent = urgent;
        };
        taken = (r, run, refl);
        counted = omega arith;
        room = ground arith;
        left = omega (arith, total-set f.queues.items i x y at_i, size);
        settings = (refl, refl);
      },
    )

abbrev Choice : FloodControl → ℕ → IrcQueue → Type 0
Choice f i x =
    (g : FloodControl) × (line shown : List ℕ) × (Queue.peek_item x.queue ≡ ok shown)
    × (dequeue_from true false i x shown f ≡ (g, ok (some line)))
    × Sent f g line

dequeue_from-Sent :
    (f : FloodControl) (i : ℕ) (x : IrcQueue)
    → IsReady f
    → get_elem? f.queues.items i ≡ some x
    → 0 < waiting x
    → x.priority <ℤ pos 100
    → Bound x.priority f.queues.items
    → Choice f i x
dequeue_from-Sent f i x ready at_i filled urgent bound =
    let own = All-get _ f.queues.items i x ready at_i in
    elim (dequeue_item-cases x.queue own.0) [
      | inl (empty, fails) ↦ absurd (omega arith)
      | inr (line, r, run, size) ↦
          let shown : Queue.peek_item x.queue ≡ ok line =
            peek_item-dequeue_item x.queue own.0 own.1 ∙ ap (λ o. o >>= λ p. ok p.0) run in
          elim (Bool-cases (over f line)) [
            | inl full ↦
                let next : Next f line = record {
                  source = x;
                  index = i;
                  attached = at_i;
                  shown = shown;
                  lowest = bound;
                  urgent = urgent;
                } in
                let (given, w) = warns f i x line next full in
                (plug f, flood_msg, line, shown, given, inr (w, refl))
            | inr fits ↦
                let (g, given, s) = sends f i x line r at_i shown run size urgent bound fits in
                (g, line, line, shown, given, inl s)
          ]
    ]

-- DequeueItem with memory for the warning, over queues that grow on demand and whose priorities
-- PeekItem can see. Either it returns no line and changes nothing, since the control is on and
-- plugged or no queue with lines has a priority below 100. Or it sends the next line of such a
-- queue of the lowest priority, within the budget of 1024 bytes unless nothing had been sent. Or
-- the line would pass the budget, and it sends the warning and plugs the control.
pub dequeue_item-Sent :
    (f : FloodControl)
    → IsReady f
    → ((dequeue_item true false f ≡ (f, ok none)) × Waits f)
      ⊎ ((g : FloodControl) × (line : List ℕ) × (dequeue_item true false f ≡ (g, ok (some line)))
          × Sent f g line)
unfolding dequeue_item
dequeue_item-Sent f ready = elim (Bool-cases (f.enabled && f.plugged)) [
  | inl stopped ↦ inl (rw (dequeue_item, stopped), inl stopped)
  | inr flowing ↦ elim (select_loop-lowest f.queues.items) [
    | inl (nothing, bound) ↦ inl (rw (dequeue_item, flowing, nothing), inr bound)
    | inr (i, x, chosen, at_i, filled, urgent, bound) ↦
        let (g, line, shown, peeked, given, sent) =
          dequeue_from-Sent f i x ready at_i filled urgent bound in
        inr (g, line, rw (dequeue_item, flowing, chosen, at_i, peeked) given, sent)
  ]
]
