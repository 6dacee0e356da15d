-- ===== src/Timer.antt =====
-- CTimer of src/Timer.cpp and the list of all timers, a CList of src/List.h. The list is the row of
-- its links, and a link is known by its place, which stays the same while a cursor holds a lock. A time is its
-- number of seconds. `calls` records the calls of the functions of timers.
pub mod Rounds
pub mod Calls
pub mod Soon
pub mod Progress
pub mod Schedule
use shroudbnc.Base.{
  ℕ, zero, suc, ◌+◌, ◌-◌, List, [], ◌∷◌, ◌++◌, Option, none, some, Bool, true, false, ◌==◌, ltb,
  leb, not, ◌&&◌, ◌||◌, if◌then◌else◌, get_elem?,
}

-- `proc` tells m_Proc and m_Cookie apart from others, `none` for a null pointer; `address` tells the timers apart.
pub record Timer : Type 0 where
  pub address : ℕ
  pub interval : ℕ
  pub repeat : Bool
  pub proc : Option ℕ
  pub next : ℕ

-- link_t; its neighbours are those in the row.
pub record Link : Type 0 where
  pub value : Timer
  pub valid : Bool

-- g_Timers with its locks, and g_NextCall.
pub record Timers : Type 0 where
  pub links : List Link
  pub locks : ℕ
  pub next_call : ℕ
  pub calls : List (ℕ × ℕ)

-- Reschedule for the time `next`: g_NextCall afterwards.
unfoldable pub rescheduled : ℕ → ℕ → ℕ
rescheduled next next_call = if ltb next next_call || (next_call == 0) then next else next_call

-- Reschedule of the timer at the place `at` in the list.
unfoldable pub set_next : ℕ → ℕ → List Link → List Link
set_next at next [] = []
set_next zero next (l ∷ links) = record l { value = record l.value { next = next } } ∷ links
set_next (suc at) next (l ∷ links) = l ∷ set_next at next links

unfoldable pub reschedule : ℕ → ℕ → Timers → Timers
reschedule at next s = record s {
  links = set_next at next s.links;
  next_call = rescheduled next s.next_call;
}

-- Insert of CList, with memory.
unfoldable pub insert : Timer → List Link → List Link
insert t links = links ++ (record { value = t; valid = true }) ∷ []

-- The constructor of CTimer at the time `now`.
unfoldable pub new_timer : ℕ → ℕ → ℕ → Bool → Option ℕ → Timers → Timers
new_timer now address interval repeat proc s =
    let t : Timer = record {
      address = address;
      interval = interval;
      repeat = repeat;
      proc = proc;
      next = now + interval;
    } in
    record s { links = insert t s.links; next_call = rescheduled (now + interval) s.next_call }

-- The loop of RescheduleTimers; the cursor passes over the links that are not valid.
unfoldable pub best_loop : ℕ → List Link → ℕ
best_loop best [] = best
best_loop best (l ∷ links) =
    best_loop (if l.valid && ltb l.value.next best then l.value.next else best) links

-- RescheduleTimers: g_NextCall afterwards.
unfoldable pub reschedule_timers : ℕ → List Link → ℕ
reschedule_timers now links = best_loop (now + 120) links

-- The links that Unlock of CList keeps when the last lock goes.
unfoldable pub keep_valid : List Link → List Link
keep_valid [] = []
keep_valid (l ∷ links) = let rest = keep_valid links in if l.valid then l ∷ rest else rest

-- Lock and Unlock of CList; `none` is the failure of the assertion.
unfoldable pub lock : Timers → Timers
lock s = record s { locks = s.locks + 1 }

unfoldable pub unlock : Timers → Option Timers
unlock s =
    if s.locks == 0
    then none
    else if s.locks == 1
    then some (record s { links = keep_valid s.links; locks = 0 })
    else some (record s { locks = s.locks - 1 })

-- The destructor of the timer at the place `at` in the list.
unfoldable pub mark : ℕ → List Link → List Link
mark at [] = []
mark zero (l ∷ links) = record l { valid = false } ∷ links
mark (suc at) (l ∷ links) = l ∷ mark at links

unfoldable pub cut : ℕ → List Link → List Link
cut at [] = []
cut zero (l ∷ links) = links
cut (suc at) (l ∷ links) = l ∷ cut at links

unfoldable pub destroy : ℕ → ℕ → Timers → Timers
destroy now at s =
    let links = (if ltb 0 s.locks then mark at s.links else cut at s.links) in
    record s { links = links; next_call = reschedule_timers now links }

-- What a function of a timer may do to the list: create a timer, reschedule one, destroy one.
pub data Action : Type 0 where
  creates : ℕ → ℕ → Bool → Option ℕ → Action
  reschedules : ℕ → ℕ → Action
  destroys : ℕ → Action

unfoldable pub act : ℕ → Action → Timers → Timers
act now (creates address interval repeat proc) s = new_timer now address interval repeat proc s
act now (reschedules at next) s = reschedule at next s
act now (destroys at) s = destroy now at s

unfoldable pub act_all : ℕ → List Action → Timers → Timers
act_all now [] s = s
act_all now (a ∷ actions) s = act_all now actions (act now a s)

-- The functions of the timers: what one returns for a time and does to the list, in a state of it.
abbrev pub Procs : Type 0
Procs = ℕ → ℕ → Timers → Bool × List Action

-- The call of m_Proc in Call, for the timer `t` at the place `at`, and what follows. `none` is a fault: the
-- function has destroyed the timer, and Call goes on to read its members.
unfoldable pub call_proc : Procs → ℕ → ℕ → Timer → ℕ → Timers → Option Timers
call_proc procs now at t proc s =
    let u : Timers = record s { calls = s.calls ++ (t.address, t.next) ∷ [] } in
    let (returned, actions) = procs proc t.next u in
    let v = act_all now actions u in
    elim (get_elem? v.links at) [
      | none ↦ none
      | some l ↦
          if not l.valid then none else some (if returned && t.repeat then v else destroy now at v)
    ]

-- Call behind the reschedule.
unfoldable pub call_rescheduled : Procs → ℕ → ℕ → Timer → Timers → Option Timers
call_rescheduled procs now at t s = elim t.proc [
  | none ↦ some (if t.interval == 0 then destroy now at s else s)
  | some proc ↦ call_proc procs now at t proc s
]

-- Call of the timer `t` at the place `at`, which a lock holds.
unfoldable pub call : Procs → ℕ → ℕ → Timer → Timers → Option Timers
call procs now at t s =
    call_rescheduled procs now at t
      (if not (t.interval == 0) && t.repeat then reschedule at (now + t.interval) s else s)

-- The round of the loop of CallTimers for the link at a place. The cursor passes over a link that is not valid.
unfoldable pub call_round : Procs → ℕ → ℕ → Link → Timers → Option Timers
call_round procs now at l s =
    if not l.valid
    then some s
    else if leb l.value.next now
    then call procs now at l.value s
    else some (record s { next_call = rescheduled l.value.next s.next_call })

-- The loop from the place `at` on, which comes to the timers that are created meanwhile. `none` is a fault, or says that the fuel ran out.
unfoldable pub call_loop : Procs → ℕ → ℕ → ℕ → Timers → Option Timers
call_loop procs now zero at s = elim (get_elem? s.links at) [ none ↦ some s | some l ↦ none ]
call_loop procs now (suc fuel) at s = elim (get_elem? s.links at) [
  | none ↦ some s
  | some l ↦ elim (call_round procs now at l s) [
    | none ↦ none
    | some t ↦ call_loop procs now fuel (suc at) t
  ]
]

-- CallTimers at the time `now`.
unfoldable pub call_timers : Procs → ℕ → ℕ → Timers → Option Timers
call_timers procs now fuel s =
    elim (call_loop procs now fuel 0 (record (lock s) { next_call = 0 })) [
      | none ↦ none
      | some t ↦ unlock t
    ]

-- GetNextCall at the time `now`.
unfoldable pub get_next_call : ℕ → Timers → ℕ
get_next_call now s = if s.next_call == 0 then now + 120 else s.next_call
