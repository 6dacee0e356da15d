-- ===== src/Timer/Soon.antt =====
-- What CallTimers and RescheduleTimers of src/Timer.cpp do to g_NextCall.
use mathlib.Core.Option.{some-injective}
use shroudbnc.Base.{
  ℕ, zero, suc, ◌+◌, ◌≤◌, ◌<◌, ◌≡◌, sym, subst, List, [], ◌∷◌, ◌++◌, All, none, some, true, ◌&&◌,
  ltb, if◌then◌else◌, get_elem?, arith, Bool-cases, inl, inr,
}
use shroudbnc.Timer.{Link, rescheduled, best_loop, reschedule_timers, set_next, keep_valid}

-- The main loop wakes up in time for the timer: g_NextCall is set and not later than its next call, if that lies ahead.
abbrev pub Soon : ℕ → ℕ → Link → Type 0
Soon now g l =
    (0 < l.value.next) × (l.valid ≡ true → now < l.value.next → (0 < g) × (g ≤ l.value.next))

-- A time for g_NextCall that is as good as the one before.
abbrev pub Sooner : ℕ → ℕ → Type 0
Sooner g h = 0 < g → (0 < h) × (h ≤ g)

pub All-Soon :
    (now g h : ℕ) (links : List Link) → Sooner g h → All (Soon now g) links → All (Soon now h) links
All-Soon now g h [] e p = tt
All-Soon now g h (l ∷ links) e p = (
  (p.0.0, λ v ahead. (ground (arith, p.0.1 v ahead, e), ground (arith, p.0.1 v ahead, e))),
  All-Soon now g h links e p.1,
)

pub rescheduled-Sooner :
    (next g : ℕ)
    → 0 < next
    → Sooner g (rescheduled next g) × (0 < rescheduled next g) × (rescheduled next g ≤ next)
unfolding rescheduled
rescheduled-Sooner next g h =
    (λ p. (ground (arith, h, p), ground (arith, h, p)), ground (arith, h), ground (arith, h))

best_loop-le : (best : ℕ) (links : List Link) → best_loop best links ≤ best
unfolding best_loop
best_loop-le best [] = omega arith
best_loop-le best (l ∷ links) =
    ground
      (arith, best_loop-le (if l.valid && ltb l.value.next best then l.value.next else best) links)

abbrev pub HasTime : Link → Type 0
HasTime l = 0 < l.value.next

pub Soon-HasTime : (now g : ℕ) (links : List Link) → All (Soon now g) links → All HasTime links
Soon-HasTime now g [] p = tt
Soon-HasTime now g (l ∷ links) p = (p.0.0, Soon-HasTime now g links p.1)

best_loop-Soon :
    (now best : ℕ) (links : List Link)
    → 0 < best
    → All HasTime links
    → (0 < best_loop best links) × All (Soon now (best_loop best links)) links
unfolding best_loop
best_loop-Soon now best [] h p = (h, tt)
best_loop-Soon now best (l ∷ links) h p =
    let better = (if l.valid && ltb l.value.next best then l.value.next else best) in
    let (some_time, others) = best_loop-Soon now better links (ground (arith, h, p.0)) p.1 in
    (
      some_time,
      ((p.0, λ v ahead. (some_time, ground (arith, v, best_loop-le better links))), others),
    )

-- RescheduleTimers looks at every timer.
pub reschedule_timers-Soon :
    (now : ℕ) (links : List Link)
    → All HasTime links
    → All (Soon now (reschedule_timers now links)) links
unfolding reschedule_timers
reschedule_timers-Soon now links p = (best_loop-Soon now (now + 120) links (omega arith) p).1

-- The cursor is at a place: the links before it are soon, the others have a time.
abbrev pub Progress : ℕ → ℕ → ℕ → List Link → Type 0
Progress now g at [] = Unit
Progress now g zero (l ∷ links) = HasTime l × Progress now g zero links
Progress now g (suc at) (l ∷ links) = Soon now g l × Progress now g at links

pub Progress-HasTime :
    (now g at : ℕ) (links : List Link) → Progress now g at links → All HasTime links
Progress-HasTime now g at [] p = tt
Progress-HasTime now g zero (l ∷ links) p = (p.0, Progress-HasTime now g zero links p.1)
Progress-HasTime now g (suc at) (l ∷ links) p = (p.0.0, Progress-HasTime now g at links p.1)

pub Soon-Progress :
    (now g at : ℕ) (links : List Link) → All (Soon now g) links → Progress now g at links
Soon-Progress now g at [] p = tt
Soon-Progress now g zero (l ∷ links) p = (p.0.0, Soon-Progress now g zero links p.1)
Soon-Progress now g (suc at) (l ∷ links) p = (p.0, Soon-Progress now g at links p.1)

pub HasTime-Progress : (now g : ℕ) (links : List Link) → All HasTime links → Progress now g 0 links
HasTime-Progress now g [] p = tt
HasTime-Progress now g (l ∷ links) p = (p.0, HasTime-Progress now g links p.1)

-- At the end of the list.
pub Progress-Soon :
    (now g at : ℕ) (links : List Link)
    → get_elem? links at ≡ none
    → Progress now g at links
    → All (Soon now g) links
Progress-Soon now g at [] e p = tt
Progress-Soon now g zero (l ∷ links) e p = cc
Progress-Soon now g (suc at) (l ∷ links) e p = (p.0, Progress-Soon now g at links e p.1)

Soon-Sooner : (now g h : ℕ) (l : Link) → Sooner g h → Soon now g l → Soon now h l
Soon-Sooner now g h l e p =
    (p.0, λ v ahead. (ground (arith, p.1 v ahead, e), ground (arith, p.1 v ahead, e)))

pub Progress-Sooner :
    (now g h at : ℕ) (links : List Link)
    → Sooner g h
    → Progress now g at links
    → Progress now h at links
Progress-Sooner now g h at [] e p = tt
Progress-Sooner now g h zero (l ∷ links) e p = (p.0, Progress-Sooner now g h zero links e p.1)
Progress-Sooner now g h (suc at) (l ∷ links) e p =
    (Soon-Sooner now g h l e p.0, Progress-Sooner now g h at links e p.1)

-- The cursor proceeds.
pub Progress-suc :
    (now g at : ℕ) (l : Link) (links : List Link)
    → get_elem? links at ≡ some l
    → Soon now g l
    → Progress now g at links
    → Progress now g (suc at) links
Progress-suc now g at l [] e p q = tt
Progress-suc now g zero l (m ∷ links) e p q =
    (subst (Soon now g) (sym (some-injective _ _ e)) p, q.1)
Progress-suc now g (suc at) l (m ∷ links) e p q = (q.0, Progress-suc now g at l links e p q.1)

-- A new timer, a timer with another time, both in time for g_NextCall.
pub Progress-append :
    (now g at : ℕ) (l : Link) (links : List Link)
    → Soon now g l
    → Progress now g at links
    → Progress now g at (links ++ l ∷ [])
Progress-append now g zero l [] p q = (p.0, tt)
Progress-append now g (suc at) l [] p q = (p, tt)
Progress-append now g zero l (m ∷ links) p q = (q.0, Progress-append now g zero l links p q.1)
Progress-append now g (suc at) l (m ∷ links) p q = (q.0, Progress-append now g at l links p q.1)

pub Progress-set_next :
    (now g at place next : ℕ) (links : List Link)
    → 0 < next
    → (0 < g) × (g ≤ next)
    → Progress now g at links
    → Progress now g at (set_next place next links)
unfolding set_next
Progress-set_next now g at place next [] h s q = tt
Progress-set_next now g zero zero next (m ∷ links) h s q = (h, q.1)
Progress-set_next now g (suc at) zero next (m ∷ links) h s q = ((h, λ v ahead. s), q.1)
Progress-set_next now g zero (suc place) next (m ∷ links) h s q =
    (q.0, Progress-set_next now g zero place next links h s q.1)
Progress-set_next now g (suc at) (suc place) next (m ∷ links) h s q =
    (q.0, Progress-set_next now g at place next links h s q.1)

pub keep_valid-All :
    (Q : Link → Type 0) (links : List Link) → All Q links → All Q (keep_valid links)
unfolding keep_valid
keep_valid-All Q [] p = tt
keep_valid-All Q (l ∷ links) p = elim (Bool-cases l.valid) [
  | inl v ↦
      let e : keep_valid (l ∷ links) ≡ l ∷ keep_valid links = ground (arith, v) in
      subst (All Q) (sym e) (p.0, keep_valid-All Q links p.1)
  | inr m ↦
      let e : keep_valid (l ∷ links) ≡ keep_valid links = ground (arith, m) in
      subst (All Q) (sym e) (keep_valid-All Q links p.1)
]
