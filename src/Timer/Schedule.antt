-- ===== src/Timer/Schedule.antt =====
-- g_NextCall of src/Timer.cpp, the time until which the main loop may sleep.
use mathlib.Core.Option.{some-injective}
use shroudbnc.Base.{
  ℕ, ◌-◌, ◌≤◌, ◌<◌, ◌≡◌, refl, sym, subst, ◌∙◌, List, [], ◌∷◌, All, none, some, true, ◌==◌, length,
  arith, Bool-cases, Option-cases, inl, inr,
}
use shroudbnc.Timer.{
  Link, Timers, lock, unlock, keep_valid, Action, act, Procs, call_loop, call_timers, get_next_call,
}
use shroudbnc.Timer.Soon.{
  Soon, Progress, Soon-HasTime, keep_valid-All, Soon-Progress, HasTime-Progress,
}
use shroudbnc.Timer.Progress.{IsTimed, AreTimed, At, act-At, none-ne-some, call_loop-Soon}

All-later :
    (now later g : ℕ) (links : List Link)
    → now ≤ later
    → All (Soon now g) links
    → All (Soon later g) links
All-later now later g [] h p = tt
All-later now later g (l ∷ links) h p =
    ((p.0.0, λ v ahead. p.0.1 v (omega (arith, h, ahead))), All-later now later g links h p.1)

-- The states of g_Timers and g_NextCall at a time, from the start of the program on: time passes, timers are made, rescheduled to a time after
-- the epoch, and destroyed, and the main loop calls CallTimers, where the functions of the timers may do the same.
pub data Reaches : ℕ → Timers → Type 0 where
  starts :
      {now : ℕ}
      → 0 < now
      → Reaches now (record { links = []; locks = 0; next_call = 0; calls = [] })
  passes : {now later : ℕ} {s : Timers} → now ≤ later → Reaches now s → Reaches later s
  acts : {now : ℕ} {s : Timers} (a : Action) → IsTimed a → Reaches now s → Reaches now (act now a s)
  calls :
      {now : ℕ} {s t : Timers} (procs : Procs) (fuel : ℕ)
      → AreTimed procs
      → Reaches now s
      → call_timers procs now fuel s ≡ some t
      → Reaches now t

-- What is known of each state.
record IsScheduled (now : ℕ) (s : Timers) : Type 0 where
  begun : 0 < now
  soon : All (Soon now s.next_call) s.links

unlock-Soon :
    (now : ℕ) (s t : Timers)
    → All (Soon now s.next_call) s.links
    → unlock s ≡ some t
    → All (Soon now t.next_call) t.links
unfolding unlock
unlock-Soon now s t p e = elim (Bool-cases (s.locks == 0)) [
  | inl none_held ↦
      let fails : unlock s ≡ none = ground (arith, none_held) in absurd (not_both t (sym fails ∙ e))
  | inr held ↦ elim (Bool-cases (s.locks == 1)) [
    | inl last ↦
        let run : unlock s ≡ some (record s { links = keep_valid s.links; locks = 0 }) =
          ground (arith, held, last) in
        subst (λ u. All (Soon now u.next_call) u.links) (some-injective _ _ (sym run ∙ e))
          (keep_valid-All (Soon now s.next_call) s.links p)
    | inr more ↦
        let run : unlock s ≡ some (record s { locks = s.locks - 1 }) = ground (arith, held, more) in
        subst (λ u. All (Soon now u.next_call) u.links) (some-injective _ _ (sym run ∙ e)) p
  ]
]
  where
    not_both : (u : Timers) → ¬ (none ≡ some u)
    not_both u f = cc

-- All links are soon when the cursor is behind the last one.
All-Progress :
    (now g : ℕ) (links : List Link) → Progress now g (length links) links → All (Soon now g) links
All-Progress now g [] p = tt
All-Progress now g (l ∷ links) p = (p.0, All-Progress now g links p.1)

Soon-anywhere :
    (now g : ℕ) (links : List Link) → ((at : ℕ) → Progress now g at links) → All (Soon now g) links
Soon-anywhere now g links p = All-Progress now g links (p (length links))

act-Soon :
    (now : ℕ) (a : Action) (s : Timers)
    → 0 < now
    → IsTimed a
    → All (Soon now s.next_call) s.links
    → All (Soon now (act now a s).next_call) (act now a s).links
unfolding At
act-Soon now a s h timed p =
    Soon-anywhere now (act now a s).next_call (act now a s).links
      (λ at. act-At now at a s h timed (Soon-Progress now s.next_call at s.links p))

Reaches-IsScheduled : (now : ℕ) (s : Timers) → Reaches now s → IsScheduled now s
unfolding call_timers lock At
Reaches-IsScheduled now s (starts h) = record { begun = h; soon = tt }
Reaches-IsScheduled later s (passes {now} h r) =
    let before = Reaches-IsScheduled now s r in
    record {
      begun = omega (arith, before.begun, h);
      soon = All-later now later s.next_call s.links h before.soon;
    }
Reaches-IsScheduled now _ (acts {s = s} a timed r) =
    let before = Reaches-IsScheduled now s r in
    record { begun = before.begun; soon = act-Soon now a s before.begun timed before.soon }
Reaches-IsScheduled now t (calls {s = s} procs fuel timed r e) =
    let before = Reaches-IsScheduled now s r in
    let held : Timers = record (lock s) { next_call = 0 } in
    elim (Option-cases (call_loop procs now fuel 0 held)) [
      | inl fails ↦
          let run : call_timers procs now fuel s ≡ none = rw (call_timers, fails) refl in
          absurd (none-ne-some _ t run e)
      | inr (w, goes) ↦
          let run : call_timers procs now fuel s ≡ unlock w = rw (call_timers, goes) refl in
          record {
            begun = before.begun;
            soon =
                unlock-Soon now w t
                  (call_loop-Soon procs now fuel 0 held w before.begun timed
                    (HasTime-Progress now 0 s.links
                      (Soon-HasTime now s.next_call s.links before.soon))
                    goes)
                  (sym run ∙ e);
          }
    ]

-- In every state of the timers that creating, rescheduling and destroying timers, CallTimers and the passing of time lead to, also where the functions of timers create, reschedule and destroy timers while CallTimers runs, and no timer is rescheduled to the epoch, a timer of the list whose next call lies ahead is due no earlier than the time that GetNextCall gives
-- the main loop to wake up at.
pub Reaches-get_next_call :
    (now : ℕ) (s : Timers)
    → Reaches now s
    → All (λ l. l.valid ≡ true → now < l.value.next → get_next_call now s ≤ l.value.next) s.links
unfolding get_next_call
Reaches-get_next_call now s r = in_time s.links (Reaches-IsScheduled now s r).soon
  where
    in_time :
        (links : List Link)
        → All (Soon now s.next_call) links
        → All (λ l. l.valid ≡ true → now < l.value.next → get_next_call now s ≤ l.value.next) links
    in_time [] p = tt
    in_time (l ∷ links) p = (λ v ahead. ground (arith, p.0.1 v ahead), in_time links p.1)
