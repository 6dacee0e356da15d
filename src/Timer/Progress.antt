-- ===== src/Timer/Progress.antt =====
-- What the loop of CallTimers of src/Timer.cpp does to g_NextCall, whatever the functions of the timers do.
use mathlib.Core.Option.{some-injective}
use shroudbnc.Base.{
  ℕ, zero, suc, ◌+◌, ◌<◌, ◌≡◌, refl, sym, subst, ◌∙◌, List, [], ◌∷◌, ◌++◌, All, Option, none, some,
  Bool, true, false, not, ◌&&◌, ◌==◌, ltb, leb, if◌then◌else◌, get_elem?, arith, Bool-cases,
  Option-cases, inl, inr,
}
use shroudbnc.Timer.{
  Timer, Link, Timers, rescheduled, reschedule, insert, new_timer, mark, cut, destroy, Action,
  creates, reschedules, destroys, act, act_all, Procs, call, call_rescheduled, call_proc,
  call_round, call_loop,
}
use shroudbnc.Timer.Soon.{
  Soon, HasTime, Progress, rescheduled-Sooner, reschedule_timers-Soon, Progress-HasTime,
  Soon-Progress, Progress-Soon, Progress-Sooner, Progress-suc, Progress-append, Progress-set_next,
}

-- What holds of all holds of the one at a place.
All-get :
    (Q : Link → Type 0) (links : List Link) (at : ℕ) (l : Link)
    → All Q links
    → get_elem? links at ≡ some l
    → Q l
All-get Q [] at l p e = cc
All-get Q (m ∷ links) zero l p e = subst Q (some-injective _ _ e) p.0
All-get Q (m ∷ links) (suc at) l p e = All-get Q links at l p.1 e

All-mark : (at : ℕ) (links : List Link) → All HasTime links → All HasTime (mark at links)
unfolding mark
All-mark at [] p = tt
All-mark zero (l ∷ links) p = p
All-mark (suc at) (l ∷ links) p = (p.0, All-mark at links p.1)

All-cut : (at : ℕ) (links : List Link) → All HasTime links → All HasTime (cut at links)
unfolding cut
All-cut at [] p = tt
All-cut zero (l ∷ links) p = p.1
All-cut (suc at) (l ∷ links) p = (p.0, All-cut at links p.1)

-- Functions of timers that reschedule timers to times after the epoch only.
abbrev pub IsTimed : Action → Type 0
IsTimed (creates address interval repeat proc) = Unit
IsTimed (reschedules at next) = 0 < next
IsTimed (destroys at) = Unit

abbrev pub AreTimed : Procs → Type 0
AreTimed procs = (proc time : ℕ) (s : Timers) → All IsTimed (procs proc time s).1

destroy-Soon :
    (now at : ℕ) (s : Timers)
    → All HasTime s.links
    → All (Soon now (destroy now at s).next_call) (destroy now at s).links
unfolding destroy
destroy-Soon now at s p = elim (Bool-cases (ltb 0 s.locks)) [
  | inl held ↦ rw held (reschedule_timers-Soon now (mark at s.links) (All-mark at s.links p))
  | inr free ↦ rw free (reschedule_timers-Soon now (cut at s.links) (All-cut at s.links p))
]

-- The cursor's progress in a state.
unfoldable pub At : ℕ → ℕ → Timers → Type 0
At now at s = Progress now s.next_call at s.links

destroy-At : (now at place : ℕ) (s : Timers) → At now at s → At now at (destroy now place s)
unfolding At
destroy-At now at place s p =
    Soon-Progress now (destroy now place s).next_call at (destroy now place s).links
      (destroy-Soon now place s (Progress-HasTime now s.next_call at s.links p))

reschedule-At :
    (now at place next : ℕ) (s : Timers)
    → 0 < next
    → At now at s
    → At now at (reschedule place next s)
unfolding At reschedule
reschedule-At now at place next s h p =
    let (sooner, set, le) = rescheduled-Sooner next s.next_call h in
    let g = rescheduled next s.next_call in
    Progress-set_next now g at place next s.links h (set, le)
      (Progress-Sooner now s.next_call g at s.links sooner p)

pub act-At :
    (now at : ℕ) (a : Action) (s : Timers)
    → 0 < now
    → IsTimed a
    → At now at s
    → At now at (act now a s)
unfolding At act new_timer insert
act-At now at (creates address interval repeat proc) s h timed p =
    let g = rescheduled (now + interval) s.next_call in
    let (sooner, set, le) = rescheduled-Sooner (now + interval) s.next_call (omega (arith, h)) in
    Progress-append now g at _ s.links (omega (arith, h), λ v ahead. (set, le))
      (Progress-Sooner now s.next_call g at s.links sooner p)
act-At now at (reschedules place next) s h timed p = reschedule-At now at place next s timed p
act-At now at (destroys place) s h timed p = destroy-At now at place s p

act_all-At :
    (now at : ℕ) (actions : List Action) (s : Timers)
    → 0 < now
    → All IsTimed actions
    → At now at s
    → At now at (act_all now actions s)
unfolding act_all
act_all-At now at [] s h timed p = p
act_all-At now at (a ∷ actions) s h timed p =
    act_all-At now at actions (act now a s) h timed.1 (act-At now at a s h timed.0 p)

if-At :
    (now at : ℕ) (b : Bool) (s t : Timers)
    → At now at s
    → At now at t
    → At now at (if b then s else t)
if-At now at true s t p q = p
if-At now at false s t p q = q

pub none-ne-some : (o : Option Timers) (t : Timers) → o ≡ none → ¬ (o ≡ some t)
none-ne-some o t e f = cc

-- Call keeps the progress, whatever the function of the timer does.
call-At :
    (procs : Procs) (now at place : ℕ) (t : Timer) (s w : Timers)
    → 0 < now
    → AreTimed procs
    → At now at s
    → call procs now place t s ≡ some w
    → At now at w
unfolding call call_rescheduled call_proc At
call-At procs now at place t s w h timed p e =
    let again = not (t.interval == 0) && t.repeat in
    let u : Timers = (if again then reschedule place (now + t.interval) s else s) in
    let q : At now at u =
      if-At now at again (reschedule place (now + t.interval) s) s
        (reschedule-At now at place (now + t.interval) s (omega (arith, h)) p) p in
    elim (Option-cases t.proc) [
      | inl bare ↦
          let run : call procs now place t s
              ≡ some (if t.interval == 0 then destroy now place u else u) =
            rw (call, call_rescheduled, bare) refl in
          subst (At now at) (some-injective _ _ (sym run ∙ e))
            (if-At now at (t.interval == 0) (destroy now place u) u (destroy-At now at place u q) q)
      | inr (proc, here) ↦
          let v : Timers = record u { calls = u.calls ++ (t.address, t.next) ∷ [] } in
          let done = procs proc t.next v in
          let after = act_all now done.1 v in
          let r = act_all-At now at done.1 v h (timed proc t.next v) q in
          elim (Option-cases (get_elem? after.links place)) [
            | inl gone ↦
                let run : call procs now place t s ≡ none =
                  rw (call, call_rescheduled, call_proc, here, gone) refl in
                absurd (none-ne-some _ w run e)
            | inr (l, there) ↦ elim (Bool-cases l.valid) [
              | inr marked ↦
                  let run : call procs now place t s ≡ none =
                    rw (call, call_rescheduled, call_proc, here, there, marked) refl in
                  absurd (none-ne-some _ w run e)
              | inl valid ↦
                  let run : call procs now place t s
                      ≡ some (if done.0 && t.repeat then after else destroy now place after) =
                    rw (call, call_rescheduled, call_proc, here, there, valid) refl in
                  subst (At now at) (some-injective _ _ (sym run ∙ e)) (
                    if-At now at (done.0 && t.repeat) after (destroy now place after) r
                      (destroy-At now at place after r))
            ]
          ]
    ]

-- A round of the loop brings the cursor one place on.
call_round-At :
    (procs : Procs) (now at : ℕ) (l : Link) (s t : Timers)
    → 0 < now
    → AreTimed procs
    → get_elem? s.links at ≡ some l
    → HasTime l
    → At now at s
    → call_round procs now at l s ≡ some t
    → At now (suc at) t
unfolding call_round At
call_round-At procs now at l s t h timed here has p e = elim (Bool-cases l.valid) [
  | inr marked ↦
      let run : call_round procs now at l s ≡ some s = ground (arith, marked) in
      subst (At now (suc at)) (some-injective _ _ (sym run ∙ e))
        (Progress-suc now s.next_call at l s.links here (has, λ v. cc) p)
  | inl valid ↦ elim (Bool-cases (leb l.value.next now)) [
    | inl due ↦
        let run : call_round procs now at l s ≡ call procs now at l.value s =
          ground (arith, valid, due) in
        call-At procs now (suc at) at l.value s t h timed
          (Progress-suc now s.next_call at l s.links here
            (has, λ v ahead. absurd (ground (arith, due, ahead))) p)
          (sym run ∙ e)
    | inr later ↦
        let g = rescheduled l.value.next s.next_call in
        let run : call_round procs now at l s ≡ some (record s { next_call = g }) =
          ground (arith, valid, later) in
        let (sooner, set, le) = rescheduled-Sooner l.value.next s.next_call has in
        subst (At now (suc at)) (some-injective _ _ (sym run ∙ e)) (
          Progress-suc now g at l s.links here (has, λ v ahead. (set, le))
            (Progress-Sooner now s.next_call g at s.links sooner p))
  ]
]

pub call_loop-Soon :
    (procs : Procs) (now fuel at : ℕ) (s t : Timers)
    → 0 < now
    → AreTimed procs
    → At now at s
    → call_loop procs now fuel at s ≡ some t
    → All (Soon now t.next_call) t.links
unfolding call_loop At
call_loop-Soon procs now zero at s t h timed p e = elim (Option-cases (get_elem? s.links at)) [
  | inl done ↦
      let run : call_loop procs now zero at s ≡ some s = rw (call_loop, done) refl in
      subst (λ w. All (Soon now w.next_call) w.links) (some-injective _ _ (sym run ∙ e))
        (Progress-Soon now s.next_call at s.links done p)
  | inr (l, here) ↦
      let run : call_loop procs now zero at s ≡ none = rw (call_loop, here) refl in
      absurd (none-ne-some _ t run e)
]
call_loop-Soon procs now (suc fuel) at s t h timed p e =
    elim (Option-cases (get_elem? s.links at)) [
      | inl done ↦
          let run : call_loop procs now (suc fuel) at s ≡ some s = rw (call_loop, done) refl in
          subst (λ w. All (Soon now w.next_call) w.links) (some-injective _ _ (sym run ∙ e))
            (Progress-Soon now s.next_call at s.links done p)
      | inr (l, here) ↦ elim (Option-cases (call_round procs now at l s)) [
        | inl fails ↦
            let run : call_loop procs now (suc fuel) at s ≡ none =
              rw (call_loop, here, fails) refl in
            absurd (none-ne-some _ t run e)
        | inr (w, goes) ↦
            let run : call_loop procs now (suc fuel) at s ≡ call_loop procs now fuel (suc at) w =
              rw (call_loop, here, goes) refl in
            let has =
              All-get HasTime s.links at l (Progress-HasTime now s.next_call at s.links p) here in
            call_loop-Soon procs now fuel (suc at) w t h timed
              (call_round-At procs now at l s w h timed here has p goes) (sym run ∙ e)
      ]
    ]
