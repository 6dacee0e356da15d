-- ===== src/Timer/Rounds.antt =====
-- What Call of src/Timer.cpp leaves of a timer whose function leaves the list of timers alone.
use shroudbnc.Base.{
  ℕ, ◌+◌, ◌≡◌, refl, ap, ◌∙◌, List, [], ◌∷◌, ◌++◌, length, get_elem?, Option, none, some, Bool,
  true, false, ◌==◌, not, ◌&&◌, if◌then◌else◌, Bool-cases, inl, inr,
}
use shroudbnc.Timer.{
  Timer, Link, Timers, rescheduled, set_next, reschedule, reschedule_timers, mark, destroy, act_all,
  Action, Procs, call, call_rescheduled, call_proc,
}

-- The functions of timers leave the list of timers alone; `returns` is what they return.
abbrev pub AreQuiet : Procs → (ℕ → ℕ → Bool) → Type 0
AreQuiet procs returns = (proc time : ℕ) (s : Timers) → procs proc time s ≡ (returns proc time, [])

-- The link at a place, between others.
pub get_elem?-middle :
    (done rest : List Link) (l : Link) → get_elem? (done ++ l ∷ rest) (length done) ≡ some l
get_elem?-middle [] rest l = refl
get_elem?-middle (m ∷ done) rest l = get_elem?-middle done rest l

set_next-middle :
    (next : ℕ) (done rest : List Link) (l : Link)
    → set_next (length done) next (done ++ l ∷ rest)
      ≡ done ++ (record l { value = record l.value { next = next } }) ∷ rest
unfolding set_next
set_next-middle next [] rest l = refl
set_next-middle next (m ∷ done) rest l = ap (λ z. m ∷ z) (set_next-middle next done rest l)

mark-middle :
    (done rest : List Link) (l : Link)
    → mark (length done) (done ++ l ∷ rest) ≡ done ++ (record l { valid = false }) ∷ rest
unfolding mark
mark-middle [] rest l = refl
mark-middle (m ∷ done) rest l = ap (λ z. m ∷ z) (mark-middle done rest l)

-- The state with the link `l` between others, under one lock.
abbrev pub state : ℕ → List (ℕ × ℕ) → List Link → Link → List Link → Timers
state g calls done l rest = record {
  links = done ++ l ∷ rest;
  locks = 1;
  next_call = g;
  calls = calls;
}

-- A timer with its time after Call.
abbrev pub again_later : ℕ → Timer → Timer
again_later now t =
    if not (t.interval == 0) && t.repeat then record t { next = now + t.interval } else t

-- What Call leaves where the function leaves the list alone: the timer's link, which is kept or marked.
unfoldable pub Ends :
    ℕ → List (ℕ × ℕ) → List Link → List Link → Timer → Bool → Option Timers → Type 0
Ends now calls done rest t stays o =
    (g : ℕ) × (o
      ≡ some (state g calls done (record { value = again_later now t; valid = stays }) rest))

destroy-Ends :
    (now g : ℕ) (calls : List (ℕ × ℕ)) (done rest : List Link) (t : Timer) (stays : Bool)
    → (h : ℕ) × ((if stays
          then state g calls done (record { value = t; valid = true }) rest
          else destroy now
              (length done)
              (state g calls done (record { value = t; valid = true }) rest))
        ≡ state h calls done (record { value = t; valid = stays }) rest)
unfolding destroy
destroy-Ends now g calls done rest t true = (g, refl)
destroy-Ends now g calls done rest t false =
    let l : Link = record { value = t; valid = true } in
    let marked = mark-middle done rest l in
    (
      reschedule_timers now (mark (length done) (done ++ l ∷ rest)),
      ap
          (λ z. record {
            links = z;
            locks = 1;
            next_call = reschedule_timers now (mark (length done) (done ++ l ∷ rest));
            calls = calls;
          })
          marked,
    )

-- The call's first part, which moves the time of a timer that repeats.
again-state :
    (now g : ℕ) (calls : List (ℕ × ℕ)) (done rest : List Link) (t : Timer)
    → (h : ℕ) × ((if not (t.interval == 0) && t.repeat
          then reschedule
              (length done)
              (now + t.interval)
              (state g calls done (record { value = t; valid = true }) rest)
          else state g calls done (record { value = t; valid = true }) rest)
        ≡ state h calls done (record { value = again_later now t; valid = true }) rest)
unfolding reschedule
again-state now g calls done rest t = elim (Bool-cases (not (t.interval == 0) && t.repeat)) [
  | inr once ↦ (g, rw once refl)
  | inl again ↦
      let h = rescheduled (now + t.interval) g in
      (
        h,
        rw again (
            ap (λ z. record { links = z; locks = 1; next_call = h; calls = calls })
              (set_next-middle (now + t.interval) done rest (record { value = t; valid = true }))),
      )
]

either_way : (x y : Timers) (b : Bool) → (if b then x else y) ≡ (if not b then y else x)
either_way x y true = refl
either_way x y false = refl

call_rescheduled-bare :
    (procs : Procs) (now at : ℕ) (t : Timer) (u : Timers)
    → t.proc ≡ none
    → call_rescheduled procs now at t u ≡ some (if t.interval == 0 then destroy now at u else u)
unfolding call_rescheduled
call_rescheduled-bare procs now at t u bare =
    ap
      (λ o. elim o as (λ z. Option Timers) [
        | none ↦ some (if t.interval == 0 then destroy now at u else u)
        | some proc ↦ call_proc procs now at t proc u
      ])
      bare

call_rescheduled-proc :
    (procs : Procs) (now at : ℕ) (t : Timer) (u : Timers) (proc : ℕ)
    → t.proc ≡ some proc
    → call_rescheduled procs now at t u ≡ call_proc procs now at t proc u
unfolding call_rescheduled
call_rescheduled-proc procs now at t u proc here =
    ap
      (λ o. elim o as (λ z. Option Timers) [
        | none ↦ some (if t.interval == 0 then destroy now at u else u)
        | some p ↦ call_proc procs now at t p u
      ])
      here

pub call-bare :
    (procs : Procs) (now g : ℕ) (calls : List (ℕ × ℕ)) (done rest : List Link) (t : Timer)
    → t.proc ≡ none
    → Ends now calls done rest t (not (t.interval == 0)) (
        call procs now
          (length done)
          t
          (state g calls done (record { value = t; valid = true }) rest))
unfolding call call_rescheduled Ends
call-bare procs now g calls done rest t bare =
    let at = length done in
    let (h, moved) = again-state now g calls done rest t in
    let u = state h calls done (record { value = again_later now t; valid = true }) rest in
    let (k, ends) =
      destroy-Ends now h calls done rest (again_later now t) (not (t.interval == 0)) in
    let run = call_rescheduled-bare procs now at t u bare in
    (
      k,
      ap (call_rescheduled procs now at t) moved
          ∙ run
          ∙ ap some (either_way (destroy now at u) u (t.interval == 0) ∙ ends),
    )

call_proc-quiet :
    (procs : Procs) (returns : ℕ → ℕ → Bool) (now g : ℕ) (calls : List (ℕ × ℕ))
    (done rest : List Link) (t u : Timer) (proc : ℕ)
    → AreQuiet procs returns
    → let l : Link = record { value = u; valid = true } in
      let v = state g (calls ++ (t.address, t.next) ∷ []) done l rest in
      call_proc procs now (length done) t proc (state g calls done l rest)
      ≡ some (if returns proc t.next && t.repeat then v else destroy now (length done) v)
unfolding call_proc act_all
call_proc-quiet procs returns now g calls done rest t u proc quiet =
    let l : Link = record { value = u; valid = true } in
    let v = state g (calls ++ (t.address, t.next) ∷ []) done l rest in
    ap
      (λ (o : Bool × List Action).
        let w = act_all now o.1 v in
        elim (get_elem? w.links (length done)) as (λ z. Option Timers) [
          | none ↦ none
          | some m ↦
              if not m.valid
              then none
              else some (if o.0 && t.repeat then w else destroy now (length done) w)
        ])
      (quiet proc t.next v)
    ∙ rw (get_elem?-middle done rest l) refl

pub call-proc :
    (procs : Procs) (returns : ℕ → ℕ → Bool) (now g : ℕ) (calls : List (ℕ × ℕ))
    (done rest : List Link) (t : Timer) (proc : ℕ)
    → AreQuiet procs returns
    → t.proc ≡ some proc
    → Ends now (calls ++ (t.address, t.next) ∷ []) done rest t (returns proc t.next && t.repeat) (
        call procs now
          (length done)
          t
          (state g calls done (record { value = t; valid = true }) rest))
unfolding call call_rescheduled Ends
call-proc procs returns now g calls done rest t proc quiet here =
    let at = length done in
    let (h, moved) = again-state now g calls done rest t in
    let u = state h calls done (record { value = again_later now t; valid = true }) rest in
    let (k, ends) =
      destroy-Ends now h (calls ++ (t.address, t.next) ∷ []) done rest (again_later now t)
        (returns proc t.next && t.repeat) in
    let run = call_rescheduled-proc procs now at t u proc here in
    (
      k,
      ap (call_rescheduled procs now at t) moved
          ∙ run
          ∙ call_proc-quiet procs returns now h calls done rest t (again_later now t) proc quiet
          ∙ ap some ends,
    )
