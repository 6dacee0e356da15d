-- ===== src/Timer/Calls.antt =====
-- CallTimers of src/Timer.cpp: which timers it calls, and what becomes of them.
use shroudbnc.Base.{
  ℕ, zero, suc, ◌+◌, ◌≤◌, ◌≡◌, refl, sym, ap, ◌∙◌, List, [], ◌∷◌, ◌++◌, map, append_assoc,
  append-nil, length, length-append, get_elem?, Option, none, some, Bool, true, ◌==◌, leb, not,
  ◌&&◌, if◌then◌else◌, arith, Bool-cases, Option-cases, inl, inr,
}
use shroudbnc.Timer.{
  Timer, Link, Timers, rescheduled, Procs, call, call_round, call_loop, keep_valid, lock, unlock,
  call_timers,
}
use shroudbnc.Timer.Rounds.{
  AreQuiet, get_elem?-middle, state, again_later, Ends, call-bare, call-proc,
}

-- The timer's function is called: once, with the time it was due at.
unfoldable pub due_calls : ℕ → List Timer → List (ℕ × ℕ)
due_calls now [] = []
due_calls now (t ∷ timers) =
    let rest = due_calls now timers in
    if leb t.next now
    then elim t.proc [ none ↦ rest | some proc ↦ (t.address, t.next) ∷ rest ]
    else rest

-- What is left of a timer: one that is not due stays as it is; one that is due stays if it
-- repeats and its function returned true, or if it has an interval and no function, and one that repeats with an interval is
-- due again an interval later.
unfoldable pub left_of : (ℕ → ℕ → Bool) → ℕ → Timer → List Timer
left_of returns now t =
    if leb t.next now
    then (if elim t.proc [
      | none ↦ not (t.interval == 0)
      | some proc ↦ returns proc t.next && t.repeat
    ]
        then (if not (t.interval == 0) && t.repeat then record t { next = now + t.interval } else t)
          ∷ []
        else [])
    else t ∷ []

unfoldable pub left_over : (ℕ → ℕ → Bool) → ℕ → List Timer → List Timer
left_over returns now [] = []
left_over returns now (t ∷ timers) = left_of returns now t ++ left_over returns now timers

-- Timers in a list without a mark.
abbrev pub linked : List Timer → List Link
linked = map (λ t. record { value = t; valid = true })

keep_valid-append : (xs ys : List Link) → keep_valid (xs ++ ys) ≡ keep_valid xs ++ keep_valid ys
unfolding keep_valid
keep_valid-append [] ys = refl
keep_valid-append (l ∷ xs) ys = ground (arith, keep_valid-append xs ys)

-- What a round leaves at its place: the link of what is left of the timer, and the call that was made.
RoundLeaves :
    (ℕ → ℕ → Bool) → ℕ → List (ℕ × ℕ) → List Link → List Link → Timer → Option Timers → Type 0
RoundLeaves returns now calls done rest t o =
    (h : ℕ) × (after : Link) × (o
      ≡ some (state h (calls ++ due_calls now (t ∷ [])) done after rest))
    × (keep_valid (after ∷ []) ≡ linked (left_of returns now t))

call_round-link :
    (procs : Procs) (returns : ℕ → ℕ → Bool) (now g : ℕ) (calls : List (ℕ × ℕ))
    (done rest : List Link) (t : Timer)
    → AreQuiet procs returns
    → RoundLeaves returns now calls done rest t (
        call_round procs now
          (length done)
          (record { value = t; valid = true })
          (state g calls done (record { value = t; valid = true }) rest))
unfolding call_round left_of due_calls keep_valid Ends RoundLeaves
call_round-link procs returns now g calls done rest t quiet =
    let l : Link = record { value = t; valid = true } in
    let s = state g calls done l rest in
    elim (Bool-cases (leb t.next now)) [
      | inr later ↦
          let made : calls ≡ calls ++ due_calls now (t ∷ []) =
            sym (append-nil calls) ∙ ap (λ z. calls ++ z) (ground (arith, later)) in
          let run : call_round procs now (length done) l s
              ≡ some (state (rescheduled t.next g) calls done l rest) =
            ground (arith, later) in
          (
            rescheduled t.next g,
            l,
            run ∙ ap (λ z. some (state (rescheduled t.next g) z done l rest)) made,
            ground (arith, later),
          )
      | inl due ↦
          let goes : call_round procs now (length done) l s ≡ call procs now (length done) t s =
            ground (arith, due) in
          elim (Option-cases t.proc) [
            | inl bare ↦
                let (h, run) = call-bare procs now g calls done rest t bare in
                let after : Link = record {
                  value = again_later now t;
                  valid = not (t.interval == 0);
                } in
                let made : calls ≡ calls ++ due_calls now (t ∷ []) =
                  sym (append-nil calls) ∙ ap (λ z. calls ++ z) (ground (arith, due, bare)) in
                (
                  h,
                  after,
                  goes ∙ run ∙ ap (λ z. some (state h z done after rest)) made,
                  ground (arith, due, bare),
                )
            | inr (proc, here) ↦
                let (h, run) = call-proc procs returns now g calls done rest t proc quiet here in
                let after : Link = record {
                  value = again_later now t;
                  valid = returns proc t.next && t.repeat;
                } in
                let made : calls ++ (t.address, t.next) ∷ [] ≡ calls ++ due_calls now (t ∷ []) =
                  ap (λ z. calls ++ z) (ground (arith, due, here)) in
                (
                  h,
                  after,
                  goes ∙ run ∙ ap (λ z. some (state h z done after rest)) made,
                  ground (arith, due, here),
                )
          ]
    ]

due_calls-cons :
    (now : ℕ) (t : Timer) (timers : List Timer)
    → due_calls now (t ∷ timers) ≡ due_calls now (t ∷ []) ++ due_calls now timers
unfolding due_calls
due_calls-cons now t timers = elim (Option-cases t.proc) [
  | inl e ↦ ground (arith, e)
  | inr (f, e) ↦ ground (arith, e)
]

linked-append : (xs ys : List Timer) → linked (xs ++ ys) ≡ linked xs ++ linked ys
linked-append [] ys = refl
linked-append (t ∷ xs) ys = ap (λ z. record { value = t; valid = true } ∷ z) (linked-append xs ys)

call_loop-links :
    (procs : Procs) (returns : ℕ → ℕ → Bool) (now fuel g : ℕ) (calls : List (ℕ × ℕ))
    (done : List Link) (timers : List Timer)
    → AreQuiet procs returns
    → length timers ≤ fuel
    → (h : ℕ) × (links : List Link) × (call_loop procs now fuel
          (length done)
          (record { links = done ++ linked timers; locks = 1; next_call = g; calls = calls })
        ≡ some (record {
          links = links;
          locks = 1;
          next_call = h;
          calls = calls ++ due_calls now timers;
        }))
      × (keep_valid links ≡ keep_valid done ++ linked (left_over returns now timers))
unfolding call_loop left_over due_calls RoundLeaves
call_loop-links procs returns now fuel g calls done [] quiet enough =
    (g, done, finished fuel, sym (append-nil (keep_valid done)))
  where
    past : (links : List Link) → get_elem? (links ++ []) (length links) ≡ none
    past [] = refl
    past (l ∷ links) = past links

    finished :
        (n : ℕ)
        → call_loop procs now n
            (length done)
            (record { links = done ++ []; locks = 1; next_call = g; calls = calls })
          ≡ some (record { links = done; locks = 1; next_call = g; calls = calls ++ [] })
    finished zero = rw (call_loop, past done, append-nil done, append-nil calls) refl
    finished (suc n) = rw (call_loop, past done, append-nil done, append-nil calls) refl
call_loop-links procs returns now zero g calls done (t ∷ timers) quiet enough =
    absurd (omega (arith, enough))
call_loop-links procs returns now (suc fuel) g calls done (t ∷ timers) quiet enough =
    let l : Link = record { value = t; valid = true } in
    let (h, after, run, kept) =
      call_round-link procs returns now g calls done (linked timers) t quiet in
    let made = calls ++ due_calls now (t ∷ []) in
    let (k, links, later, all_kept) =
      call_loop-links procs returns now fuel h made (done ++ after ∷ []) timers quiet
        (omega (arith, enough)) in
    let first : call_loop procs now (suc fuel) (length done) (state g calls done l (linked timers))
        ≡ call_loop procs now fuel (suc (length done)) (state h made done after (linked timers)) =
      rw (call_loop, get_elem?-middle done (linked timers) l, run) refl in
    let one_more : suc (length done) ≡ length (done ++ after ∷ []) =
      omega (arith, length-append done (after ∷ [])) in
    (
      k,
      links,
      first
          ∙ ap (λ n. call_loop procs now fuel n (state h made done after (linked timers))) one_more
          ∙ ap
              (λ z.
                call_loop procs now fuel (length (done ++ after ∷ []))
                  (record { links = z; locks = 1; next_call = h; calls = made }))
              (sym (append_assoc done (after ∷ []) (linked timers)))
          ∙ later
          ∙ ap (λ z. some (record { links = links; locks = 1; next_call = k; calls = z }))
              (append_assoc calls (due_calls now (t ∷ [])) (due_calls now timers)
                ∙ ap (λ z. calls ++ z) (sym (due_calls-cons now t timers))),
      all_kept
          ∙ ap (λ z. z ++ linked (left_over returns now timers))
              (keep_valid-append done (after ∷ []) ∙ ap (λ z. keep_valid done ++ z) kept)
          ∙ append_assoc (keep_valid done) (linked (left_of returns now t))
              (linked (left_over returns now timers))
          ∙ ap (λ z. keep_valid done ++ z)
              (sym (linked-append (left_of returns now t) (left_over returns now timers))),
    )

-- CallTimers on a list that no cursor holds, with no marked link in it, where the functions of its timers leave the list alone and the fuel is at least the number of timers, returns and leaves a list of that kind. Each timer that is due and has a function is called exactly once, in the order of the list, with the time it was due at,
-- and no other is called. What stays in the list is what `left_of` leaves of each timer: those that are not due stay as they are, and of those that are due the ones stay
-- that repeat and whose function returned true, and the ones with an interval and no function.
pub call_timers-calls :
    (procs : Procs) (returns : ℕ → ℕ → Bool) (now fuel : ℕ) (timers : List Timer) (next_call : ℕ)
    (calls : List (ℕ × ℕ))
    → AreQuiet procs returns
    → length timers ≤ fuel
    → (soonest : ℕ) × (call_timers procs now fuel
          (record { links = linked timers; locks = 0; next_call = next_call; calls = calls })
        ≡ some (record {
          links = linked (left_over returns now timers);
          locks = 0;
          next_call = soonest;
          calls = calls ++ due_calls now timers;
        }))
unfolding call_timers lock unlock left_over keep_valid
call_timers-calls procs returns now fuel timers next_call calls quiet enough =
    let (h, links, run, kept) =
      call_loop-links procs returns now fuel 0 calls [] timers quiet enough in
    (h, rw (call_timers, run) (rw kept refl))
