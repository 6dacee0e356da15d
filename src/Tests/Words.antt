-- ===== src/Tests/Words.antt =====
-- Lines, strings and timers.
use shroudbnc.Base.{
  ℕ, zero, ◌-◌, ◌^◌, ◌<◌, ◌≤◌, ◌≡◌, refl, List, [], ◌∷◌, ◌++◌, map, take, replicate, Option, some,
  true, false, length, All, arith, ok, fault, ◌==◌, if◌then◌else◌, Bool-cases, inl, inr,
}
use shroudbnc.Hashtable.Key.{Text}
use shroudbnc.Tokens.{arg_tokenize, arg_to_array, c_string, strmcat, TokenData, arg_tokenize2}
use shroudbnc.Tokens.Blocks.{text_at}
use shroudbnc.Tokens.Strings.{strmcat-cut}
use shroudbnc.Tokens.Joined.{more, arguments, arg_to_array-arg_tokenize}
use shroudbnc.Tokens.Bounded.{IsBounded, arg_tokenize2-IsBounded}
use shroudbnc.Tokens.Trim.{leading, move_loop, trim_loop, str_trim}
use shroudbnc.Usermodes.{at_end, unset_loop, unset_mode}
use shroudbnc.Usermodes.Unset.{unset_mode-once}
use shroudbnc.Timer.{
  Timer, Timers, Procs, creates, reschedules, destroys, act, act_all, new_timer, insert, reschedule,
  set_next, rescheduled, destroy, mark, reschedule_timers, best_loop, keep_valid, lock, unlock,
  call, call_rescheduled, call_proc, call_round, call_loop, call_timers, get_next_call,
}
use shroudbnc.Timer.Calls.{linked, left_over, due_calls, call_timers-calls}
use shroudbnc.Timer.Progress.{AreTimed}
use shroudbnc.Timer.Schedule.{Reaches, Reaches-get_next_call}

-- "ab c :d e"
abbrev last_argument : Option Text
last_argument = some (100 ∷ 32 ∷ 101 ∷ [])

arg_to_array-arg_tokenize_example :
    (args : Text) × (ps : List (Option Text)) × (arg_tokenize
        (some ((97 ∷ 98 ∷ []) ++ more ((99 ∷ []) ∷ []) last_argument))
      ≡ some args)
    × (arg_to_array args ≡ ok ps)
    × (map text_at ps
        ≡ map (λ a. some a) (arguments ((97 ∷ 98 ∷ []) ∷ (99 ∷ []) ∷ []) last_argument))
arg_to_array-arg_tokenize_example =
    arg_to_array-arg_tokenize (97 ∷ 98 ∷ []) ((99 ∷ []) ∷ []) last_argument (ground arith)
      (ground arith) (ground arith)

-- "a b"
abbrev two_words : Text
two_words = 97 ∷ 32 ∷ 98 ∷ []

arg_tokenize2-IsBounded_example :
    (t : TokenData) × (arg_tokenize2 (replicate 32 zero) two_words ≡ ok t)
    × IsBounded (length two_words) t
arg_tokenize2-IsBounded_example = arg_tokenize2-IsBounded (replicate 32 zero) two_words refl

-- A block of six bytes with the string "a".
abbrev a_block : Text
a_block = 97 ∷ 0 ∷ 0 ∷ 0 ∷ 0 ∷ 0 ∷ []

a_block-fits : length (c_string a_block) < 4
unfolding c_string
a_block-fits = omega arith

strmcat-cut_example :
    (block : Text) × (strmcat (2 ^ 64) a_block (98 ∷ 99 ∷ 100 ∷ []) 4 ≡ ok block)
    × (length block ≡ length a_block)
    × (c_string block
        ≡ c_string a_block ++ take (4 - 1 - length (c_string a_block)) (98 ∷ 99 ∷ 100 ∷ []))
strmcat-cut_example =
    strmcat-cut (2 ^ 64) a_block (98 ∷ 99 ∷ 100 ∷ []) 4 a_block-fits (omega arith) (ground arith)

-- A timer that is due at the time 5 and repeats, and one that is due later.
abbrev two_timers : List Timer
two_timers =
    (record { address = 1; interval = 5; repeat = true; proc = some 1; next = 5 })
    ∷ (record { address = 2; interval = 9; repeat = false; proc = some 2; next = 9 })
    ∷ []

-- Functions that return true and leave the list alone.
abbrev quiet : Procs
quiet proc time s = (true, [])

call_timers-calls_example :
    (soonest : ℕ) × (call_timers quiet 6 2
        (record { links = linked two_timers; locks = 0; next_call = 5; calls = [] })
      ≡ some (record {
        links = linked (left_over (λ proc time. true) 6 two_timers);
        locks = 0;
        next_call = soonest;
        calls = [] ++ due_calls 6 two_timers;
      }))
call_timers-calls_example =
    call_timers-calls quiet (λ proc time. true) 6 2 two_timers 5 [] (λ proc time s. refl)
      (omega arith)

abbrev no_timers : Timers
no_timers = record { links = []; locks = 0; next_call = 0; calls = [] }

abbrev a_timer : Timers
a_timer = act 3 (creates 1 5 true (some 1)) no_timers

-- A function that creates a timer, reschedules its own and destroys a later one.
abbrev busy : Procs
busy proc time s =
    if proc == 1
    then (true, creates 7 2 false (some 2) ∷ reschedules 0 11 ∷ destroys 1 ∷ [])
    else (true, [])

busy-AreTimed : AreTimed busy
busy-AreTimed proc time s = elim (Bool-cases (proc == 1)) [
  | inl own ↦ rw own (tt, (omega arith, (tt, tt)))
  | inr other ↦ rw other tt
]

-- At the time 8 the timer is due: it is called, due again at 11, and the timer that it creates is destroyed.
abbrev after_busy : Timers
after_busy = record {
  links =
      record {
        value = record { address = 1; interval = 5; repeat = true; proc = some 1; next = 11 };
        valid = true;
      }
      ∷ [];
  locks = 0;
  next_call = 11;
  calls = (1, 8) ∷ [];
}

busy_run : call_timers busy 8 5 a_timer ≡ some after_busy
unfolding call_timers lock unlock call_loop call_round call call_rescheduled call_proc act_all act
    new_timer insert reschedule set_next rescheduled destroy mark reschedule_timers best_loop
    keep_valid
busy_run = refl

after_busy-Reaches : Reaches 8 after_busy
after_busy-Reaches =
    Reaches.calls busy 5 busy-AreTimed
      (Reaches.passes (omega arith)
        (Reaches.acts (creates 1 5 true (some 1)) tt (Reaches.starts {now = 3} (omega arith))))
      busy_run

Reaches-get_next_call_example :
    All
      (λ l. l.valid ≡ true → 8 < l.value.next → get_next_call 8 after_busy ≤ l.value.next)
      after_busy.links
Reaches-get_next_call_example = Reaches-get_next_call 8 after_busy after_busy-Reaches

-- The user modes "aib" without "i".
unset_mode-once_example :
    ((block : Text) × (unset_mode 105 ((97 ∷ []) ++ 105 ∷ ((98 ∷ []) ++ 0 ∷ [])) ≡ ok block)
      × (c_string block ≡ (97 ∷ []) ++ 98 ∷ []))
    × (unset_mode 105 (((97 ∷ []) ++ 98 ∷ []) ++ 0 ∷ []) ≡ ok (((97 ∷ []) ++ 98 ∷ []) ++ 0 ∷ []))
unset_mode-once_example =
    unset_mode-once 105 (97 ∷ []) (98 ∷ []) [] (omega arith) (ground arith) (ground arith)

-- A mode that stands there twice makes the loop read past the block.
unset_mode-fault : unset_mode 105 (105 ∷ 105 ∷ 0 ∷ []) ≡ fault
unfolding unset_mode unset_loop at_end
unset_mode-fault = refl

-- " a  " is trimmed to "a".
str_trim-spaces : str_trim 32 (32 ∷ 97 ∷ 32 ∷ 32 ∷ 0 ∷ []) ≡ ok (97 ∷ 0 ∷ 0 ∷ 0 ∷ 0 ∷ [])
unfolding str_trim c_string leading move_loop trim_loop
str_trim-spaces = refl

-- An empty string makes StrTrim read before it, two spaces at the start behind it.
str_trim-empty : str_trim 32 (0 ∷ []) ≡ fault
unfolding str_trim c_string leading trim_loop
str_trim-empty = refl

str_trim-starts : str_trim 32 (32 ∷ 32 ∷ 97 ∷ 0 ∷ []) ≡ fault
unfolding str_trim c_string leading move_loop
str_trim-starts = refl
