-- ===== src/Config/Printing.antt =====
-- The file that Persist of src/Config.cpp leaves.
use mathlib.Core.List.{flatten}
use shroudbnc.Base.{
  ℕ, zero, suc, ◌+◌, ◌≤◌, ◌<◌, ◌≡◌, refl, sym, ap, subst, ◌∙◌, List, [], ◌∷◌, ◌++◌, Option, none,
  some, true, length, get_elem?, drop, arith, ok, Option-cases, inl, inr,
}
use shroudbnc.Hashtable.Key.{Text}
use shroudbnc.Hashtable.Entries.{Bucket}
use shroudbnc.Hashtable.Iteration.{Cursor, iterate, start, stop, scan, Points, iterate-Points}
use shroudbnc.Config.{Config, Saved, print_loop, persist}

-- A file with one line for each of the settings.
unfoldable pub print : Bucket Text → Text
print [] = []
print (e ∷ es) = e.0 ++ 61 ∷ (e.1 ++ 10 ∷ print es)

abbrev unset : Cursor
unset = record { owner = none; index = 0; bucket = 0; slot = 0 }

start-first : (self : ℕ) (c : Cursor) → start self 0 c ≡ (0, 0, 0)
unfolding start
start-first self c = ground arith

module _ {ℓ} {A : Type ℓ} where
  drop-next :
      (xs : List A) (i : ℕ) (x : A) → get_elem? xs i ≡ some x → drop i xs ≡ x ∷ drop (suc i) xs
  drop-next [] i x e = cc
  drop-next (y ∷ xs) zero x e = cc
  drop-next (y ∷ xs) (suc i) x e = drop-next xs i x e

  drop-end : (xs : List A) (i : ℕ) → get_elem? xs i ≡ none → drop i xs ≡ []
  drop-end [] zero e = refl
  drop-end [] (suc i) e = refl
  drop-end (y ∷ xs) zero e = cc
  drop-end (y ∷ xs) (suc i) e = drop-end xs i e

  get_elem?-lt : (xs : List A) (i : ℕ) (x : A) → get_elem? xs i ≡ some x → i < length xs
  get_elem?-lt [] i x e = cc
  get_elem?-lt (y ∷ xs) zero x e = omega arith
  get_elem?-lt (y ∷ xs) (suc i) x e = omega (arith, get_elem?-lt xs i x e)

  stop-anew :
      (self : ℕ) (c : Cursor) (o : Option (ℕ × ℕ × A))
      → ((stop self 0 c o).1 ≡ (stop self 0 unset o).1)
        × ((e : A) → (stop self 0 c o).1 ≡ some e → (stop self 0 c o).0 ≡ (stop self 0 unset o).0)
  unfolding stop
  stop-anew self c none = (refl, λ e h. cc)
  stop-anew self c (some (i, a, x)) = (refl, λ e h. refl)

  -- Iterate for the first index does not look at the static variables.
  iterate-first :
      (self : ℕ) (bs : List (List A)) (c : Cursor)
      → ((iterate self 0 bs c).1 ≡ get_elem? (flatten bs) 0)
        × ((e : A) → (iterate self 0 bs c).1 ≡ some e → Points self bs (iterate self 0 bs c).0)
  unfolding iterate
  iterate-first self bs c =
      let p : Points self bs unset = λ own. cc in
      let (found, points) = iterate-Points self 0 bs unset p in
      let (same_entry, same_cursor) = stop-anew self c (scan 0 0 0 0 bs) in
      let here : iterate self 0 bs unset ≡ stop self 0 unset (scan 0 0 0 0 bs) =
        rw (iterate, start-first self unset) refl in
      rw (iterate, start-first self c)
        (
          same_entry ∙ ap (λ r. r.1) (sym here) ∙ found,
          λ e h. subst (Points self bs) (ap (λ r. r.0) here ∙ sym (same_cursor e h)) points,
        )

print_loop-step :
    (self fuel index : ℕ) (bs : List (Bucket Text)) (c d : Cursor) (e : Text × Text) (later : Text)
    → (iterate self index bs c).1 ≡ some e
    → print_loop self fuel (suc index) bs (iterate self index bs c).0 ≡ some (d, later)
    → print_loop self (suc fuel) index bs c ≡ some (d, e.0 ++ 61 ∷ (e.1 ++ 10 ∷ later))
unfolding print_loop
print_loop-step self fuel index bs c d e later found run = rw (print_loop, found, run)

print_loop-end :
    (self fuel index : ℕ) (bs : List (Bucket Text)) (c : Cursor)
    → (iterate self index bs c).1 ≡ none
    → print_loop self (suc fuel) index bs c ≡ some ((iterate self index bs c).0, [])
unfolding print_loop
print_loop-end self fuel index bs c gone = rw (print_loop, gone)

print_loop-from :
    (self fuel index : ℕ) (bs : List (Bucket Text)) (c : Cursor)
    → ((iterate self index bs c).1 ≡ get_elem? (flatten bs) index)
      × ((e : Text × Text)
          → (iterate self index bs c).1 ≡ some e
          → Points self bs (iterate self index bs c).0)
    → length (flatten bs) < fuel + index
    → index ≤ length (flatten bs)
    → (d : Cursor) × (print_loop self fuel index bs c ≡ some (d, print (drop index (flatten bs))))
unfolding print
print_loop-from self zero index bs c step h g = absurd (omega (arith, h, g))
print_loop-from self (suc fuel) index bs c step h g =
    elim (Option-cases (iterate self index bs c).1) [
      | inl gone ↦ (
        (iterate self index bs c).0,
        print_loop-end self fuel index bs c gone
            ∙ ap (λ es. some ((iterate self index bs c).0, print es))
                (sym (drop-end (flatten bs) index (sym step.0 ∙ gone))),
      )
      | inr (e, found) ↦
          let here = sym step.0 ∙ found in
          let (found_next, points) =
            iterate-Points self (suc index) bs (iterate self index bs c).0 (step.1 e found) in
          let (d, run) =
            print_loop-from self fuel (suc index) bs (iterate self index bs c).0
              (found_next, λ e h. points) (omega (arith, h))
              (omega (arith, get_elem?-lt (flatten bs) index e here)) in
          (
            d,
            print_loop-step self fuel index bs c d e (print (drop (suc index) (flatten bs))) found
                  run
                ∙ ap (λ es. some (d, print es)) (sym (drop-next (flatten bs) index e here)),
          )
    ]

-- Persist with a file that can be written and put in the place of the old one: whatever the static variables of
-- Iterate hold, the loop ends, and the new file has one line for each entry of the table.
pub persist-print :
    (self : ℕ) (name : Text) (c : Config) (s : Saved)
    → c.filename ≡ some name
    → (cursor : Cursor) × (persist self true true c s
        ≡ some
            (record { file = some (print (flatten c.settings.buckets)); cursor = cursor }, ok true))
unfolding persist
persist-print self name c s has_file =
    let (d, run) =
      print_loop-from self (suc (length (flatten c.settings.buckets))) 0 c.settings.buckets s.cursor
        (iterate-first self c.settings.buckets s.cursor) (omega arith) (omega arith) in
    (d, rw (persist, has_file, run))
