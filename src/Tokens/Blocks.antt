-- ===== src/Tokens/Blocks.antt =====
-- What ArgCount, ArgGet and ArgToArray of src/utility.cpp read in a block of strings.
use shroudbnc.Base.{
  ℕ, zero, suc, ◌+◌, ◌<◌, ◌≡◌, ◌≢◌, refl, sym, ap, ◌∙◌, List, [], ◌∷◌, ◌++◌, map, Option, none,
  some, false, ◌==◌, if◌then◌else◌, length, drop, drop_all, All, Bool-cases, inl, inr, arith, ok,
  ◌>>=◌,
}
use shroudbnc.Hashtable.Key.{Text}
use shroudbnc.Tokens.{
  c_string, skip_string, get_loop, without_colon, arg_get, count_loop, array_loop,
}

-- A block of strings.
unfoldable pub block : List Text → Text
block [] = 0 ∷ []
block (w ∷ words) = w ++ 0 ∷ block words

-- A string in a block: it has a character, and none is zero.
abbrev pub IsRaw : Text → Type 0
IsRaw [] = ⊥
IsRaw (x ∷ text) = (x ≢ 0) × All (λ y. y ≢ 0) text

unfoldable pub unmarked : Text → Text
unmarked [] = []
unmarked (x ∷ text) = if x == 58 then text else x ∷ text

skip_string-first : (w rest : Text) → All (λ y. y ≢ 0) w → skip_string (w ++ 0 ∷ rest) ≡ some rest
unfolding skip_string
skip_string-first [] rest p = refl
skip_string-first (x ∷ w) rest p = ground (arith, p.0, skip_string-first w rest p.1)

pub c_string-first : (w rest : Text) → All (λ y. y ≢ 0) w → c_string (w ++ 0 ∷ rest) ≡ w
unfolding c_string
c_string-first [] rest p = refl
c_string-first (x ∷ w) rest p = ground (arith, p.0, c_string-first w rest p.1)

count_loop-first :
    (n : ℕ) (w rest : Text)
    → All (λ y. y ≢ 0) w
    → count_loop n (w ++ 0 ∷ rest) ≡ count_loop n (0 ∷ rest)
unfolding count_loop
count_loop-first n [] rest p = refl
count_loop-first n (x ∷ []) rest p = ground (arith, p.0)
count_loop-first n (x ∷ y ∷ w) rest p = ground (arith, p.0, count_loop-first n (y ∷ w) rest p.1)

nonzero : (w : Text) → IsRaw w → All (λ y. y ≢ 0) w
nonzero [] h = absurd h
nonzero (x ∷ w) h = h

pub count_loop-block :
    (n : ℕ) (w : Text) (ws : List Text)
    → IsRaw w
    → All IsRaw ws
    → count_loop n (block (w ∷ ws)) ≡ ok (n + length (w ∷ ws))
unfolding block count_loop
count_loop-block n w [] h p = count_loop-first n w (0 ∷ []) (nonzero w h) ∙ ap ok (omega arith)
count_loop-block n w ([] ∷ ws) h p = absurd p.0
count_loop-block n w ((x ∷ v) ∷ ws) h p =
    count_loop-first n w (block ((x ∷ v) ∷ ws)) (nonzero w h)
    ∙ next_string n x (v ++ 0 ∷ block ws) p.0.0
    ∙ count_loop-block (suc n) (x ∷ v) ws p.0 p.1
    ∙ ap ok (omega arith)
  where
    next_string :
        (m y : ℕ) (rest : Text)
        → y ≢ 0
        → count_loop m (0 ∷ y ∷ rest) ≡ count_loop (suc m) (y ∷ rest)
    next_string m y rest k = ground (arith, k)

get_loop-block :
    (i : ℕ) (ws : List Text)
    → i < length ws
    → All IsRaw ws
    → get_loop i (block ws) ≡ ok (some (block (drop i ws)))
unfolding get_loop block
get_loop-block i [] h p = absurd (omega arith)
get_loop-block zero (w ∷ ws) h p = refl
get_loop-block (suc i) (w ∷ []) h p = absurd (omega (arith, h))
get_loop-block (suc i) (w ∷ [] ∷ ws) h p = absurd p.1.0
get_loop-block (suc i) (w ∷ (x ∷ v) ∷ ws) h p =
    let onward : (x == 0) ≡ false = ground (arith, p.1.0.0) in
    rw (get_loop, skip_string-first w (block ((x ∷ v) ∷ ws)) (nonzero w p.0), onward)
      (get_loop-block i ((x ∷ v) ∷ ws) (omega (arith, h)) p.1)

-- The pointer that ArgGet makes of a string of the block.
without_colon-block :
    (w : Text) (ws : List Text)
    → IsRaw w
    → (p : Text) × (without_colon (some (block (w ∷ ws))) ≡ ok (some p)) × (c_string p ≡ unmarked w)
unfolding without_colon block unmarked
without_colon-block [] ws h = absurd h
without_colon-block (x ∷ w) ws h = elim (Bool-cases (x == 58)) [
  | inl colon ↦ (
    w ++ 0 ∷ block ws,
    rw (without_colon, colon) refl,
    rw colon (c_string-first w (block ws) h.1),
  )
  | inr none_there ↦ (
    (x ∷ w) ++ 0 ∷ block ws,
    rw (without_colon, none_there) refl,
    rw none_there (c_string-first (x ∷ w) (block ws) h),
  )
]

-- The string that a pointer shows, none for a null pointer.
unfoldable pub text_at : Option Text → Option Text
text_at none = none
text_at (some p) = some (c_string p)

arg_get-block :
    (i : ℕ) (ws rest : List Text) (w q : Text)
    → i < length ws
    → All IsRaw ws
    → drop i ws ≡ w ∷ rest
    → without_colon (some (block (w ∷ rest))) ≡ ok (some q)
    → arg_get (block ws) (i + 1) ≡ ok (some q)
unfolding arg_get
arg_get-block i ws rest w q h p here points =
    ap (λ n. get_loop n (block ws) >>= without_colon) (omega arith)
    ∙ ap (λ r. r >>= without_colon) (get_loop-block i ws h p)
    ∙ ap (λ z. without_colon (some (block z))) here
    ∙ points

drop-nth :
    (i : ℕ) (ws : List Text)
    → i < length ws
    → All IsRaw ws
    → (w : Text) × (rest : List Text) × (drop i ws ≡ w ∷ rest) × (drop (suc i) ws ≡ rest) × IsRaw w
drop-nth i [] h p = absurd (omega arith)
drop-nth zero (w ∷ ws) h p = (w, ws, refl, refl, p.0)
drop-nth (suc i) (w ∷ ws) h p = drop-nth i ws (omega (arith, h)) p.1

pub array_loop-block :
    (i n : ℕ) (ws : List Text)
    → i + n ≡ length ws
    → All IsRaw ws
    → (ps : List (Option Text)) × (array_loop i n (block ws) ≡ ok ps)
      × (map text_at ps ≡ map (λ w. some (unmarked w)) (drop i ws))
unfolding array_loop text_at
array_loop-block i zero ws e p =
    ([], refl, ap (map (λ w. some (unmarked w))) (sym (drop_all i ws (omega (arith, e)))))
array_loop-block i (suc n) ws e p =
    let inside : i < length ws = omega (arith, e) in
    let (w, rest, here, later, raw_w) = drop-nth i ws inside p in
    let (q, points, reads) = without_colon-block w rest raw_w in
    let (ps, run, read_later) = array_loop-block (suc i) n ws (omega (arith, e)) p in
    (
      some q ∷ ps,
      rw (array_loop, arg_get-block i ws rest w q inside p here points, run) refl,
      ap (λ z. some z ∷ map text_at ps) reads
          ∙ ap (λ z. some (unmarked w) ∷ z) (read_later ∙ ap (map (λ w. some (unmarked w))) later)
          ∙ ap (map (λ w. some (unmarked w))) (sym here),
    )
