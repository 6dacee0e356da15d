-- ===== src/Usermodes/Unset.antt =====
-- Taking a user mode out in place, in src/IRCConnection.cpp.
use shroudbnc.Base.{
  ℕ, zero, suc, ◌+◌, ◌<◌, ◌≡◌, ◌≢◌, refl, sym, ap, ◌∙◌, List, [], ◌∷◌, ◌++◌, some, Bool, true,
  false, ◌==◌, if◌then◌else◌, length, length-append, get_elem?, set, All, All-append, append_assoc,
  arith, ok,
}
use shroudbnc.Hashtable.Key.{Text}
use shroudbnc.Tokens.{c_string}
use shroudbnc.Tokens.Blocks.{c_string-first}
use shroudbnc.Usermodes.{at_end, unset_loop, unset_mode}

-- A mode character that is not the given one.
abbrev pub IsOther : ℕ → ℕ → Type 0
IsOther mode x = (x ≢ 0) × (x ≢ mode)

module _ {ℓ} {A : Type ℓ} where
  get_elem?-front :
      (front rest : List A) (x : A) → get_elem? (front ++ x ∷ rest) (length front) ≡ some x
  get_elem?-front [] rest x = refl
  get_elem?-front (y ∷ front) rest x = get_elem?-front front rest x

  get_elem?-second :
      (front rest : List A) (x y : A)
      → get_elem? (front ++ x ∷ y ∷ rest) (suc (length front)) ≡ some y
  get_elem?-second [] rest x y = refl
  get_elem?-second (z ∷ front) rest x y = get_elem?-second front rest x y

  set-front :
      (front rest : List A) (x v : A) → set (front ++ x ∷ rest) (length front) v ≡ front ++ v ∷ rest
  set-front [] rest x v = refl
  set-front (y ∷ front) rest x v = ap (λ z. y ∷ z) (set-front front rest x v)

  length-snoc : (front : List A) (x : A) → length (front ++ x ∷ []) ≡ suc (length front)
  length-snoc front x = omega (arith, length-append front (x ∷ []))

unset_loop-ends :
    (rounds mode a : ℕ) (front rest : Text)
    → unset_loop rounds mode (length front) a (front ++ 0 ∷ rest) ≡ ok (front ++ 0 ∷ rest)
unfolding unset_loop at_end
unset_loop-ends zero mode a front rest =
    rw (unset_loop, at_end, get_elem?-front front rest zero) refl
unset_loop-ends (suc rounds) mode a front rest =
    rw (unset_loop, get_elem?-front front rest zero) refl

unset_loop-round :
    (rounds mode a x v : ℕ) (front rest : Text)
    → (x == 0) ≡ false
    → get_elem? (front ++ x ∷ rest) a ≡ some v
    → unset_loop (suc rounds) mode (length front) a (front ++ x ∷ rest)
      ≡ unset_loop rounds mode
          (if v == mode then length front else suc (length front))
          (suc a)
          (front ++ v ∷ rest)
unfolding unset_loop
unset_loop-round rounds mode a x v front rest full read =
    rw (unset_loop, get_elem?-front front rest x, full, read, set-front front rest x v) refl

-- One character more counts as a part of the front.
unset_loop-onward :
    (rounds mode a x : ℕ) (front rest : Text)
    → unset_loop rounds mode (suc (length front)) a (front ++ x ∷ rest)
      ≡ unset_loop rounds mode (length (front ++ x ∷ [])) a ((front ++ x ∷ []) ++ rest)
unset_loop-onward rounds mode a x front rest =
    ap (λ n. unset_loop rounds mode n a (front ++ x ∷ rest)) (sym (length-snoc front x))
    ∙ ap (unset_loop rounds mode (length (front ++ x ∷ [])) a)
        (sym (append_assoc front (x ∷ []) rest))

-- The rounds after the mode has been met: the characters move down by one.
unset_loop-after :
    (rounds mode y : ℕ) (front back rest : Text)
    → mode ≢ 0
    → y ≢ 0
    → All (IsOther mode) back
    → length back < rounds
    → unset_loop rounds mode (length front) (suc (length front)) (front ++ y ∷ (back ++ 0 ∷ rest))
      ≡ ok (front ++ (back ++ 0 ∷ 0 ∷ rest))
unset_loop-after zero mode y front back rest m full p h = absurd (omega (arith, h))
unset_loop-after (suc rounds) mode y front [] rest m full p h =
    let e : (0 == mode) ≡ false = ground (arith, m) in
    unset_loop-round rounds mode (suc (length front)) y 0 front (0 ∷ rest) (ground (arith, full))
      (get_elem?-second front rest y 0)
    ∙ ap
        (λ (b : Bool).
          unset_loop rounds mode (if b then length front else suc (length front))
            (suc (suc (length front))) (front ++ 0 ∷ 0 ∷ rest))
        e
    ∙ unset_loop-onward rounds mode (suc (suc (length front))) 0 front (0 ∷ rest)
    ∙ unset_loop-ends rounds mode (suc (suc (length front))) (front ++ 0 ∷ []) rest
    ∙ ap ok (append_assoc front (0 ∷ []) (0 ∷ rest))
unset_loop-after (suc rounds) mode y front (x ∷ back) rest m full p h =
    let e : (x == mode) ≡ false = ground (arith, p.0.1) in
    unset_loop-round rounds mode (suc (length front)) y x front (x ∷ (back ++ 0 ∷ rest))
      (ground (arith, full)) (get_elem?-second front (back ++ 0 ∷ rest) y x)
    ∙ ap
        (λ (b : Bool).
          unset_loop rounds mode (if b then length front else suc (length front))
            (suc (suc (length front))) (front ++ x ∷ x ∷ (back ++ 0 ∷ rest)))
        e
    ∙ unset_loop-onward rounds mode (suc (suc (length front))) x front (x ∷ (back ++ 0 ∷ rest))
    ∙ ap
        (λ n.
          unset_loop rounds mode (length (front ++ x ∷ [])) (suc n)
            ((front ++ x ∷ []) ++ x ∷ (back ++ 0 ∷ rest)))
        (sym (length-snoc front x))
    ∙ unset_loop-after rounds mode x (front ++ x ∷ []) back rest m p.0.0 p.1 (omega (arith, h))
    ∙ ap ok (append_assoc front (x ∷ []) (back ++ 0 ∷ 0 ∷ rest))

-- A round on another character before the mode is met.
unset_loop-passes :
    (rounds mode x : ℕ) (front rest : Text)
    → IsOther mode x
    → unset_loop (suc rounds) mode (length front) (length front) (front ++ x ∷ rest)
      ≡ unset_loop rounds mode
          (length (front ++ x ∷ []))
          (length (front ++ x ∷ []))
          ((front ++ x ∷ []) ++ rest)
unset_loop-passes rounds mode x front rest p =
    let e : (x == mode) ≡ false = ground (arith, p.1) in
    unset_loop-round rounds mode (length front) x x front rest (ground (arith, p.0))
      (get_elem?-front front rest x)
    ∙ ap
        (λ (b : Bool).
          unset_loop rounds mode (if b then length front else suc (length front))
            (suc (length front)) (front ++ x ∷ rest))
        e
    ∙ unset_loop-onward rounds mode (suc (length front)) x front rest
    ∙ ap (λ n. unset_loop rounds mode (length (front ++ x ∷ [])) n ((front ++ x ∷ []) ++ rest))
        (sym (length-snoc front x))

unset_loop-once :
    (rounds mode : ℕ) (front before back rest : Text)
    → mode ≢ 0
    → All (IsOther mode) before
    → All (IsOther mode) back
    → length before + suc (length back) < rounds
    → unset_loop rounds mode
        (length front)
        (length front)
        (front ++ (before ++ mode ∷ (back ++ 0 ∷ rest)))
      ≡ ok (front ++ (before ++ (back ++ 0 ∷ 0 ∷ rest)))
unset_loop-once zero mode front before back rest m p q h = absurd (omega (arith, h))
unset_loop-once (suc rounds) mode front [] back rest m p q h =
    let e : (mode == mode) ≡ true = ground arith in
    unset_loop-round rounds mode (length front) mode mode front (back ++ 0 ∷ rest)
      (ground (arith, m)) (get_elem?-front front (back ++ 0 ∷ rest) mode)
    ∙ ap
        (λ (b : Bool).
          unset_loop rounds mode (if b then length front else suc (length front))
            (suc (length front)) (front ++ mode ∷ (back ++ 0 ∷ rest)))
        e
    ∙ unset_loop-after rounds mode mode front back rest m m q (omega (arith, h))
unset_loop-once (suc rounds) mode front (x ∷ before) back rest m p q h =
    unset_loop-passes rounds mode x front (before ++ mode ∷ (back ++ 0 ∷ rest)) p.0
    ∙ unset_loop-once rounds mode (front ++ x ∷ []) before back rest m p.1 q (omega (arith, h))
    ∙ ap ok (append_assoc front (x ∷ []) (before ++ (back ++ 0 ∷ 0 ∷ rest)))

unset_loop-never :
    (rounds mode : ℕ) (front m rest : Text)
    → All (IsOther mode) m
    → length m < rounds
    → unset_loop rounds mode (length front) (length front) (front ++ (m ++ 0 ∷ rest))
      ≡ ok (front ++ (m ++ 0 ∷ rest))
unset_loop-never rounds mode front [] rest p h =
    unset_loop-ends rounds mode (length front) front rest
unset_loop-never zero mode front (x ∷ m) rest p h = absurd (omega (arith, h))
unset_loop-never (suc rounds) mode front (x ∷ m) rest p h =
    unset_loop-passes rounds mode x front (m ++ 0 ∷ rest) p.0
    ∙ unset_loop-never rounds mode (front ++ x ∷ []) m rest p.1 (omega (arith, h))
    ∙ ap ok (append_assoc front (x ∷ []) (m ++ 0 ∷ rest))

-- Taking out a mode that stands once in the user modes, between `before` and `back`, reads no byte outside the block, and the string in the
-- block is then the modes before and after it. Taking out one that is not there leaves the block as it is.
pub unset_mode-once :
    (mode : ℕ) (before back rest : Text)
    → mode ≢ 0
    → All (IsOther mode) before
    → All (IsOther mode) back
    → ((block : Text) × (unset_mode mode (before ++ mode ∷ (back ++ 0 ∷ rest)) ≡ ok block)
        × (c_string block ≡ before ++ back))
      × (unset_mode mode ((before ++ back) ++ 0 ∷ rest) ≡ ok ((before ++ back) ++ 0 ∷ rest))
unfolding unset_mode
unset_mode-once mode before back rest m p q =
    let others = All-append (IsOther mode) before back p q in
    (
      (
        before ++ (back ++ 0 ∷ 0 ∷ rest),
        unset_loop-once (length (before ++ mode ∷ (back ++ 0 ∷ rest))) mode [] before back rest m p
            q
            (omega (
              arith,
              length-append before (mode ∷ (back ++ 0 ∷ rest)),
              length-append back (0 ∷ rest),
            )),
        ap c_string (sym (append_assoc before back (0 ∷ 0 ∷ rest)))
            ∙ c_string-first (before ++ back) (0 ∷ rest) (nonzero (before ++ back) others),
      ),
      unset_loop-never (length ((before ++ back) ++ 0 ∷ rest)) mode [] (before ++ back) rest others
          (omega (arith, length-append (before ++ back) (0 ∷ rest))),
    )
  where
    nonzero : (m : Text) → All (IsOther mode) m → All (λ x. x ≢ 0) m
    nonzero [] r = tt
    nonzero (x ∷ m) r = (r.0.0, nonzero m r.1)
