-- ===== src/Nick/Rounds.antt =====
-- One round of SortPrefixes: the highest character comes to the front.
use mathlib.Core.List.{Perm}
use mathlib.Core.List.Perm
use shroudbnc.Base.{
  ℕ, suc, ◌≤◌, ◌≡◌, ◌≢◌, refl, subst, [], ◌∷◌, Option, none, some, true, false, ◌==◌, if◌then◌else◌,
  length, All, arith, Bool-cases, Option-cases, inl, inr, ◌⊎◌,
}
use shroudbnc.Hashtable.Key.{Text}
use shroudbnc.Isupport.{has_char, highest_loop, get_highest_user_flag, actual_prefixes, close_paren}
use shroudbnc.Nick.{swap_first, bring, text_of}

-- The place of a character in the server's order; a character that is not there comes last.
unfoldable pub rank : Text → ℕ → ℕ
rank [] c = 0
rank (p ∷ order) c = if p == c then 0 else suc (rank order c)

-- No string has the terminating zero in it.
abbrev pub NoZero : Text → Type 0
NoZero = All (λ x. x ≢ 0)

-- The prefixes in the order in which PREFIX has them.
abbrev pub order_of : Option Text → Text
order_of none = []
order_of (some supported) = text_of (actual_prefixes supported)

highest_loop-order :
    (supported modes : Text)
    → highest_loop false supported modes
      ≡ highest_loop true (text_of (actual_prefixes supported)) modes
unfolding highest_loop actual_prefixes
highest_loop-order [] modes = refl
highest_loop-order (p ∷ ps) modes = elim (Bool-cases (p == close_paren)) [
  | inl e ↦ rw e
  | inr e ↦ rw e (highest_loop-order ps modes)
]

pub flag-order :
    (supported : Option Text) (modes : Text)
    → get_highest_user_flag supported (some modes) ≡ highest_loop true (order_of supported) modes
unfolding get_highest_user_flag highest_loop
flag-order none modes = refl
flag-order (some supported) modes = highest_loop-order supported modes

swap_first-length :
    (h x : ℕ) (text ys : Text) → swap_first h x text ≡ some ys → length ys ≡ length text
unfolding swap_first
swap_first-length h x [] ys e = cc
swap_first-length h x (y ∷ text) ys e = elim (Bool-cases (y == h)) [
  | inl hit ↦ ground (arith, hit, e)
  | inr miss ↦ elim (Option-cases (swap_first h x text)) [
    | inl fails ↦ ground (arith, miss, fails, e)
    | inr (zs, runs) ↦ ground (arith, miss, runs, e, swap_first-length h x text zs runs)
  ]
]

pub bring-length : (h x : ℕ) (text : Text) → length (bring h x text).1 ≡ length text
unfolding bring
bring-length h x text = elim (Option-cases (swap_first h x text)) [
  | inl fails ↦ ground (arith, fails)
  | inr (ys, runs) ↦ ground (arith, runs, swap_first-length h x text ys runs)
]

-- What is known of the first character of the order that a string has.
highest-least :
    (order modes : Text) (c : ℕ)
    → has_char c modes ≡ true
    → rank order (highest_loop true order modes) ≤ rank order c
unfolding highest_loop rank
highest-least [] modes c h = omega arith
highest-least (p ∷ order) modes c h = elim (Bool-cases (has_char p modes)) [
  | inl e ↦ rw (highest_loop, e) (ground arith)
  | inr e ↦
      rw (highest_loop, e)
        (elim (Bool-cases (p == c)) [
          | inl hit ↦ absurd (ground (arith, h, e, hit))
          | inr miss ↦ rw (rank, miss) (ground (arith, highest-least order modes c h))
        ])
]

highest-has :
    (order modes : Text)
    → (highest_loop true order modes ≡ 0) ⊎ (has_char (highest_loop true order modes) modes ≡ true)
unfolding highest_loop
highest-has [] modes = inl refl
highest-has (p ∷ order) modes = elim (Bool-cases (has_char p modes)) [
  | inl e ↦ inr (rw (highest_loop, e) e)
  | inr e ↦ rw (highest_loop, e) (highest-has order modes)
]

rank-le : (order : Text) (c : ℕ) → rank order c ≤ length order
unfolding rank
rank-le [] c = omega arith
rank-le (p ∷ order) c = ground (arith, rank-le order c)

rank-zero : (order : Text) → NoZero order → rank order 0 ≡ length order
unfolding rank
rank-zero [] h = refl
rank-zero (p ∷ order) h = ground (arith, h.0, rank-zero order h.1)

swap_first-none : (h x : ℕ) (text : Text) → swap_first h x text ≡ none → has_char h text ≡ (h == 0)
unfolding swap_first has_char
swap_first-none h x [] e = refl
swap_first-none h x (y ∷ text) e = ground (arith, e, swap_first-none h x text)

swap_first-has :
    (h x : ℕ) (text ys : Text) (c : ℕ)
    → swap_first h x text ≡ some ys
    → has_char c (h ∷ ys) ≡ has_char c (x ∷ text)
unfolding swap_first has_char
swap_first-has h x [] ys c e = cc
swap_first-has h x (y ∷ text) ys c e = elim (Bool-cases (y == h)) [
  | inl hit ↦ ground (arith, hit, e)
  | inr miss ↦ elim (Option-cases (swap_first h x text)) [
    | inl fails ↦ ground (arith, miss, fails, e)
    | inr (zs, runs) ↦ ground (arith, miss, runs, e, swap_first-has h x text zs c runs)
  ]
]

swap_first-perm :
    (h x : ℕ) (text ys : Text) → swap_first h x text ≡ some ys → Perm (h ∷ ys) (x ∷ text)
unfolding swap_first
swap_first-perm h x [] ys e = cc
swap_first-perm h x (y ∷ text) ys e = elim (Bool-cases (y == h)) [
  | inl hit ↦
      let same_head : y ≡ h = ground (arith, hit) in
      let rest : x ∷ text ≡ ys = ground (arith, hit, e) in
      subst (λ z. Perm (h ∷ z) (x ∷ y ∷ text)) rest
        (subst (λ z. Perm (z ∷ x ∷ text) (x ∷ y ∷ text)) same_head (Perm.swap x y text))
  | inr miss ↦ elim (Option-cases (swap_first h x text)) [
    | inl fails ↦ absurd (ground (arith, miss, fails, e))
    | inr (zs, runs) ↦
        let rest : y ∷ zs ≡ ys = ground (arith, miss, runs, e) in
        subst (λ z. Perm (h ∷ z) (x ∷ y ∷ text)) rest
          (Perm.trans (Perm.swap y h zs)
            (Perm.trans (Perm.cons y (swap_first-perm h x text zs runs)) (Perm.swap x y text)))
  ]
]

not_found :
    (h x : ℕ) (text : Text)
    → (x == h) ≡ false
    → swap_first h x text ≡ none
    → has_char h (x ∷ text) ≡ true
    → h ≡ 0
unfolding has_char
not_found h x text miss fails e = ground (arith, miss, e, swap_first-none h x text fails)

pub bring-has :
    (h x : ℕ) (text : Text) (c : ℕ)
    → has_char c ((bring h x text).0 ∷ (bring h x text).1) ≡ has_char c (x ∷ text)
unfolding bring
bring-has h x text c = elim (Bool-cases (x == h)) [
  | inl hit ↦ rw (bring, hit)
  | inr miss ↦ elim (Option-cases (swap_first h x text)) [
    | inl fails ↦ rw (bring, miss, fails)
    | inr (ys, runs) ↦ rw (bring, miss, runs) (swap_first-has h x text ys c runs)
  ]
]

-- What one round does to the characters from its place on.
pub record Brings (order : Text) (x : ℕ) (text : Text) (r : ℕ × Text) : Type 0 where
  pub perm : Perm (r.0 ∷ r.1) (x ∷ text)
  pub has : (c : ℕ) → has_char c (r.0 ∷ r.1) ≡ has_char c (x ∷ text)
  pub least : (c : ℕ) → has_char c (x ∷ text) ≡ true → rank order r.0 ≤ rank order c

pub bring-Brings :
    (order : Text) (x : ℕ) (text : Text)
    → NoZero order
    → Brings order x text (bring (highest_loop true order (x ∷ text)) x text)
unfolding bring
bring-Brings order x text clean =
    let h = highest_loop true order (x ∷ text) in
    elim (Bool-cases (x == h)) [
      | inl hit ↦
          rw (bring, hit)
            (record {
              perm = Perm.rfl;
              has = λ c. refl;
              least = λ c e.
                  subst (λ z. rank order z ≤ rank order c) (ground (arith, hit))
                    (highest-least order (x ∷ text) c e);
            })
      | inr miss ↦ elim (Option-cases (swap_first h x text)) [
        | inr (ys, runs) ↦
            rw (bring, miss, runs)
              (record {
                perm = swap_first-perm h x text ys runs;
                has = λ c. swap_first-has h x text ys c runs;
                least = highest-least order (x ∷ text);
              })
        | inl fails ↦
            rw (bring, miss, fails)
              (record {
                perm = Perm.rfl;
                has = λ c. refl;
                least = λ c e. omega (
                  arith,
                  rank-le order x,
                  rank-zero order clean,
                  subst (λ z. rank order z ≤ rank order c) (none_known miss fails)
                      (highest-least order (x ∷ text) c e),
                );
              })
      ]
    ]
  where
    none_known :
        (x == highest_loop true order (x ∷ text)) ≡ false
        → swap_first (highest_loop true order (x ∷ text)) x text ≡ none
        → highest_loop true order (x ∷ text) ≡ 0
    none_known miss fails = elim (highest-has order (x ∷ text)) [
      | inl e ↦ e
      | inr e ↦ not_found (highest_loop true order (x ∷ text)) x text miss fails e
    ]
