-- ===== src/Nick/Sorting.antt =====
-- SortPrefixes: which order it leaves.
use mathlib.Core.List.{Perm}
use mathlib.Core.List.Perm
use shroudbnc.Base.{
  ℕ, zero, suc, ◌≤◌, ◌≡◌, refl, [], ◌∷◌, Option, none, some, true, length, All, arith,
}
use shroudbnc.Hashtable.Key.{Text}
use shroudbnc.Isupport.{has_char, get_highest_user_flag}
use shroudbnc.Nick.{bring, sort_loop, sort_prefixes}
use shroudbnc.Nick.Rounds.{
  rank, NoZero, order_of, flag-order, bring-length, bring-has, Brings, bring-Brings,
}

sort_loop-has :
    (n : ℕ) (supported : Option Text) (text : Text) (c : ℕ)
    → has_char c (sort_loop n supported text) ≡ has_char c text
unfolding sort_loop has_char
sort_loop-has zero supported text c = refl
sort_loop-has (suc n) supported [] c = refl
sort_loop-has (suc n) supported (x ∷ text) c =
    let h = get_highest_user_flag supported (some (x ∷ text)) in
    ground (arith, sort_loop-has n supported (bring h x text).1 c, bring-has h x text c)

-- Each character's rank is at most that of those behind it.
abbrev pub IsSorted : Text → Text → Type 0
IsSorted order [] = Unit
IsSorted order (x ∷ text) = All (λ c. rank order x ≤ rank order c) text × IsSorted order text

All-has : (P : ℕ → Type 0) (text : Text) → ((c : ℕ) → has_char c text ≡ true → P c) → All P text
unfolding has_char
All-has P [] f = tt
All-has P (x ∷ text) f = (f x (ground arith), All-has P text (λ c e. f c (ground (arith, e))))

-- The outer loop on `n` characters or fewer.
record Sorts (order xs ys : Text) : Type 0 where
  perm : Perm ys xs
  has : (c : ℕ) → has_char c ys ≡ has_char c xs
  sorted : IsSorted order ys

sort_step :
    (order : Text) (x : ℕ) (text : Text) (r : ℕ × Text) (zs : Text)
    → Brings order x text r
    → Sorts order r.1 zs
    → Sorts order (x ∷ text) (r.0 ∷ zs)
unfolding has_char
sort_step order x text r zs b s = record {
  perm = Perm.trans (Perm.cons r.0 s.perm) b.perm;
  has = λ c. ground (arith, s.has c, b.has c);
  sorted = (
    All-has (λ c. rank order r.0 ≤ rank order c) zs
        (λ c e. b.least c (ground (arith, e, s.has c, b.has c))),
    s.sorted,
  );
}

sort_loop-Sorts :
    (n : ℕ) (supported : Option Text) (text : Text)
    → NoZero (order_of supported)
    → length text ≤ n
    → Sorts (order_of supported) text (sort_loop n supported text)
unfolding sort_loop
sort_loop-Sorts zero supported [] clean h = record { perm = Perm.rfl; has = λ c. refl; sorted = tt }
sort_loop-Sorts zero supported (x ∷ text) clean h = absurd (omega arith)
sort_loop-Sorts (suc n) supported [] clean h = record {
  perm = Perm.rfl;
  has = λ c. refl;
  sorted = tt;
}
sort_loop-Sorts (suc n) supported (x ∷ text) clean h =
    let r = bring (get_highest_user_flag supported (some (x ∷ text))) x text in
    let b : Brings (order_of supported) x text r =
      rw (flag-order supported (x ∷ text)) (bring-Brings (order_of supported) x text clean) in
    sort_step (order_of supported) x text r (sort_loop n supported r.1) b (
      sort_loop-Sorts n supported r.1 clean
        (omega (arith, h, bring-length (get_highest_user_flag supported (some (x ∷ text))) x text)))

-- SortPrefixes on a connection whose PREFIX has no zero among its prefixes leaves the same
-- characters, in the order in which PREFIX has them, the highest first and characters that are not
-- in it last.
pub sort_prefixes-IsSorted :
    (supported : Option Text) (text : Text)
    → NoZero (order_of supported)
    → Perm (sort_prefixes (some supported) text) text
      × IsSorted (order_of supported) (sort_prefixes (some supported) text)
unfolding sort_prefixes
sort_prefixes-IsSorted supported text clean =
    let s = sort_loop-Sorts (length text) supported text clean (omega arith) in (s.perm, s.sorted)

-- SortPrefixes keeps what strchr finds.
pub has_char-sort_prefixes :
    (irc : Option (Option Text)) (text : Text) (c : ℕ)
    → has_char c (sort_prefixes irc text) ≡ has_char c text
unfolding sort_prefixes
has_char-sort_prefixes none text c = refl
has_char-sort_prefixes (some supported) text c = sort_loop-has (length text) supported text c
