-- ===== src/Tests/Tables.antt =====
-- Hash tables of numbers, keyed by nicks.
use mathlib.Core.List.{flatten}
use shroudbnc.Base.{
  List, get_elem?, ℕ, ◌*◌, ◌^◌, ◌≤◌, ◌<◌, ◌≡◌, ◌≢◌, refl, [], ◌∷◌, none, some, true, false, length,
  arith,
}
use shroudbnc.Hashtable.Key.{KeyRule, Text, same, same_refl, hash, hash_loop}
use shroudbnc.Hashtable.{Table, get, remove_key, add_key}
use shroudbnc.Hashtable as Hashtable
use shroudbnc.Hashtable.View.{IsValid}
use shroudbnc.Hashtable.Writes.{Writes, remove_key-Writes}
use shroudbnc.Hashtable.Row.{new-IsValid}
use shroudbnc.Hashtable.Adding.{add_key-Writes}
use shroudbnc.Hashtable.Growth.{
  IsRoomy, new-IsRoomy, IsRoomy-after, add_key-IsRoomy, add_key-collision,
}
use shroudbnc.Hashtable.Iteration.{Cursor, Points, iterate, iterate-Points}
use shroudbnc.Tests.Ascii.{ascii, equal_text}

abbrev exact : KeyRule
exact = ascii true

-- "b[b[", "b[a|", "a|b[" and "a|a|", which have one hash value.
abbrev nick_a : Text
nick_a = 98 ∷ 91 ∷ 98 ∷ 91 ∷ []

abbrev nick_b : Text
nick_b = 98 ∷ 91 ∷ 97 ∷ 124 ∷ []

abbrev nick_c : Text
nick_c = 97 ∷ 124 ∷ 98 ∷ 91 ∷ []

abbrev nick_d : Text
nick_d = 97 ∷ 124 ∷ 97 ∷ 124 ∷ []

abbrev blank : Table ℕ
blank = Hashtable.new

blank-roomy : 64 < length blank.buckets * 2 ^ 2
unfolding Hashtable.new
blank-roomy = omega arith

-- What an Add to a valid table with room gives.
abbrev Added : Text → ℕ → Table ℕ → Type 0
Added k x t =
    (u : Table ℕ) × (add_key ⦃rule = exact⦄ 64 3 k x t ≡ some u)
    × Writes ⦃rule = exact⦄ t k (some x) u
    × (length t.buckets ≤ length u.buckets)

add_key-Writes_example : Added nick_a 1 blank
add_key-Writes_example =
    add_key-Writes ⦃rule = exact⦄ 64 2 nick_a 1 blank (new-IsValid ⦃rule = exact⦄) blank-roomy

remove_key-Writes_example :
    Writes ⦃rule = exact⦄ blank nick_a none (remove_key ⦃rule = exact⦄ false nick_a blank)
remove_key-Writes_example =
    remove_key-Writes ⦃rule = exact⦄ false nick_a blank (new-IsValid ⦃rule = exact⦄)

first : Added nick_a 1 blank
first = add_key-Writes ⦃rule = exact⦄ 64 2 nick_a 1 blank (new-IsValid ⦃rule = exact⦄) blank-roomy

first-wide : 64 < length first.0.buckets * 2 ^ 2
first-wide = omega (arith, first.3, blank-roomy)

second : Added nick_b 2 first.0
second = add_key-Writes ⦃rule = exact⦄ 64 2 nick_b 2 first.0 first.2.valid first-wide

second-wide : 64 < length second.0.buckets * 2 ^ 2
second-wide = omega (arith, second.3, first-wide)

third : Added nick_c 3 second.0
third = add_key-Writes ⦃rule = exact⦄ 64 2 nick_c 3 second.0 second.2.valid second-wide

third-wide : 64 < length third.0.buckets * 2 ^ 2
third-wide = omega (arith, third.3, second-wide)

add_key-IsRoomy_example :
    (u : Table ℕ) × (add_key ⦃rule = exact⦄ 64 3 nick_a 1 blank ≡ some u)
    × IsValid ⦃rule = exact⦄ u
    × IsRoomy ⦃rule = exact⦄ 64 u
add_key-IsRoomy_example =
    add_key-IsRoomy ⦃rule = exact⦄ 64 2 nick_a 1 blank (new-IsValid ⦃rule = exact⦄) blank-roomy
      (new-IsRoomy ⦃rule = exact⦄ ℕ 64)

third-IsRoomy : IsRoomy ⦃rule = exact⦄ 64 third.0
third-IsRoomy =
    IsRoomy-after ⦃rule = exact⦄ 64 3 nick_c 3 second.0 third.0
      (IsRoomy-after ⦃rule = exact⦄ 64 3 nick_b 2 first.0 second.0
        (IsRoomy-after ⦃rule = exact⦄ 64 3 nick_a 1 blank first.0 (new-IsRoomy ⦃rule = exact⦄ ℕ 64)
          first.1)
        second.1)
      third.1

differ : (a b : Text) → equal_text a b ≡ false → same ⦃rule = exact⦄ a b ≡ false
unfolding same
differ a b h = h

one_hash :
    (hash ⦃rule = exact⦄ nick_b ≡ hash ⦃rule = exact⦄ nick_a)
    × (hash ⦃rule = exact⦄ nick_c ≡ hash ⦃rule = exact⦄ nick_a)
    × (hash ⦃rule = exact⦄ nick_d ≡ hash ⦃rule = exact⦄ nick_a)
unfolding hash hash_loop
one_hash = (refl, refl, refl)

a-differs :
    (equal_text nick_a nick_b ≡ false)
    × (equal_text nick_a nick_c ≡ false)
    × (equal_text nick_a nick_d ≡ false)
unfolding equal_text
a-differs = (refl, refl, refl)

others-differ :
    (equal_text nick_b nick_c ≡ false)
    × (equal_text nick_b nick_d ≡ false)
    × (equal_text nick_c nick_d ≡ false)
unfolding equal_text
others-differ = (refl, refl, refl)

reversed :
    (equal_text nick_b nick_a ≡ false)
    × (equal_text nick_c nick_a ≡ false)
    × (equal_text nick_c nick_b ≡ false)
unfolding equal_text
reversed = (refl, refl, refl)

-- What an Add leaves of a key that is there.
kept :
    (k q : Text) (x y : ℕ) (t u : Table ℕ)
    → Writes ⦃rule = exact⦄ t k (some x) u
    → same ⦃rule = exact⦄ k q ≡ false
    → get ⦃rule = exact⦄ (some q) t ≡ some y
    → get ⦃rule = exact⦄ (some q) u ≡ some y
kept k q x y t u w away e = ground (arith, w.reads q, away, e)

stored_now :
    (k : Text) (x : ℕ) (t u : Table ℕ)
    → Writes ⦃rule = exact⦄ t k (some x) u
    → same ⦃rule = exact⦄ k k ≡ true
    → get ⦃rule = exact⦄ (some k) u ≡ some x
stored_now k x t u w here = ground (arith, w.reads k, here)

some_value :
    (k : Text) (x : ℕ) (t : Table ℕ)
    → get ⦃rule = exact⦄ (some k) t ≡ some x
    → get ⦃rule = exact⦄ (some k) t ≢ none
some_value k x t e f = ground (arith, e, f)

has_a : get ⦃rule = exact⦄ (some nick_a) third.0 ≡ some 1
has_a = kept nick_c nick_a 3 1 second.0 third.0 third.2 (differ nick_c nick_a reversed.1) (
    kept nick_b nick_a 2 1 first.0 second.0 second.2 (differ nick_b nick_a reversed.0)
      (stored_now nick_a 1 blank first.0 first.2 (same_refl ⦃rule = exact⦄ nick_a)))

has_b : get ⦃rule = exact⦄ (some nick_b) third.0 ≡ some 2
has_b =
    kept nick_c nick_b 3 2 second.0 third.0 third.2 (differ nick_c nick_b reversed.2)
      (stored_now nick_b 2 first.0 second.0 second.2 (same_refl ⦃rule = exact⦄ nick_b))

has_c : get ⦃rule = exact⦄ (some nick_c) third.0 ≡ some 3
has_c = stored_now nick_c 3 second.0 third.0 third.2 (same_refl ⦃rule = exact⦄ nick_c)

add_key-collision_example :
    (u : Table ℕ) × (add_key ⦃rule = exact⦄ 64 3 nick_d 4 third.0 ≡ some u)
    × (64 < 2 * length u.buckets)
add_key-collision_example =
    add_key-collision ⦃rule = exact⦄ 64 2 nick_a nick_b nick_c nick_d 4 third.0 third.2.valid
      third-IsRoomy third-wide one_hash.0 one_hash.1 one_hash.2 (differ nick_a nick_b a-differs.0)
      (differ nick_a nick_c a-differs.1) (differ nick_a nick_d a-differs.2)
      (differ nick_b nick_c others-differ.0) (differ nick_b nick_d others-differ.1)
      (differ nick_c nick_d others-differ.2) (some_value nick_a 1 third.0 has_a)
      (some_value nick_b 2 third.0 has_b) (some_value nick_c 3 third.0 has_c)

-- Three entries in two buckets, and the static variables after a call for the index 1.
abbrev two_buckets : List (List ℕ)
two_buckets = (5 ∷ 6 ∷ []) ∷ (7 ∷ []) ∷ []

abbrev at_one : Cursor
at_one = record { owner = some 9; index = 1; bucket = 0; slot = 1 }

at_one-Points : Points 9 two_buckets at_one
unfolding flatten
at_one-Points = λ own. refl

iterate-Points_example :
    ((iterate 9 2 two_buckets at_one).1 ≡ get_elem? (flatten two_buckets) 2)
    × Points 9 two_buckets (iterate 9 2 two_buckets at_one).0
iterate-Points_example = iterate-Points 9 2 two_buckets at_one at_one-Points
