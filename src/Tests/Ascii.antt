-- ===== src/Tests/Ascii.antt =====
-- The C library's comparisons for ASCII text.
use shroudbnc.Base.{
  ℕ, ◌+◌, ◌≡◌, refl, subst, ◌↔◌, [], ◌∷◌, map, Bool, true, false, ◌&&◌, leb, ◌==◌, if◌then◌else◌,
  arith,
}
use shroudbnc.Hashtable.Key.{Text, KeyRule}

unfoldable pub equal_text : Text → Text → Bool
equal_text [] [] = true
equal_text [] (y ∷ b) = false
equal_text (x ∷ a) [] = false
equal_text (x ∷ a) (y ∷ b) = (x == y) && equal_text a b

equal_text-eq : (a b : Text) → equal_text a b ≡ true → a ≡ b
unfolding equal_text
equal_text-eq [] [] h = refl
equal_text-eq [] (y ∷ b) h = cc
equal_text-eq (x ∷ a) [] h = cc
equal_text-eq (x ∷ a) (y ∷ b) h =
    let rest : a ≡ b = equal_text-eq a b (ground (arith, h)) in
    let first : x ≡ y = ground (arith, h) in cc

equal_text_refl : (a : Text) → equal_text a a ≡ true
unfolding equal_text
equal_text_refl [] = refl
equal_text_refl (x ∷ a) = ground (arith, equal_text_refl a)

pub equal_text_iff : (a b : Text) → (equal_text a b ≡ true) ↔ (a ≡ b)
equal_text_iff a b =
    (equal_text-eq a b, λ e. subst (λ z. equal_text a z ≡ true) e (equal_text_refl a))

unfoldable pub lower : ℕ → ℕ
lower x = if leb 65 x && leb x 90 then x + 32 else x

abbrev pub ascii : Bool → KeyRule
ascii sensitive = record {
  case_sensitive = sensitive;
  tolower = lower;
  strcmp_zero = equal_text;
  strcasecmp_zero = λ a b. equal_text (map lower a) (map lower b);
  strcmp_iff = equal_text_iff;
  strcasecmp_iff = λ a b. equal_text_iff (map lower a) (map lower b);
}
