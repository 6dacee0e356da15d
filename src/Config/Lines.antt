-- ===== src/Config/Lines.antt =====
-- One line of a configuration file, printed and read.
use shroudbnc.Base.{
  ℕ, ◌+◌, ◌-◌, ◌<◌, ◌≡◌, ◌≢◌, refl, sym, ap, ◌∙◌, [], ◌∷◌, ◌++◌, some, Bool, false, ◌==◌, ◌||◌, All,
  All-append, length, length-append, append_assoc, arith, ok,
}
use shroudbnc.Hashtable.Key.{Text}
use shroudbnc.Hashtable.Entries.{Bucket}
use shroudbnc.Config.{line_length, fgets_all, strip_last, split_at, parse_line}
use shroudbnc.Config.Printing.{print}

-- Whether the last character is the one given.
unfoldable pub ends_with : ℕ → Text → Bool
ends_with c [] = false
ends_with c (x ∷ []) = x == c
ends_with c (x ∷ y ∷ text) = ends_with c (y ∷ text)

-- The character is not in the text.
abbrev pub Without : ℕ → Text → Type 0
Without c = All (λ x. x ≢ c)

-- A setting that has a line of its own: no line feed in it, no "=" in its name, no carriage return
-- at its end, and short enough for the buffer of ParseConfig.
pub record IsPrintable (e : Text × Text) : Type 0 where
  pub name_line : Without 10 e.0
  pub name_sign : Without 61 e.0
  pub value_line : Without 10 e.1
  pub value_end : ends_with 13 e.1 ≡ false
  pub short : length e.0 + length e.1 + 2 < line_length

fgets_all-line :
    (room left : ℕ) (begun line rest : Text)
    → Without 10 line
    → length line < left
    → fgets_all room left begun (line ++ 10 ∷ rest)
      ≡ (begun ++ (line ++ 10 ∷ [])) ∷ fgets_all room room [] rest
unfolding fgets_all
fgets_all-line room left [] [] rest h lt = refl
fgets_all-line room left (b ∷ begun) [] rest h lt = refl
fgets_all-line room left begun (x ∷ line) rest h lt =
    let goes_on : ((x == 10) || (left == 1)) ≡ false = ground (arith, h.0, lt) in
    rw (fgets_all, goes_on)
      (fgets_all-line room (left - 1) (begun ++ x ∷ []) line rest h.1 (omega arith)
        ∙ ap (λ z. z ∷ fgets_all room room [] rest) (append_assoc begun (x ∷ []) (line ++ 10 ∷ [])))

strip_last-snoc : (c : ℕ) (text : Text) → strip_last c (text ++ c ∷ []) ≡ some text
unfolding strip_last
strip_last-snoc c [] = ground arith
strip_last-snoc c (x ∷ []) = ground arith
strip_last-snoc c (x ∷ y ∷ text) = ground (arith, strip_last-snoc c (y ∷ text))

strip_last-keeps :
    (c x : ℕ) (text : Text)
    → ends_with c (x ∷ text) ≡ false
    → strip_last c (x ∷ text) ≡ some (x ∷ text)
unfolding strip_last ends_with
strip_last-keeps c x [] h = ground (arith, h)
strip_last-keeps c x (y ∷ text) h = ground (arith, strip_last-keeps c y text h)

ends_with-append :
    (c x : ℕ) (front back : Text) → ends_with c (front ++ x ∷ back) ≡ ends_with c (x ∷ back)
unfolding ends_with
ends_with-append c x [] back = refl
ends_with-append c x (y ∷ []) back = refl
ends_with-append c x (y ∷ z ∷ front) back = ends_with-append c x (z ∷ front) back

ends_with-sign : (value : Text) → ends_with 13 value ≡ false → ends_with 13 (61 ∷ value) ≡ false
unfolding ends_with
ends_with-sign [] h = ground arith
ends_with-sign (x ∷ value) h = h

split_at-first :
    (c : ℕ) (before after : Text)
    → Without c before
    → split_at c (before ++ c ∷ after) ≡ some (before, after)
unfolding split_at
split_at-first c [] after h = ground arith
split_at-first c (x ∷ before) after h = ground (arith, h.0, split_at-first c before after h.1)

parse_line-stripped :
    (x : ℕ) (line text : Text)
    → strip_last 10 (x ∷ line) ≡ some text
    → strip_last 13 text ≡ some text
    → parse_line (x ∷ line) ≡ ok (split_at 61 text)
unfolding parse_line
parse_line-stripped x line text e f = rw (parse_line, e, f)

parse_line-text :
    (text : Text)
    → text ≢ []
    → strip_last 13 text ≡ some text
    → parse_line (text ++ 10 ∷ []) ≡ ok (split_at 61 text)
parse_line-text [] h f = absurd (h refl)
parse_line-text (x ∷ text) h f =
    parse_line-stripped x (text ++ 10 ∷ []) (x ∷ text) (strip_last-snoc 10 (x ∷ text)) f

sign-ne-nil : (name value : Text) → name ++ 61 ∷ value ≢ []
sign-ne-nil [] value e = cc
sign-ne-nil (x ∷ name) value e = cc

sign-keeps :
    (name value : Text)
    → ends_with 13 value ≡ false
    → strip_last 13 (name ++ 61 ∷ value) ≡ some (name ++ 61 ∷ value)
sign-keeps [] value h = strip_last-keeps 13 61 value (ends_with-sign value h)
sign-keeps (x ∷ name) value h =
    strip_last-keeps 13 x (name ++ 61 ∷ value)
      (ends_with-append 13 61 (x ∷ name) value ∙ ends_with-sign value h)

-- The line that Persist prints for a setting is read as this setting.
pub parse_line-print :
    (e : Text × Text)
    → IsPrintable e
    → parse_line ((e.0 ++ 61 ∷ e.1) ++ 10 ∷ []) ≡ ok (some (e.0, e.1))
parse_line-print e p =
    parse_line-text (e.0 ++ 61 ∷ e.1) (sign-ne-nil e.0 e.1) (sign-keeps e.0 e.1 p.value_end)
    ∙ ap ok (split_at-first 61 e.0 e.1 p.name_sign)

Without-sign :
    (name value : Text) → Without 10 name → Without 10 value → Without 10 (name ++ 61 ∷ value)
Without-sign name value h g = All-append (λ x. x ≢ 10) name (61 ∷ value) h (omega arith, g)

-- fgets finds this line at the front of what Persist prints.
pub fgets_all-print :
    (e : Text × Text) (es : Bucket Text)
    → IsPrintable e
    → fgets_all (line_length - 1) (line_length - 1) [] (print (e ∷ es))
      ≡ ((e.0 ++ 61 ∷ e.1) ++ 10 ∷ []) ∷ fgets_all (line_length - 1) (line_length - 1) [] (print es)
unfolding print
fgets_all-print e es p =
    ap (fgets_all (line_length - 1) (line_length - 1) [])
      (sym (append_assoc e.0 (61 ∷ e.1) (10 ∷ print es)))
    ∙ fgets_all-line (line_length - 1) (line_length - 1) [] (e.0 ++ 61 ∷ e.1) (print es)
        (Without-sign e.0 e.1 p.name_line p.value_line)
        (omega (arith, p.short, length-append e.0 (61 ∷ e.1)))
