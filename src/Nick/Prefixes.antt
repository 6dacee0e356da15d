-- ===== src/Nick/Prefixes.antt =====
-- The prefixes of a CNick as a set: AddPrefix, RemovePrefix and HasPrefix.
use shroudbnc.Base.{
  ℕ, ◌≡◌, ◌≢◌, refl, sym, ap, ◌∙◌, subst, [], ◌∷◌, Option, none, some, Bool, true, false, ◌==◌,
  ◌||◌, ◌&&◌, not, if◌then◌else◌, arith, Bool-cases, Option-cases, inl, inr,
}
use shroudbnc.Hashtable.Key.{Text}
use shroudbnc.Isupport.{has_char}
use shroudbnc.Nick.{
  Nick, has_prefix, add_prefix, remove_prefix, with_char, text_of, without, sort_prefixes,
}
use shroudbnc.Nick.Sorting.{has_char-sort_prefixes}

has_char-with_char :
    (c q : ℕ) (text : Text) → q ≢ 0 → has_char q (with_char c text) ≡ (has_char q text || (c == q))
unfolding has_char
has_char-with_char c q [] h = ground (arith, h)
has_char-with_char c q (x ∷ text) h = ground (arith, h, has_char-with_char c q text h)

has_char-without :
    (c q : ℕ) (text : Text)
    → q ≢ 0
    → has_char q (without c text) ≡ (has_char q text && not (c == q))
unfolding has_char without
has_char-without c q [] h = ground (arith, h)
has_char-without c q (x ∷ text) h = ground (arith, h, has_char-without c q text h)

has_prefix-text : (q : ℕ) (n : Nick) → q ≢ 0 → has_prefix q n ≡ has_char q (text_of n.prefixes)
unfolding has_prefix has_char
has_prefix-text q n h = ground (arith, h)

already :
    (c q : ℕ) (n : Nick)
    → has_prefix c n ≡ true
    → has_prefix q n ≡ (has_prefix q n || ((c == q) && true))
already c q n old = elim (Bool-cases (c == q)) [
  | inr miss ↦ ground (arith, miss)
  | inl hit ↦
      let now : has_prefix q n ≡ true =
        subst (λ z. has_prefix z n ≡ true) (ground (arith, hit)) old in
      ground (arith, now)
]

added :
    (grown : Bool) (irc : Option (Option Text)) (c q : ℕ) (n : Nick)
    → q ≢ 0
    → let r : Nick × Bool =
        if grown
        then (
          record n { prefixes = some (sort_prefixes irc (with_char c (text_of n.prefixes))) },
          true,
        )
        else (n, false) in
      (r.1 ≡ grown)
      × (has_prefix q r.0 ≡ (has_prefix q n || ((c == q) && r.1)))
      × (r.1 ≡ false → r.0 ≡ n)
added false irc c q n h = (refl, ground arith, λ e. refl)
added true irc c q n h = (
  refl,
  has_prefix-text q _ h
      ∙ has_char-sort_prefixes irc (with_char c (text_of n.prefixes)) q
      ∙ has_char-with_char c q (text_of n.prefixes) h
      ∙ ground (arith, has_prefix-text q n h),
  λ e. absurd (ground (arith, e)),
)

-- AddPrefix and then HasPrefix, for a character other than the terminating zero: where AddPrefix
-- returns true the nick has the prefix and the prefixes it had before, whatever the connection sorts
-- them by. AddPrefix returns false only where the prefix is new and memory is short, and then it
-- changes nothing.
pub has_prefix-add_prefix :
    (grown : Bool) (irc : Option (Option Text)) (c q : ℕ) (n : Nick)
    → q ≢ 0
    → ((add_prefix grown irc c n).1 ≡ (has_prefix c n || grown))
      × (has_prefix q (add_prefix grown irc c n).0
          ≡ (has_prefix q n || ((c == q) && (add_prefix grown irc c n).1)))
      × ((add_prefix grown irc c n).1 ≡ false → (add_prefix grown irc c n).0 ≡ n)
unfolding add_prefix
has_prefix-add_prefix grown irc c q n h = elim (Bool-cases (has_prefix c n)) [
  | inl old ↦ rw (add_prefix, old) (refl, already c q n old, λ e. refl)
  | inr fresh ↦ rw (add_prefix, fresh) (added grown irc c q n h)
]

remove_prefix-some :
    (allocated : Bool) (c : ℕ) (n : Nick) (text : Text)
    → n.prefixes ≡ some text
    → remove_prefix allocated c n
      ≡ (if allocated then (record n { prefixes = some (without c text) }, true) else (n, false))
unfolding remove_prefix
remove_prefix-some allocated c n text e =
    ap
      (λ (o : Option Text). elim o as (λ t. Nick × Bool) [
        | none ↦ (n, true)
        | some t ↦
            if allocated then (record n { prefixes = some (without c t) }, true) else (n, false)
      ])
      e

-- RemovePrefix and then HasPrefix, for a character other than the terminating zero: where
-- RemovePrefix returns true the prefix is gone, even where it stood more than once, and every
-- other prefix is kept. It returns false only where memory is short, and then it changes nothing.
pub has_prefix-remove_prefix :
    (allocated : Bool) (c q : ℕ) (n : Nick)
    → q ≢ 0
    → (has_prefix q (remove_prefix allocated c n).0
        ≡ (has_prefix q n && not ((c == q) && (remove_prefix allocated c n).1)))
      × ((remove_prefix allocated c n).1 ≡ false
          → (allocated ≡ false) × ((remove_prefix allocated c n).0 ≡ n))
unfolding remove_prefix has_prefix
has_prefix-remove_prefix allocated c q n h = elim (Option-cases n.prefixes) [
  | inl e ↦ rw (remove_prefix, e) (ground (arith, e), λ f. absurd (ground (arith, f)))
  | inr (text, e) ↦
      subst
        (λ (r : Nick × Bool).
          (has_prefix q r.0 ≡ (has_prefix q n && not ((c == q) && r.1)))
          × (r.1 ≡ false → (allocated ≡ false) × (r.0 ≡ n)))
        (sym (remove_prefix-some allocated c n text e)) (by_memory allocated text e)
]
  where
    by_memory :
        (b : Bool) (text : Text)
        → n.prefixes ≡ some text
        → let r : Nick × Bool =
            if b then (record n { prefixes = some (without c text) }, true) else (n, false) in
          (has_prefix q r.0 ≡ (has_prefix q n && not ((c == q) && r.1)))
          × (r.1 ≡ false → (b ≡ false) × (r.0 ≡ n))
    by_memory false text e = (ground arith, λ f. (refl, refl))
    by_memory true text e =
        (ground (arith, e, has_char-without c q text h), λ f. absurd (ground (arith, f)))
