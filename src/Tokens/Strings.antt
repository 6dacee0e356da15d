-- ===== src/Tokens/Strings.antt =====
-- The bounds of strmcpy and strmcat of src/utility.cpp.
use shroudbnc.Base.{
  ℕ, zero, suc, ◌+◌, ◌-◌, ◌<◌, ◌≤◌, ◌≡◌, ◌≢◌, sym, ap, ◌∙◌, [], ◌∷◌, ◌++◌, ◌==◌, All, All-append,
  append_assoc, length, length-take, length-drop, length-append, take, drop, min, arith, ok,
  Bool-cases, inl, inr,
}
use shroudbnc.Hashtable.Key.{Text}
use shroudbnc.Tokens.Blocks.{c_string-first}
use shroudbnc.Tokens.{c_string, strmcpy, strmcat}

take-min : (n : ℕ) (xs : Text) → take (min (length xs) n) xs ≡ take n xs
take-min zero xs = let e : min (length xs) 0 ≡ 0 = omega arith in ap (λ k. take k xs) e
take-min (suc n) [] = let e : min 0 (suc n) ≡ 0 = omega arith in ap (λ (k : ℕ). take {A = ℕ} k []) e
take-min (suc n) (x ∷ xs) =
    let e : min (suc (length xs)) (suc n) ≡ suc (min (length xs) n) = omega arith in
    ap (λ k. take k (x ∷ xs)) e ∙ ap (λ z. x ∷ z) (take-min n xs)

All-take : (n : ℕ) (xs : Text) → All (λ x. x ≢ 0) xs → All (λ x. x ≢ 0) (take n xs)
All-take zero xs p = tt
All-take (suc n) [] p = tt
All-take (suc n) (x ∷ xs) p = (p.0, All-take n xs p.1)

c_string-All : (block : Text) → All (λ x. x ≢ 0) (c_string block)
unfolding c_string
c_string-All [] = tt
c_string-All (x ∷ block) = elim (Bool-cases (x == 0)) [
  | inl zero_there ↦ rw zero_there tt
  | inr other ↦ rw other (ground (arith, other), c_string-All block)
]

strmcat-fits :
    (word : ℕ) (destination source : Text) (size : ℕ)
    → length (c_string destination) < size
    → size ≤ length destination
    → strmcat word destination source size
      ≡ ok (
          c_string destination
          ++ (take (min (length source) (size - length (c_string destination) - 1)) source
              ++ 0
                ∷ drop
                    (length (c_string destination)
                      + min (length source) (size - length (c_string destination) - 1)
                      + 1)
                    destination))
unfolding strmcat
strmcat-fits word destination source size h g = ground (arith, h, g)

pub strmcpy-fits :
    (destination source : Text) (size : ℕ)
    → 0 < size
    → size ≤ length destination
    → (rest : Text) × (strmcpy destination source size ≡ ok (take (size - 1) source ++ 0 ∷ rest))
      × (length (take (size - 1) source ++ 0 ∷ rest) ≡ length destination)
unfolding strmcpy
strmcpy-fits destination source size h g =
    let n = min (length source) (size - 1) in
    let rest = drop (n + 1) destination in
    let cut = take-min (size - 1) source in
    (
      rest,
      ground (arith, h, g) ∙ ap (λ z. ok (z ++ 0 ∷ rest)) cut,
      omega (
        arith,
        g,
        h,
        length-append (take (size - 1) source) (0 ∷ rest),
        length-take (size - 1) source,
        length-drop (n + 1) destination,
      ),
    )

-- strmcpy into a block of at least `size` bytes, where `size` is not zero, writes within it: the block keeps its
-- length, and the string in it is the source, cut after `size - 1` characters.
pub strmcpy-cut :
    (destination source : Text) (size : ℕ)
    → 0 < size
    → size ≤ length destination
    → All (λ x. x ≢ 0) source
    → (block : Text) × (strmcpy destination source size ≡ ok block)
      × (length block ≡ length destination)
      × (c_string block ≡ take (size - 1) source)
strmcpy-cut destination source size h g p =
    let (rest, run, kept) = strmcpy-fits destination source size h g in
    (
      take (size - 1) source ++ 0 ∷ rest,
      run,
      kept,
      c_string-first (take (size - 1) source) rest (All-take (size - 1) source p),
    )

-- strmcat to a block of at least `size` bytes, whose string and its zero fit into `size`, writes within the block: the
-- block keeps its length, and the string in it is the one before and then the source, cut
-- so that it fits into `size` with its zero.
pub strmcat-cut :
    (word : ℕ) (destination source : Text) (size : ℕ)
    → length (c_string destination) < size
    → size ≤ length destination
    → All (λ x. x ≢ 0) source
    → (block : Text) × (strmcat word destination source size ≡ ok block)
      × (length block ≡ length destination)
      × (c_string block
          ≡ c_string destination ++ take (size - 1 - length (c_string destination)) source)
unfolding strmcat
strmcat-cut word destination source size h g p =
    let begun = c_string destination in
    let room = size - 1 - length begun in
    let n = min (length source) (size - length begun - 1) in
    let rest = drop (length begun + n + 1) destination in
    let cut = take-min room source in
    let added = take room source in
    (
      begun ++ (added ++ 0 ∷ rest),
      strmcat-fits word destination source size h g
          ∙ ap (λ z. ok (begun ++ (z ++ 0 ∷ rest))) (ap (λ k. take k source) (omega arith) ∙ cut),
      omega (
        arith,
        g,
        h,
        length-append begun (added ++ 0 ∷ rest),
        length-append added (0 ∷ rest),
        length-take room source,
        length-drop (length begun + n + 1) destination,
      ),
      ap c_string (sym (append_assoc begun added (0 ∷ rest)))
          ∙ c_string-first (begun ++ added) rest (
              All-append (λ x. x ≢ 0) begun added (c_string-All destination)
                (All-take room source p)),
    )
