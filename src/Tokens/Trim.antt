-- ===== src/Tokens/Trim.antt =====
-- StrTrim of src/utility.cpp.
use shroudbnc.Base.{
  ℕ, zero, suc, ◌+◌, ◌≡◌, refl, [], ◌∷◌, ◌++◌, none, some, false, ◌==◌, ltb, if◌then◌else◌, All,
  arith, length, set, get_or, get_elem?, Outcome, ok, fault, ◌>>=◌,
}
use shroudbnc.Hashtable.Key.{Text}
use shroudbnc.Tokens.{c_string}
use shroudbnc.Tokens.Joined.{IsPlain, IsWord}

-- The first loop: how often the character stands at the start of the string.
unfoldable pub leading : ℕ → Text → ℕ
leading c [] = 0
leading c (x ∷ text) = let rest = leading c text in if x == c then suc rest else 0

-- The loop that moves the string, from the index `i` on, with the number of rounds.
unfoldable pub move_loop : ℕ → ℕ → ℕ → Text → Outcome Text
move_loop i zero offset bytes = ok bytes
move_loop i (suc rounds) offset bytes = elim (get_elem? bytes (i + offset)) [
  | none ↦ fault
  | some x ↦ move_loop (suc i) rounds offset (set bytes i x)
]

-- The loop that removes the character from the end of a string with this length. It reads the
-- character before the first one when the string is empty.
unfoldable pub trim_loop : ℕ → ℕ → Text → Outcome Text
trim_loop c zero bytes = fault
trim_loop c (suc n) bytes =
    let rest = trim_loop c n (set bytes n 0) in if get_or bytes n 0 == c then rest else ok bytes

-- StrTrim in the block `bytes`.
unfoldable pub str_trim : ℕ → Text → Outcome Text
str_trim c bytes =
    let text = c_string bytes in
    let offset = leading c text in
    (if ltb 0 offset then move_loop 0 (length text) offset bytes else ok bytes) >>= λ moved.
    trim_loop c (length (c_string moved)) moved

pub c_string-plain : (w : Text) → All IsPlain w → c_string (w ++ 0 ∷ []) ≡ w
unfolding c_string
c_string-plain [] p = refl
c_string-plain (x ∷ w) p = ground (arith, p.0, c_string-plain w p.1)

last-plain :
    (x : ℕ) (w bytes : Text)
    → IsPlain x
    → All IsPlain w
    → (get_or (x ∷ w ++ bytes) (length w) 0 == 32) ≡ false
last-plain x [] bytes h p = ground (arith, h)
last-plain x (y ∷ w) bytes h p = last-plain y w bytes p.0 p.1

-- A word keeps its characters.
pub str_trim-word : (w : Text) → IsWord w → str_trim 32 (w ++ 0 ∷ []) ≡ ok (w ++ 0 ∷ [])
unfolding str_trim leading trim_loop
str_trim-word [] h = absurd h
str_trim-word (x ∷ w) h =
    let all_plain : All IsPlain (x ∷ w) = (h.0, h.2) in
    let start : leading 32 (x ∷ w) ≡ 0 = ground (arith, h.0) in
    rw
      (
        str_trim,
        c_string-plain (x ∷ w) all_plain,
        start,
        c_string-plain (x ∷ w) all_plain,
        last-plain x w (0 ∷ []) h.0 h.2,
      )
      refl
