-- ===== src/Tokens/Joined.antt =====
-- ArgTokenize and ArgToArray of src/utility.cpp on a line that is put together of words.
use shroudbnc.Base.{
  ℕ, ◌≡◌, ◌≢◌, refl, ap, ◌∙◌, List, [], ◌∷◌, ◌++◌, map, Option, none, some, true, false, length,
  All, append_assoc, arith, ok, ◌>>=◌,
}
use shroudbnc.Hashtable.Key.{Text}
use shroudbnc.Tokens.{next, tokenize_loop, arg_tokenize, arg_count, array_loop, arg_to_array}
use shroudbnc.Tokens.Blocks.{IsRaw, block, unmarked, text_at, count_loop-block, array_loop-block}

-- A character of a word: no space, no zero.
abbrev pub IsPlain : ℕ → Type 0
IsPlain x = (x ≢ 32) × (x ≢ 0)

-- An argument without a colon before it: it has a character, no space, and does not begin with a colon.
abbrev pub IsWord : Text → Type 0
IsWord [] = ⊥
IsWord (x ∷ text) = IsPlain x × (x ≢ 58) × All IsPlain text

-- A trailing argument is any text without a zero.
abbrev pub IsTrailing : Option Text → Type 0
IsTrailing none = Unit
IsTrailing (some t) = All (λ x. x ≢ 0) t

-- The rest of a line after its first word.
unfoldable pub more : List Text → Option Text → Text
more [] none = []
more [] (some trailing) = 32 ∷ 58 ∷ trailing
more (w ∷ words) trailing = 32 ∷ (w ++ more words trailing)

-- The arguments after the first one.
unfoldable pub arguments : List Text → Option Text → List Text
arguments [] none = []
arguments [] (some trailing) = trailing ∷ []
arguments (w ∷ words) trailing = w ∷ arguments words trailing

-- As they stand in the block.
unfoldable raw : List Text → Option Text → List Text
raw [] none = []
raw [] (some trailing) = (58 ∷ trailing) ∷ []
raw (w ∷ words) trailing = w ∷ raw words trailing

tokenize_loop-word :
    (w rest : Text)
    → All IsPlain w
    → tokenize_loop false (w ++ rest) ≡ w ++ tokenize_loop false rest
unfolding tokenize_loop
tokenize_loop-word [] rest p = refl
tokenize_loop-word (x ∷ w) rest p = ground (arith, p.0, tokenize_loop-word w rest p.1)

-- The space before a word becomes a zero.
word_starts :
    (x : ℕ) (rest out : Text)
    → IsPlain x
    → x ≢ 58
    → tokenize_loop false rest ≡ out
    → tokenize_loop false (32 ∷ x ∷ rest) ++ 0 ∷ 0 ∷ [] ≡ 0 ∷ x ∷ (out ++ 0 ∷ 0 ∷ [])
unfolding tokenize_loop next
word_starts x rest out p colon e = ground (arith, p, colon, e)

tokenize_loop-more :
    (words : List Text) (trailing : Option Text)
    → All IsWord words
    → tokenize_loop false (more words trailing) ++ 0 ∷ 0 ∷ [] ≡ 0 ∷ block (raw words trailing)
unfolding more raw block tokenize_loop next
tokenize_loop-more [] none p = refl
tokenize_loop-more [] (some t) p = refl
tokenize_loop-more ([] ∷ words) t p = absurd p.0
tokenize_loop-more ((x ∷ w) ∷ words) t ((here, colon, later), p) =
    word_starts x (w ++ more words t) (w ++ tokenize_loop false (more words t)) here colon
      (tokenize_loop-word w (more words t) later)
    ∙ ap (λ z. 0 ∷ x ∷ z)
        (append_assoc w (tokenize_loop false (more words t)) (0 ∷ 0 ∷ [])
          ∙ ap (λ z. w ++ z) (tokenize_loop-more words t p))

plain-nonzero : (w : Text) → All IsPlain w → All (λ x. x ≢ 0) w
plain-nonzero [] p = tt
plain-nonzero (x ∷ w) p = (p.0.1, plain-nonzero w p.1)

word-IsRaw : (w : Text) → IsWord w → IsRaw w
word-IsRaw [] h = absurd h
word-IsRaw (x ∷ w) h = (h.0.1, plain-nonzero w h.2)

unmarked-word : (w : Text) → IsWord w → unmarked w ≡ w
unfolding unmarked
unmarked-word [] h = absurd h
unmarked-word (x ∷ w) h = ground (arith, h.1)

raw-IsRaw :
    (words : List Text) (trailing : Option Text)
    → All IsWord words
    → IsTrailing trailing
    → All IsRaw (raw words trailing)
unfolding raw
raw-IsRaw [] none p q = tt
raw-IsRaw [] (some t) p q = ((omega arith, q), tt)
raw-IsRaw (w ∷ words) t p q = (word-IsRaw w p.0, raw-IsRaw words t p.1 q)

raw-unmarked :
    (words : List Text) (trailing : Option Text)
    → All IsWord words
    → map (λ w. some (unmarked w)) (raw words trailing)
      ≡ map (λ w. some w) (arguments words trailing)
unfolding raw unmarked arguments
raw-unmarked [] none p = refl
raw-unmarked [] (some t) p = refl
raw-unmarked (w ∷ words) t p =
    ap (λ z. z ∷ map (λ v. some (unmarked v)) (raw words t))
      (ap (λ z. some z) (unmarked-word w p.0))
    ∙ ap (λ z. some w ∷ z) (raw-unmarked words t p.1)

tokenize_loop-line :
    (w : Text) (words : List Text) (trailing : Option Text)
    → IsWord w
    → All IsWord words
    → tokenize_loop true (w ++ more words trailing) ++ 0 ∷ 0 ∷ [] ≡ block (w ∷ raw words trailing)
unfolding tokenize_loop block
tokenize_loop-line [] words t h p = absurd h
tokenize_loop-line (x ∷ w) words t h p =
    let rest = tokenize_loop-word w (more words t) h.2 in
    ground (arith, h.0)
    ∙ ap (λ z. x ∷ z)
        (ap (λ z. z ++ 0 ∷ 0 ∷ []) rest
          ∙ append_assoc w (tokenize_loop false (more words t)) (0 ∷ 0 ∷ [])
          ∙ ap (λ z. w ++ z) (tokenize_loop-more words t p))

-- A line of words with one space between two of them, at its end perhaps an argument of any text after a space and a colon:
-- ArgToArray of what ArgTokenize makes of the line reads no byte outside the block, and the strings that its pointers show are the words and the last argument, without its colon.
pub arg_to_array-arg_tokenize :
    (w : Text) (words : List Text) (trailing : Option Text)
    → IsWord w
    → All IsWord words
    → IsTrailing trailing
    → (args : Text) × (ps : List (Option Text)) × (arg_tokenize (some (w ++ more words trailing))
        ≡ some args)
      × (arg_to_array args ≡ ok ps)
      × (map text_at ps ≡ map (λ a. some a) (arguments (w ∷ words) trailing))
unfolding arg_tokenize arg_to_array arg_count raw
arg_to_array-arg_tokenize w words t h p q =
    let ws = raw (w ∷ words) t in
    let all_raw = raw-IsRaw (w ∷ words) t (h, p) q in
    let (ps, run, reads) = array_loop-block 0 (length ws) ws (omega arith) all_raw in
    (
      block ws,
      ps,
      ap (λ z. some z) (tokenize_loop-line w words t h p),
      ap (λ o. o >>= λ count. array_loop 0 count (block ws))
            (count_loop-block 0 w (raw words t) all_raw.0 all_raw.1 ∙ ap ok (omega arith))
          ∙ run,
      reads ∙ raw-unmarked (w ∷ words) t (h, p),
    )
