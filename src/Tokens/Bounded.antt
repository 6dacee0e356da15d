-- ===== src/Tokens/Bounded.antt =====
-- The bounds of the arrays of ArgTokenize2 of src/utility.cpp.
use shroudbnc.Base.{
  ℕ, zero, suc, ◌+◌, ◌-◌, ◌<◌, ◌≤◌, ◌≡◌, ap, ◌∙◌, List, [], ◌∷◌, ◌++◌, Bool, false, ◌==◌, ◌&&◌, not,
  ltb, leb, length, length-set, length-replicate, set, get_or, take, replicate, min, arith, ok,
  ◌>>=◌, Bool-cases, inl, inr,
}
use shroudbnc.Hashtable.Key.{Text}
use shroudbnc.Hashtable.View.{get_or-set}
use shroudbnc.Tokens.Strings.{strmcpy-fits}
use shroudbnc.Tokens.{
  next, TokenData, begin_token, move_token, tokenize2_round, tokenize2_loop, arg_tokenize2,
}

-- What ArgTokenize2 keeps for a string of the length `n`: at most 32 tokens in the arrays of the declared sizes, and each token
-- begins in the string's array, or after it, which takes a longer string.
pub record IsBounded (n : ℕ) (t : TokenData) : Type 0 where
  pub some_token : 0 < t.count
  pub few : t.count ≤ 32
  pub pointers : length t.pointers ≡ 32
  pub string : length t.string ≡ 512
  pub offsets : (k : ℕ) → k < t.count → get_or t.pointers k 0 ≤ min n 512

-- A write of an offset keeps the bounds.
set-offsets :
    (n at value count : ℕ) (pointers : List ℕ)
    → at < length pointers
    → value ≤ min n 512
    → ((k : ℕ) → k < count → (k == at) ≡ false → get_or pointers k 0 ≤ min n 512)
    → (k : ℕ) → k < count
    → get_or (set pointers at value) k 0 ≤ min n 512
set-offsets n at value count pointers inside small old k h =
    ground (arith, get_or-set pointers at k value 0 inside, small, old k h)

next-nonzero : (text : Text) → (next text == 0) ≡ false → 0 < length text
unfolding next
next-nonzero [] h = cc
next-nonzero (x ∷ text) h = omega arith

-- The bounds where the loop of ArgTokenize2 goes on: there is room for one more token.
record IsOpen (n : ℕ) (t : TokenData) : Type 0 where
  bounded : IsBounded n t
  room : t.count < 32

begin_token-IsBounded :
    (n i : ℕ) (t : TokenData) → IsOpen n t → i + 1 < n → i < 511 → IsBounded n (begin_token i t)
unfolding begin_token
begin_token-IsBounded n i t o inside early = record {
  some_token = omega arith;
  few = omega (arith, o.room);
  pointers = length-set t.pointers t.count (i + 1) ∙ o.bounded.pointers;
  string = length-set t.string i 0 ∙ o.bounded.string;
  offsets =
      set-offsets n t.count (i + 1) (t.count + 1) t.pointers
        (omega (arith, o.bounded.pointers, o.room)) (omega (arith, inside, early))
        (λ k h other. o.bounded.offsets k (ground (arith, h, other)));
}

begin_token-offset :
    (i : ℕ) (t : TokenData)
    → t.count < length t.pointers
    → get_or (begin_token i t).pointers ((begin_token i t).count - 1) 0 ≡ i + 1
unfolding begin_token
begin_token-offset i t h =
    ap (λ k. get_or (set t.pointers t.count (i + 1)) k 0) (omega arith)
    ∙ get_or-set t.pointers t.count t.count (i + 1) 0 h
    ∙ ground arith

move_token-IsBounded :
    (n : ℕ) (t : TokenData)
    → IsBounded n t
    → get_or t.pointers (t.count - 1) 0 + 1 ≤ min n 512
    → IsBounded n (move_token t)
unfolding move_token
move_token-IsBounded n t b small = record {
  some_token = b.some_token;
  few = b.few;
  pointers = length-set t.pointers (t.count - 1) _ ∙ b.pointers;
  string = b.string;
  offsets =
      set-offsets n (t.count - 1) _ t.count t.pointers
        (omega (arith, b.few, b.pointers, b.some_token)) small (λ k h other. b.offsets k h);
}

end_string-IsOpen :
    (n i : ℕ) (t : TokenData) → IsOpen n t → IsOpen n (record t { string = set t.string i 0 })
end_string-IsOpen n i t o = record {
  bounded = record {
    some_token = o.bounded.some_token;
    few = o.bounded.few;
    pointers = o.bounded.pointers;
    string = length-set t.string i 0 ∙ o.bounded.string;
    offsets = o.bounded.offsets;
  };
  room = o.room;
}

-- What one round leaves: the bounds, and room for a token unless it leaves the loop.
Rounds : ℕ → Bool × TokenData → Type 0
Rounds n (leaves, u) = IsBounded n u × (leaves ≡ false → u.count < 32)

tokenize2_round-Rounds :
    (n i x : ℕ) (text : Text) (t : TokenData)
    → IsOpen n t
    → i < 511
    → i + suc (length text) ≡ n
    → Rounds n (tokenize2_round i x text t)
unfolding tokenize2_round Rounds
tokenize2_round-Rounds n i x text t o early size =
    elim (Bool-cases ((x == 32) && not (next text == 32))) [
      | inr plain ↦ rw (tokenize2_round, plain) (o.bounded, λ e. o.room)
      | inl space ↦ elim (Bool-cases (next text == 0)) [
        | inl over ↦
            let e = end_string-IsOpen n i t o in
            rw (tokenize2_round, space, over) (e.bounded, λ e. o.room)
        | inr further ↦
            let inside : i + 1 < n = omega (arith, next-nonzero text further, size) in
            let b = begin_token-IsBounded n i t o inside early in
            elim (Bool-cases (leb 32 (begin_token i t).count)) [
              | inl full ↦ rw (tokenize2_round, space, further, full) (b, λ e. cc)
              | inr room ↦ elim (Bool-cases (next text == 58)) [
                | inl colon ↦
                    rw (tokenize2_round, space, further, room, colon)
                      (
                        move_token-IsBounded n (begin_token i t) b (
                            omega (
                              arith,
                              begin_token-offset i t (omega (arith, o.room, o.bounded.pointers)),
                              inside,
                              early,
                            )),
                        λ e. cc,
                      )
                | inr word ↦
                    rw (tokenize2_round, space, further, room, word) (b, λ e. ground (arith, room))
              ]
            ]
      ]
    ]

tokenize2_loop-IsBounded :
    (n i : ℕ) (text : Text) (t : TokenData)
    → IsOpen n t
    → i + length text ≡ n
    → IsBounded n (tokenize2_loop i text t)
unfolding tokenize2_loop Rounds
tokenize2_loop-IsBounded n i [] t o size = o.bounded
tokenize2_loop-IsBounded n i (x ∷ text) t o size = elim (Bool-cases (ltb i 511)) [
  | inr late ↦ rw (tokenize2_loop, late) o.bounded
  | inl early ↦
      let (b, room) = tokenize2_round-Rounds n i x text t o (ground (arith, early)) size in
      elim (Bool-cases (tokenize2_round i x text t).0) [
        | inl leaves ↦ rw (tokenize2_loop, early, leaves) b
        | inr stays ↦
            rw (tokenize2_loop, early, stays)
              (tokenize2_loop-IsBounded n (suc i) text (tokenize2_round i x text t).1
                (record { bounded = b; room = room stays }) (omega (arith, size)))
      ]
]

-- ArgTokenize2 of a string of any length succeeds whatever the array of pointers holds before: it
-- finds at least one token and at most 32, both arrays keep their lengths, and each token begins at an offset not beyond the length of the string,
-- nor beyond 512, the length of the array.
pub arg_tokenize2-IsBounded :
    (unset : List ℕ) (string : Text)
    → length unset ≡ 32
    → (t : TokenData) × (arg_tokenize2 unset string ≡ ok t) × IsBounded (length string) t
unfolding arg_tokenize2
arg_tokenize2-IsBounded unset string h =
    let sized : length (replicate 512 (zero)) ≡ 512 = length-replicate 512 zero in
    let (rest, run, kept) =
      strmcpy-fits (replicate 512 0) string 512 (omega arith) (omega (arith, sized)) in
    let copy = take (512 - 1) string ++ 0 ∷ rest in
    let t : TokenData = record { count = 1; pointers = set unset 0 0; string = copy } in
    let opened : IsOpen (length string) t = record {
      bounded = record {
        some_token = omega arith;
        few = omega arith;
        pointers = length-set unset 0 0 ∙ h;
        string = kept ∙ sized;
        offsets =
            set-offsets (length string) 0 0 1 unset (omega (arith, h)) (omega arith)
              (λ k below other. absurd (ground (arith, below, other)));
      };
      room = omega arith;
    } in
    (
      tokenize2_loop 0 string t,
      ap
          (λ o. o >>= λ copy. ok (
            tokenize2_loop 0 string
              (record { count = 1; pointers = set unset 0 0; string = copy })))
          run,
      tokenize2_loop-IsBounded (length string) 0 string t opened (omega arith),
    )
