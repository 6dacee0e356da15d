-- ===== src/Tokens.antt =====
-- The tokenisers of src/utility.cpp. A block of memory is the list of its bytes, and a pointer into it is
-- the bytes from there to the end of the block; a read past them is a fault.
pub mod Blocks
pub mod Joined
pub mod Strings
pub mod Bounded
pub mod Trim
use shroudbnc.Base.{
  ℕ, zero, suc, ◌+◌, ◌-◌, List, [], ◌∷◌, ◌++◌, Option, none, some, Bool, true, false, ◌==◌, ◌&&◌,
  not, ltb, leb, if◌then◌else◌, min, length, take, drop, set, get_or, get_elem?, replicate, Outcome,
  ok, err, fault, ◌>>=◌,
}
use shroudbnc.Hashtable.Key.{Text}

-- The byte that a pointer into a string points at; zero where the string has ended.
unfoldable pub next : Text → ℕ
next [] = 0
next (x ∷ text) = x

-- The loop of ArgTokenize over what is left of the string. The flag says that `i` is zero.
unfoldable pub tokenize_loop : Bool → Text → Text
tokenize_loop first [] = []
tokenize_loop first (x ∷ text) =
    let rest = tokenize_loop false text in
    if (x == 32) && (not (next text == 32) && not (next text == 0))
    then (if not first && (next text == 58) then 0 ∷ text else 0 ∷ rest)
    else x ∷ rest

-- ArgTokenize with memory: the block, which ends in two zeros.
unfoldable pub arg_tokenize : Option Text → Option Text
arg_tokenize none = none
arg_tokenize (some text) = some (tokenize_loop true text ++ 0 ∷ 0 ∷ [])

unfoldable pub arg_parse_server_line : Option Text → Option Text
arg_parse_server_line none = arg_tokenize none
arg_parse_server_line (some []) = arg_tokenize (some [])
arg_parse_server_line (some (x ∷ text)) = arg_tokenize (some (if x == 58 then text else x ∷ text))

-- The string at a pointer.
unfoldable pub c_string : Text → Text
c_string [] = []
c_string (x ∷ bytes) = let rest = c_string bytes in if x == 0 then [] else x ∷ rest

-- `Args + strlen(Args) + 1`; `none` where no byte from the pointer on is zero.
unfoldable pub skip_string : Text → Option Text
skip_string [] = none
skip_string (x ∷ bytes) = let rest = skip_string bytes in if x == 0 then some bytes else rest

-- The loop of ArgGet, with the number of rounds.
unfoldable pub get_loop : ℕ → Text → Outcome (Option Text)
get_loop zero args = ok (some args)
get_loop (suc rounds) args = elim (skip_string args) [
  | none ↦ fault
  | some [] ↦ fault
  | some (x ∷ later) ↦ let rest = get_loop rounds (x ∷ later) in if x == 0 then ok none else rest
]

-- The end of ArgGet, which leaves out a colon.
unfoldable pub without_colon : Option Text → Outcome (Option Text)
without_colon none = ok none
without_colon (some []) = fault
without_colon (some (x ∷ args)) = ok (some (if x == 58 then args else x ∷ args))

-- ArgGet; `none` is a null pointer.
unfoldable pub arg_get : Text → ℕ → Outcome (Option Text)
arg_get args arg = get_loop (arg - 1) args >>= without_colon

-- The loop of ArgCount, with strlen in it.
unfoldable pub count_loop : ℕ → Text → Outcome ℕ
count_loop count [] = fault
count_loop count (x ∷ []) = fault
count_loop count (x ∷ y ∷ args) =
    let rest = count_loop (if x == 0 then suc count else count) (y ∷ args) in
    if (x == 0) && (y == 0) then ok (suc count) else rest

unfoldable pub arg_count : Option Text → Outcome ℕ
arg_count none = ok 0
arg_count (some args) = count_loop 0 args

-- The loop of ArgToArray from the index `i` on, with the number of rounds.
unfoldable pub array_loop : ℕ → ℕ → Text → Outcome (List (Option Text))
array_loop i zero args = ok []
array_loop i (suc rounds) args =
    let rest = array_loop (suc i) rounds args in
    arg_get args (i + 1) >>= λ arg. rest >>= λ later. ok (arg ∷ later)

-- ArgToArray with memory, of a pointer that is not null.
unfoldable pub arg_to_array : Text → Outcome (List (Option Text))
arg_to_array args = arg_count (some args) >>= λ count. array_loop 0 count args

-- strmcpy into the block `destination`: a write past its end is a fault.
unfoldable pub strmcpy : Text → Text → ℕ → Outcome Text
strmcpy destination source size =
    let copy_length = min (length source) (if ltb 0 size then size - 1 else 0) in
    if ltb copy_length (length destination)
    then ok (take copy_length source ++ 0 ∷ drop (copy_length + 1) destination)
    else fault

-- strmcat; the string in the block must end within it. `Size - Offset - 1` wraps around where the
-- string has no room for its zero within `size`.
unfoldable pub strmcat : ℕ → Text → Text → ℕ → Outcome Text
strmcat word destination source size =
    let offset = length (c_string destination) in
    let room = (if ltb offset size then size - offset - 1 else word - (offset + 1 - size)) in
    let copy_length = min (length source) room in
    if ltb (offset + copy_length) (length destination)
    then ok (
        c_string destination
        ++ (take copy_length source ++ 0 ∷ drop (offset + copy_length + 1) destination))
    else fault

-- tokendata_t; `count` is the loop's `a` while ArgTokenize2 runs.
pub record TokenData : Type 0 where
  pub count : ℕ
  pub pointers : List ℕ
  pub string : Text

-- A token that starts at the index after `i`.
unfoldable pub begin_token : ℕ → TokenData → TokenData
begin_token i t = record {
  count = t.count + 1;
  pointers = set t.pointers t.count (i + 1);
  string = set t.string i 0;
}

-- `tokens.Pointers[a - 1]++`
unfoldable pub move_token : TokenData → TokenData
move_token t = record t {
  pointers = set t.pointers (t.count - 1) (get_or t.pointers (t.count - 1) 0 + 1);
}

-- One round of the loop of ArgTokenize2 at the character `x` before `text`, and whether it leaves
-- the loop.
unfoldable pub tokenize2_round : ℕ → ℕ → Text → TokenData → Bool × TokenData
tokenize2_round i x text t =
    let begun = begin_token i t in
    if (x == 32) && not (next text == 32)
    then if next text == 0
      then (false, record t { string = set t.string i 0 })
      else if leb 32 begun.count
      then (true, begun)
      else if next text == 58
      then (true, move_token begun)
      else (false, begun)
    else (false, t)

-- The loop from the index `i` on, over what is left of String.
unfoldable pub tokenize2_loop : ℕ → Text → TokenData → TokenData
tokenize2_loop i [] t = t
tokenize2_loop i (x ∷ text) t =
    let (leaves, u) = tokenize2_round i x text t in
    let rest = tokenize2_loop (suc i) text u in
    if not (ltb i 511) then t else if leaves then u else rest

-- ArgTokenize2; `unset` is what the array of pointers holds before.
unfoldable pub arg_tokenize2 : List ℕ → Text → Outcome TokenData
arg_tokenize2 unset string = strmcpy (replicate 512 0) string 512 >>= λ copy.
    ok (tokenize2_loop 0 string (record { count = 1; pointers = set unset 0 0; string = copy }))

-- ArgGet2: the offset of the token in `string`.
unfoldable pub arg_get2 : TokenData → ℕ → Option ℕ
arg_get2 t arg = if leb t.count arg then none else get_elem? t.pointers arg
