-- ===== src/Usermodes.antt =====
-- m_Usermodes of CIRCConnection of src/IRCConnection.cpp, and what a MODE line for the user's own nick
-- does to it. A block of memory is the list of its bytes; what is outside it is a fault.
pub mod Unset
use shroudbnc.Base.{
  ℕ, zero, suc, ◌+◌, List, [], ◌∷◌, ◌++◌, Option, none, some, Bool, true, false, ◌==◌,
  if◌then◌else◌, length, get_elem?, set, ltb, Outcome, ok, err, fault, ◌>>=◌,
}
use shroudbnc.Hashtable.Key.{Text}
use shroudbnc.Tokens.{c_string}

-- The test of the loop that takes a mode out, where no round is left: the next byte to read is past the block.
unfoldable pub at_end : ℕ → Text → Outcome Text
at_end to block = elim (get_elem? block to) [
  | none ↦ fault
  | some x ↦ if x == 0 then ok block else fault
]

-- The loop that takes a mode out: `to` is the offset of CurrentModes, `a` the one that is read. Each round
-- reads the next byte, so there are as many rounds at most as the block has bytes.
unfoldable pub unset_loop : ℕ → ℕ → ℕ → ℕ → Text → Outcome Text
unset_loop zero mode to a block = at_end to block
unset_loop (suc rounds) mode to a block = elim (get_elem? block to) [
  | none ↦ fault
  | some x ↦ elim (x == 0) [
    | true ↦ ok block
    | false ↦ elim (get_elem? block a) [
      | none ↦ fault
      | some v ↦ unset_loop rounds mode (if v == mode then to else suc to) (suc a) (set block to v)
    ]
  ]
]

unfoldable pub unset_mode : ℕ → Text → Outcome Text
unset_mode mode block = unset_loop (length block) mode 0 0 block

-- The branch that puts a mode in.
unfoldable pub add_mode : ℕ → Text → Outcome Text
add_mode mode block =
    let position = length (c_string block) in
    if ltb (position + 1) (length block)
    then ok (set (set block position mode) (position + 1) 0)
    else fault

-- The loop over the characters of the line; the flag is Flip.
unfoldable pub change_loop : Bool → Text → Text → Outcome Text
change_loop flip [] block = ok block
change_loop flip (x ∷ modes) block =
    if x == 43
    then change_loop true modes block
    else if x == 45
    then change_loop false modes block
    else (if flip then add_mode x block else unset_mode x block) >>= λ changed.
        change_loop flip modes changed

-- The branch of ParseLineArgV, with memory: what realloc adds behind the modes is `rest`, as many
-- bytes as the line has modes.
unfoldable pub change_usermodes : Text → Text → Option Text → Outcome Text
change_usermodes rest modes none = change_loop true modes (0 ∷ rest)
change_usermodes rest modes (some usermodes) = change_loop true modes (usermodes ++ 0 ∷ rest)
