-- ===== src/FifoBuffer.antt =====
-- CFIFOBuffer of src/FIFOBuffer.cpp. `bytes` is the first m_BufferSize bytes of m_Buffer, and `block`
-- the size of the memory at m_Buffer, `none` for a null pointer. The outcome of malloc and realloc
-- is an argument; a copy past the end of the memory is a fault.
pub mod Blocks
pub mod Contents
pub mod History
use shroudbnc.Base.{
  ℕ, ◌+◌, ◌-◌, ◌*◌, ◌/◌, ◌%◌, ◌==◌, List, [], ◌++◌, ◌∷◌, Option, none, some, Bool, true, false,
  length, ltb, leb, drop, if◌then◌else◌, Outcome, ok, err, fault, generic_out_of_memory, ◌||◌,
}

abbrev pub block_size : ℕ
block_size = 4096

pub record FifoBuffer : Type 0 where
  pub block : Option ℕ
  pub bytes : List ℕ
  pub offset : ℕ

abbrev pub new : FifoBuffer
new = record { block = none; bytes = []; offset = 0 }

-- The new block, or `none` for a null pointer.
unfoldable pub resize_buffer : Bool → Option ℕ → ℕ → ℕ → Option ℕ
resize_buffer allocated buffer old_size new_size =
    let old_blocks =
      (if old_size == 0 then 0 else old_size + (block_size - old_size % block_size)) / block_size in
    let new_blocks = (new_size + block_size - new_size % block_size) / block_size in
    if new_blocks == old_blocks
    then buffer
    else (if new_size == 0
        then none
        else if allocated
        then some (new_blocks * block_size)
        else none)

unfoldable pub get_size : FifoBuffer → ℕ
get_size f = length f.bytes - f.offset

unfoldable pub optimize : Bool → FifoBuffer → Outcome FifoBuffer
optimize allocated f =
    if f.offset == 0 || ltb f.offset (length f.bytes / 5)
    then ok f
    else (if leb (length f.bytes - f.offset) 0
        then ok new
        else elim (resize_buffer allocated none 0 (length f.bytes - f.offset)) [
          | none ↦ ok f
          | some size ↦
              if leb (length f.bytes - f.offset) size
              then ok (record { block = some size; bytes = drop f.offset f.bytes; offset = 0 })
              else fault
        ])

-- The bytes from the pointer that Peek returns on; `none` is the null pointer.
unfoldable pub peek : FifoBuffer → Option (List ℕ)
unfolding get_size
peek f = if get_size f == 0 then none else some (drop f.offset f.bytes)

-- The new buffer, and the bytes from the pointer that Read returns on.
unfoldable pub read : Bool → ℕ → FifoBuffer → Outcome (FifoBuffer × List ℕ)
unfolding get_size
read allocated n f = elim (optimize allocated f) [
  | ok g ↦ ok (
    record g { offset = g.offset + (if ltb (get_size g) n then get_size g else n) },
    drop g.offset g.bytes,
  )
  | err e ↦ err e
  | fault ↦ fault
]

-- Write: the copy goes to the end of the bytes.
unfoldable pub write : Bool → List ℕ → FifoBuffer → Outcome FifoBuffer
write allocated added f =
    elim (resize_buffer allocated f.block (length f.bytes) (length f.bytes + length added)) [
      | none ↦ err generic_out_of_memory
      | some size ↦
          if leb (length f.bytes + length added) size
          then ok (record f { block = some size; bytes = f.bytes ++ added })
          else fault
    ]

-- WriteUnformattedLine: the line, then carriage return and line feed.
unfoldable pub write_unformatted_line : Bool → List ℕ → FifoBuffer → Outcome FifoBuffer
write_unformatted_line allocated line f =
    elim (resize_buffer allocated f.block (length f.bytes) (length f.bytes + length line + 2)) [
      | none ↦ err generic_out_of_memory
      | some size ↦
          if leb (length f.bytes + length line + 2) size
          then ok (record f { block = some size; bytes = f.bytes ++ (line ++ 13 ∷ 10 ∷ []) })
          else fault
    ]

unfoldable pub flush : Bool → FifoBuffer → Outcome (FifoBuffer × List ℕ)
flush allocated f = read allocated (get_size f) f
