-- ===== src/FifoBuffer/Blocks.antt =====
-- When a buffer is valid, and how its memory grows.
use shroudbnc.Base.{
  dec_lt, ap, ◌∙◌, ℕ, ◌+◌, ◌*◌, ◌/◌, ◌<◌, ◌≤◌, ◌≡◌, refl, List, ◌++◌, Option, none, some, Bool,
  true, length, length-append, drop, arith, if◌then◌else◌, ◌==◌, inl, inr, ◌⊎◌,
}
use shroudbnc.FifoBuffer.{FifoBuffer, block_size, new, resize_buffer}

-- The bytes that were written and not yet read.
abbrev pub contents : FifoBuffer → List ℕ
contents f = drop f.offset f.bytes

-- The memory that holds `n` bytes: no block for none, else one block more than the full ones.
abbrev pub block_for : ℕ → Option ℕ
block_for n = if n == 0 then none else some ((n / block_size + 1) * block_size)

pub record IsValid (f : FifoBuffer) : Type 0 where
  pub within : f.offset ≤ length f.bytes
  pub sized : f.block ≡ block_for (length f.bytes)

-- Growth keeps the memory at the size that the bytes need, if it gets the memory.
pub resize_buffer-block_for :
    (old added : ℕ)
    → 0 < old + added
    → resize_buffer true (block_for old) old (old + added) ≡ block_for (old + added)
unfolding resize_buffer
resize_buffer-block_for old added h = ground arith

-- The memory for some bytes holds them.
pub block_for-holds : (n : ℕ) → 0 < n → (size : ℕ) × (block_for n ≡ some size) × (n ≤ size)
block_for-holds n h = ((n / block_size + 1) * block_size, ground arith, omega arith)

pub new-IsValid : IsValid new
new-IsValid = record { within = omega arith; sized = refl }

pub append-IsValid :
    (f : FifoBuffer) (added : List ℕ) (size : ℕ)
    → IsValid f
    → block_for (length f.bytes + length added) ≡ some size
    → IsValid (record f { block = some size; bytes = f.bytes ++ added })
append-IsValid f added size v e = record {
  within = omega (arith, v.within, length-append f.bytes added);
  sized = rw (length-append f.bytes added, e);
}

pub resize-IsValid :
    (added : ℕ) (f : FifoBuffer)
    → IsValid f
    → 0 < length f.bytes + added
    → (size : ℕ) × (resize_buffer true f.block (length f.bytes) (length f.bytes + added)
        ≡ some size)
      × (block_for (length f.bytes + added) ≡ some size)
      × (length f.bytes + added ≤ size)
resize-IsValid added f v h =
    let (size, e, fits) = block_for-holds (length f.bytes + added) h in
    (
      size,
      ap (λ b. resize_buffer true b (length f.bytes) (length f.bytes + added)) v.sized
          ∙ resize_buffer-block_for (length f.bytes) added h
          ∙ e,
      e,
      fits,
    )

-- Without memory for it, a change of the block's size fails; nothing else depends on the memory.
pub resize_buffer-same :
    (allocated : Bool) (buffer : Option ℕ) (old new : ℕ)
    → (resize_buffer allocated buffer old new ≡ resize_buffer true buffer old new)
      ⊎ (resize_buffer allocated buffer old new ≡ none)
unfolding resize_buffer
resize_buffer-same allocated buffer old new = ground arith

pub resize_buffer-zero : (allocated : Bool) → resize_buffer allocated none 0 0 ≡ none
unfolding resize_buffer
resize_buffer-zero allocated = refl

abbrev pub Grown : ℕ → FifoBuffer → Option ℕ → Type 0
Grown added f r =
    ((size : ℕ) × (r ≡ some size)
      × (block_for (length f.bytes + added) ≡ some size)
      × (length f.bytes + added ≤ size))
    ⊎ (r ≡ none)

pub resize-cases :
    (allocated : Bool) (added : ℕ) (f : FifoBuffer)
    → IsValid f
    → Grown added f (resize_buffer allocated f.block (length f.bytes) (length f.bytes + added))
resize-cases allocated added f v = elim (dec_lt 0 (length f.bytes + added)) [
  | yes h ↦ elim (resize_buffer-same allocated f.block (length f.bytes) (length f.bytes + added)) [
    | inl same ↦ rw same (inl (resize-IsValid added f v h))
    | inr fails ↦ inr fails
  ]
  | no h ↦
      let old : length f.bytes ≡ 0 = omega arith in
      let sum : length f.bytes + added ≡ 0 = omega arith in
      inr (rw (v.sized, sum, old) (resize_buffer-zero allocated))
]
