-- ===== src/FifoBuffer/Contents.antt =====
-- The buffer as a queue of bytes.
use shroudbnc.Base.{
  ErrorCode, ◌↔◌, dec_lt, ◌≢◌, ap, ◌∙◌, sym, fault, leb, drop_all, drop-drop, ◌||◌, ℕ, ◌+◌, ◌-◌,
  ◌/◌, ◌<◌, ◌≡◌, refl, List, [], ◌∷◌, ◌++◌, none, some, Bool, true, length, length-append,
  length-drop, drop, drop-append_le, ok, err, generic_out_of_memory, arith, if◌then◌else◌, ltb,
  ◌==◌, Bool-cases, inl, inr, ◌⊎◌,
}
use shroudbnc.FifoBuffer.{
  FifoBuffer, new, resize_buffer, get_size, optimize, peek, read, write, write_unformatted_line,
  flush,
}
use shroudbnc.FifoBuffer.Blocks.{
  append-IsValid, resize-IsValid, resize_buffer-zero, resize-cases, contents, block_for, IsValid,
  new-IsValid,
}

-- On a valid buffer, a write of at least one byte, or into a buffer that has bytes, succeeds if
-- memory can be had: it adds the bytes behind the unread ones and leaves a valid buffer.
write-contents :
    (added : List ℕ) (f : FifoBuffer)
    → IsValid f
    → 0 < length f.bytes + length added
    → (g : FifoBuffer) × (write true added f ≡ ok g)
      × IsValid g
      × (contents g ≡ contents f ++ added)
unfolding write
write-contents added f v h =
    let (size, r, e, fits) = resize-IsValid (length added) f v h in
    (
      record f { block = some size; bytes = f.bytes ++ added },
      rw (write, r) (ground (arith, fits)),
      append-IsValid f added size v e,
      drop-append_le f.offset f.bytes added v.within,
    )

-- On a valid buffer, where memory can be had, writing a line succeeds: it adds the line, a
-- carriage return and a line feed behind the unread bytes and leaves a valid buffer.
pub write_unformatted_line-contents :
    (line : List ℕ) (f : FifoBuffer)
    → IsValid f
    → (g : FifoBuffer) × (write_unformatted_line true line f ≡ ok g)
      × IsValid g
      × (contents g ≡ contents f ++ (line ++ 13 ∷ 10 ∷ []))
unfolding write_unformatted_line
write_unformatted_line-contents line f v =
    let (size, r, e, fits) = resize-IsValid (length line + 2) f v (omega arith) in
    let crlf : List ℕ = line ++ 13 ∷ 10 ∷ [] in
    let long : length crlf ≡ length line + 2 = length-append line (13 ∷ 10 ∷ []) in
    let total : length f.bytes + length line + 2 ≡ length f.bytes + (length line + 2) =
      omega arith in
    (
      record f { block = some size; bytes = f.bytes ++ crlf },
      rw (write_unformatted_line, total, r) (ground (arith, fits)),
      append-IsValid f crlf size v (rw long e),
      drop-append_le f.offset f.bytes crlf v.within,
    )

-- On a valid buffer, where memory can be had, a write is refused as a failed allocation exactly if
-- it is of no bytes and the buffer has none either.
pub write-err_iff :
    (added : List ℕ) (f : FifoBuffer)
    → IsValid f
    → (write true added f ≡ err generic_out_of_memory) ↔ (length f.bytes + length added ≡ 0)
unfolding write
write-err_iff added f v =
    let fails : length f.bytes + length added ≡ 0 → write true added f ≡ err generic_out_of_memory =
      λ z.
        let old : length f.bytes ≡ 0 = omega arith in
        rw (write, v.sized, z, old, resize_buffer-zero true) refl in
    let holds : write true added f ≡ err generic_out_of_memory → length f.bytes + length added ≡ 0 =
      λ e. elim (dec_lt 0 (length f.bytes + length added)) [
        | no h ↦ omega arith
        | yes h ↦ let (g, run, w, same) = write-contents added f v h in cc
      ] in
    (holds, fails)

-- On a valid buffer, whatever the allocator does, a write copies inside the memory.
pub write-ne-fault :
    (allocated : Bool) (added : List ℕ) (f : FifoBuffer)
    → IsValid f
    → write allocated added f ≢ fault
unfolding write resize_buffer
write-ne-fault allocated added f v = ground (arith, v.sized)

-- What a write can do: add its bytes, or fail and leave all as it is.
pub write-cases :
    (allocated : Bool) (added : List ℕ) (f : FifoBuffer)
    → IsValid f
    → ((g : FifoBuffer) × (write allocated added f ≡ ok g)
        × IsValid g
        × (contents g ≡ contents f ++ added))
      ⊎ ((e : ErrorCode) × (write allocated added f ≡ err e))
unfolding write
write-cases allocated added f v = elim (resize-cases allocated (length added) f v) [
  | inr fails ↦ inr (generic_out_of_memory, rw (write, fails))
  | inl (size, r, e, fits) ↦ inl (
    record f { block = some size; bytes = f.bytes ++ added },
    rw (write, r) (ground (arith, fits)),
    append-IsValid f added size v e,
    drop-append_le f.offset f.bytes added v.within,
  )
]

pub write_unformatted_line-cases :
    (allocated : Bool) (line : List ℕ) (f : FifoBuffer)
    → IsValid f
    → ((g : FifoBuffer) × (write_unformatted_line allocated line f ≡ ok g)
        × IsValid g
        × (contents g ≡ contents f ++ (line ++ 13 ∷ 10 ∷ [])))
      ⊎ ((e : ErrorCode) × (write_unformatted_line allocated line f ≡ err e))
unfolding write_unformatted_line
write_unformatted_line-cases allocated line f v =
    let crlf : List ℕ = line ++ 13 ∷ 10 ∷ [] in
    let long : length crlf ≡ length line + 2 = length-append line (13 ∷ 10 ∷ []) in
    let total : length f.bytes + length line + 2 ≡ length f.bytes + (length line + 2) =
      omega arith in
    elim (resize-cases allocated (length line + 2) f v) [
      | inr fails ↦ inr (generic_out_of_memory, rw (write_unformatted_line, total, fails))
      | inl (size, r, e, fits) ↦ inl (
        record f { block = some size; bytes = f.bytes ++ crlf },
        rw (write_unformatted_line, total, r) (ground (arith, fits)),
        append-IsValid f crlf size v (rw long e),
        drop-append_le f.offset f.bytes crlf v.within,
      )
    ]

-- Optimize never changes the contents, also when it gets no memory.
optimize-contents :
    (allocated : Bool) (f : FifoBuffer)
    → IsValid f
    → (g : FifoBuffer) × (optimize allocated f ≡ ok g) × IsValid g × (contents g ≡ contents f)
unfolding optimize resize_buffer
optimize-contents allocated f v =
    elim (Bool-cases (f.offset == 0 || ltb f.offset (length f.bytes / 5))) [
      | inl e ↦ (f, rw e, v, refl)
      | inr e ↦ elim (Bool-cases (leb (length f.bytes - f.offset) 0)) [
        | inl z ↦ (new, rw (e, z), new-IsValid, sym (drop_all f.offset f.bytes (ground arith)))
        | inr z ↦ elim (Bool-cases allocated) [
          | inr a ↦ (f, ground arith, v, refl)
          | inl a ↦ (
            record {
              block = block_for (length f.bytes - f.offset);
              bytes = drop f.offset f.bytes;
              offset = 0;
            },
            ground arith,
            record { within = omega arith; sized = rw length-drop },
            refl,
          )
        ]
      ]
    ]

drop-clamped :
    (m n : ℕ) (xs : List ℕ) → m ≡ length xs → drop (if ltb m n then m else n) xs ≡ drop n xs
drop-clamped m n xs e = elim (Bool-cases (ltb m n)) [
  | inl h ↦ rw h (drop_all m xs (omega arith) ∙ sym (drop_all n xs (ground arith)))
  | inr h ↦ rw h
]

-- A read of a valid buffer, whatever the allocator does, returns a pointer on the contents and
-- takes the given number of bytes off their front, or all of them if there are fewer. The buffer
-- stays valid.
pub read-contents :
    (allocated : Bool) (n : ℕ) (f : FifoBuffer)
    → IsValid f
    → (g : FifoBuffer) × (read allocated n f ≡ ok (g, contents f))
      × IsValid g
      × (contents g ≡ drop n (contents f))
unfolding read
read-contents allocated n f v =
    let (g, run, w, same) = optimize-contents allocated f v in
    let step = if ltb (length g.bytes - g.offset) n then length g.bytes - g.offset else n in
    (
      record g { offset = g.offset + step },
      rw (read, run, same),
      record { within = ground (arith, w.within); sized = w.sized },
      sym (drop-drop g.offset step g.bytes)
          ∙ drop-clamped _ n (contents g) (sym (length-drop g.offset g.bytes))
          ∙ ap (drop n) same,
    )

-- A flush of a valid buffer leaves it valid and empty, and Peek then returns a null pointer.
pub flush-contents :
    (allocated : Bool) (f : FifoBuffer)
    → IsValid f
    → (g : FifoBuffer) × (flush allocated f ≡ ok (g, contents f))
      × IsValid g
      × (contents g ≡ [])
      × (peek g ≡ none)
unfolding flush get_size peek
flush-contents allocated f v =
    let (g, run, w, rest) = read-contents allocated (length f.bytes - f.offset) f v in
    let gone : contents g ≡ [] =
      rest
      ∙ drop_all (length f.bytes - f.offset) (contents f)
          (omega (arith, length-drop f.offset f.bytes)) in
    (g, run, w, gone, ground (arith, ap length gone, length-drop g.offset g.bytes))
