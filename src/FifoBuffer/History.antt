-- ===== src/FifoBuffer/History.antt =====
-- Histories of calls on one buffer: the bytes come out in the order in which they went in.
use shroudbnc.Base.{
  ℕ, ◌≡◌, sym, ap, ◌∙◌, List, [], ◌∷◌, ◌++◌, Bool, ok, err, fault, Outcome, take, take-append-drop,
  append_assoc, append-nil, inl, inr,
}
use shroudbnc.FifoBuffer.{FifoBuffer, write, write_unformatted_line, read, flush}
use shroudbnc.FifoBuffer.Blocks.{IsValid, contents}
use shroudbnc.FifoBuffer.Contents.{
  read-contents, flush-contents, write-cases, write_unformatted_line-cases,
}

-- A call, with what its allocation would answer.
pub data Call : Type 0 where
  writes : Bool → List ℕ → Call
  writes_line : Bool → List ℕ → Call
  reads : Bool → ℕ → Call
  flushes : Bool → Call

-- What a call leaves, the bytes that it took, and the bytes that it added. A failed call leaves the
-- buffer as it was.
pub record Step : Type 0 where
  pub after : FifoBuffer
  pub taken : List ℕ
  pub added : List ℕ

wrote : FifoBuffer → List ℕ → Outcome FifoBuffer → Step
wrote f bytes (ok g) = record { after = g; taken = []; added = bytes }
wrote f bytes (err e) = record { after = f; taken = []; added = [] }
wrote f bytes fault = record { after = f; taken = []; added = [] }

consumed : FifoBuffer → (List ℕ → List ℕ) → Outcome (FifoBuffer × List ℕ) → Step
consumed f part (ok (g, bytes)) = record { after = g; taken = part bytes; added = [] }
consumed f part (err e) = record { after = f; taken = []; added = [] }
consumed f part fault = record { after = f; taken = []; added = [] }

-- The caller of Read looks at as many bytes as it asked for.
step : Call → FifoBuffer → Step
unfolding wrote consumed
step (writes allocated bytes) f = wrote f bytes (write allocated bytes f)
step (writes_line allocated line) f =
    wrote f (line ++ 13 ∷ 10 ∷ []) (write_unformatted_line allocated line f)
step (reads allocated n) f = consumed f (take n) (read allocated n f)
step (flushes allocated) f = consumed f (λ bytes. bytes) (flush allocated f)

abbrev Conserves : FifoBuffer → Step → Type 0
Conserves f s = IsValid s.after × (s.taken ++ contents s.after ≡ contents f ++ s.added)

step-Conserves : (c : Call) (f : FifoBuffer) → IsValid f → Conserves f (step c f)
unfolding step
step-Conserves (writes allocated bytes) f v = elim (write-cases allocated bytes f v) [
  | inl (g, run, w, e) ↦ rw run (w, e)
  | inr (code, run) ↦ rw run (v, sym (append-nil _))
]
step-Conserves (writes_line allocated line) f v =
    elim (write_unformatted_line-cases allocated line f v) [
      | inl (g, run, w, e) ↦ rw run (w, e)
      | inr (code, run) ↦ rw run (v, sym (append-nil _))
    ]
step-Conserves (reads allocated n) f v =
    let (g, run, w, e) = read-contents allocated n f v in
    rw run (w, rw e (take-append-drop n (contents f) ∙ sym (append-nil _)))
step-Conserves (flushes allocated) f v =
    let (g, run, w, e, _) = flush-contents allocated f v in rw run (w, ap (λ t. contents f ++ t) e)

-- The bytes that a history of calls took out, and those that it put in.
unfoldable pub run : List Call → FifoBuffer → Step
unfolding step
run [] f = record { after = f; taken = []; added = [] }
run (c ∷ cs) f =
    let first = step c f in
    let rest = run cs first.after in
    record {
      after = rest.after;
      taken = first.taken ++ rest.taken;
      added = first.added ++ rest.added;
    }

-- Over any history of writes, lines, reads and flushes on a valid buffer, with any failures of the
-- allocator, the buffer stays valid, and the bytes taken out and then those still there are the
-- bytes that were there and then those put in, in the same order. A write that fails puts nothing
-- in.
pub run-Conserves :
    (cs : List Call) (f : FifoBuffer)
    → IsValid f
    → IsValid (run cs f).after
      × ((run cs f).taken ++ contents (run cs f).after ≡ contents f ++ (run cs f).added)
unfolding run
run-Conserves [] f v = (v, sym (append-nil _))
run-Conserves (c ∷ cs) f v =
    let (w, e) = step-Conserves c f v in
    let (u, d) = run-Conserves cs (step c f).after w in
    let s = step c f in
    let r = run cs s.after in
    (
      u,
      append_assoc s.taken r.taken (contents r.after)
          ∙ ap (λ t. s.taken ++ t) d
          ∙ sym (append_assoc s.taken (contents s.after) r.added)
          ∙ ap (λ t. t ++ r.added) e
          ∙ append_assoc (contents f) s.added r.added,
    )
