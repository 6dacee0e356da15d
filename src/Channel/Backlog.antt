-- ===== src/Channel/Backlog.antt =====
-- The backlog of a CChannel keeps the latest lines.
use shroudbnc.Base.{
  ◌+◌, ◌-◌, ◌≤◌, ◌≡◌, sym, ap, subst, ◌∙◌, List, [], ◌∷◌, ◌++◌, true, ltb, length, length-append,
  drop, drop-drop, drop-append_le, arith, Bool-cases, inl, inr, append_assoc, append-nil,
}
use shroudbnc.Channel.{Channel, BacklogLine, add_backlog_line}

-- AddBacklogLine of each line in turn, with memory for its strings.
unfoldable pub add_lines : List BacklogLine → Channel → Channel
add_lines [] c = c
add_lines (l ∷ lines) c = add_lines lines (add_backlog_line true true l.time l.source l.message c)

-- m_BacklogCount, which only counts up, and the last 1000 lines at most of those that were added.
pub record Keeps (added : List BacklogLine) (c : Channel) : Type 0 where
  pub count : c.backlog_count ≡ length added
  pub latest : c.backlog ≡ drop (length added - 1000) added

drop_over :
    (l : BacklogLine) (added : List BacklogLine)
    → 1000 ≤ length added
    → drop 1 (drop (length added - 1000) added) ++ l ∷ []
      ≡ drop (length (added ++ l ∷ []) - 1000) (added ++ l ∷ [])
drop_over l added h =
    ap (λ z. z ++ l ∷ []) (drop-drop (length added - 1000) 1 added)
    ∙ sym (drop-append_le (length added - 1000 + 1) added (l ∷ []) (omega arith))
    ∙ ap (λ k. drop k (added ++ l ∷ [])) (omega (arith, length-append added (l ∷ [])))

drop_under :
    (l : BacklogLine) (added : List BacklogLine)
    → length added + 1 ≤ 1000
    → drop (length added - 1000) added ++ l ∷ []
      ≡ drop (length (added ++ l ∷ []) - 1000) (added ++ l ∷ [])
drop_under l added h =
    sym (drop-append_le (length added - 1000) added (l ∷ []) (omega arith))
    ∙ ap (λ k. drop k (added ++ l ∷ [])) (omega (arith, length-append added (l ∷ [])))

add_backlog_line-Keeps :
    (l : BacklogLine) (added : List BacklogLine) (c : Channel)
    → Keeps added c
    → Keeps (added ++ l ∷ []) (add_backlog_line true true l.time l.source l.message c)
unfolding add_backlog_line
add_backlog_line-Keeps l added c h = record {
  count = omega (arith, h.count, length-append added (l ∷ []));
  latest = elim (Bool-cases (ltb 1000 (c.backlog_count + 1))) [
    | inl over ↦ rw (over, h.latest) (drop_over l added (ground (arith, over, h.count)))
    | inr under ↦ rw (under, h.latest) (drop_under l added (ground (arith, under, h.count)))
  ];
}

-- AddBacklogLine of any lines, one after the other and with memory, on a channel that keeps the
-- latest of the lines added before. The backlog is then the last 1000 at most of all the lines
-- added, the oldest first, while m_BacklogCount counts all of them.
pub add_lines-Keeps :
    (lines added : List BacklogLine) (c : Channel)
    → Keeps added c
    → Keeps (added ++ lines) (add_lines lines c)
unfolding add_lines
add_lines-Keeps [] added c h = subst (λ z. Keeps z c) (sym (append-nil added)) h
add_lines-Keeps (l ∷ lines) added c h =
    subst (λ z. Keeps z (add_lines (l ∷ lines) c)) (append_assoc added (l ∷ []) lines)
      (add_lines-Keeps lines (added ++ l ∷ []) _ (add_backlog_line-Keeps l added c h))
