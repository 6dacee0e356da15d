-- ===== src/Nick/Tags.antt =====
-- The tags of a CNick as a map from names to values.
use shroudbnc.Base.{
  ℕ, ◌≤◌, ◌≡◌, refl, ◌∙◌, List, [], ◌∷◌, ◌++◌, Option, none, some, Bool, true, false, ◌&&◌,
  if◌then◌else◌, arith, Bool-cases, Option-cases, inl, inr,
}
use shroudbnc.Hashtable.Key.{KeyRule, Text, same, same_refl}
use shroudbnc.Hashtable.Entries.{
  find, count, swap_remove-Removed, position-none, count-eq-zero, count-append, find-append,
  find_congr-none,
}
use shroudbnc.Vector.Removal.{remove_at-swap_remove, insert-growing, insert-short}
use shroudbnc.Nick.{Nick, NickTag, loose, get_tag, drop_tag, insert_tag, set_tag}

module _ ⦃rule : KeyRule⦄ where
  abbrev pub like : Text → Text → Bool
  like a b = same ⦃rule = loose rule⦄ a b

  abbrev tally : Text → List NickTag → ℕ
  tally q tags = count ⦃rule = loose rule⦄ q tags

  -- The tags grow on demand, and no two of them have names that strcasecmp takes for equal.
  pub record HasTags (n : Nick) : Type 0 where
    pub growing : n.tags.alloc_count ≡ 0
    pub once : (q : Text) → tally q n.tags.items ≤ 1

  -- What SetTag leaves where it stores the value `v`, or none.
  record Sets (n : Nick) (k : Text) (v : Option Text) (m : Nick) : Type 0 where
    tags : HasTags m
    reads : (q : Text) → get_tag q m ≡ (if like k q then v else get_tag q n)

  drop_tag-Sets : (k : Text) (n : Nick) → HasTags n → Sets n k none (drop_tag k n)
  unfolding drop_tag get_tag
  drop_tag-Sets k n h = elim (Option-cases (find ⦃rule = loose rule⦄ k n.tags.items)) [
    | inl absent ↦
        rw (drop_tag, position-none ⦃rule = loose rule⦄ k n.tags.items absent)
          (record { tags = h; reads = λ q. absent_reads q absent })
    | inr (v, there) ↦
        let (i, e, rest, at_i, g, val, gone, r) =
          swap_remove-Removed ⦃rule = loose rule⦄ k n.tags.items v h.once there in
        rw (drop_tag, at_i, remove_at-swap_remove i n.tags rest h.growing gone)
          (record {
            tags = record { growing = h.growing; once = λ q. omega (arith, r.counts q, h.once q) };
            reads = r.finds;
          })
  ]
    where
      absent_reads :
          (q : Text)
          → find ⦃rule = loose rule⦄ k n.tags.items ≡ none
          → get_tag q n ≡ (if like k q then none else get_tag q n)
      absent_reads q absent = elim (Bool-cases (like k q)) [
        | inl e ↦ rw e (find_congr-none ⦃rule = loose rule⦄ k q n.tags.items e absent)
        | inr e ↦ rw e
      ]

  tally_snoc :
      (k x q : Text) (es : List NickTag)
      → find ⦃rule = loose rule⦄ k es ≡ none
      → tally q es ≤ 1
      → tally q (es ++ (k, x) ∷ []) ≤ 1
  unfolding count
  tally_snoc k x q es fresh few =
      let parts = count-append ⦃rule = loose rule⦄ q es ((k, x) ∷ []) in
      elim (Bool-cases (like k q)) [
        | inl e ↦
            let gone =
              count-eq-zero ⦃rule = loose rule⦄ q es
                (find_congr-none ⦃rule = loose rule⦄ k q es e fresh) in
            ground (arith, parts, gone, e)
        | inr e ↦ ground (arith, parts, few, e)
      ]

  find_snoc :
      (k x q : Text) (es : List NickTag)
      → find ⦃rule = loose rule⦄ k es ≡ none
      → find ⦃rule = loose rule⦄ q (es ++ (k, x) ∷ [])
        ≡ (if like k q then some x else find ⦃rule = loose rule⦄ q es)
  unfolding find
  find_snoc k x q es fresh =
      let parts = find-append ⦃rule = loose rule⦄ q es ((k, x) ∷ []) in
      elim (Bool-cases (like k q)) [
        | inl e ↦
            let gone = find_congr-none ⦃rule = loose rule⦄ k q es e fresh in
            ground (arith, parts, gone, e)
        | inr e ↦ ground (arith, parts, e)
      ]

  -- A tag is put behind tags among which its name is not.
  insert_tag-Sets :
      (k x : Text) (n m : Nick)
      → Sets n k none m
      → Sets n k (some x) (insert_tag true true k x m).0 × ((insert_tag true true k x m).1 ≡ true)
  unfolding insert_tag get_tag
  insert_tag-Sets k x n m s =
      let fresh : get_tag k m ≡ none = ground (arith, s.reads k, same_refl ⦃rule = loose rule⦄ k) in
      rw (insert_tag, insert-growing (k, x) m.tags s.tags.growing)
        (
          record {
            tags = record { growing = s.tags.growing; once = λ q. once_more q fresh };
            reads = λ q. read_new q fresh;
          },
          refl,
        )
    where
      once_more : (q : Text) → get_tag k m ≡ none → tally q (m.tags.items ++ (k, x) ∷ []) ≤ 1
      once_more q fresh = tally_snoc k x q m.tags.items fresh (s.tags.once q)

      read_new :
          (q : Text)
          → get_tag k m ≡ none
          → find ⦃rule = loose rule⦄ q (m.tags.items ++ (k, x) ∷ [])
            ≡ (if like k q then some x else get_tag q n)
      read_new q fresh = find_snoc k x q m.tags.items fresh ∙ ground (arith, s.reads q)

  -- SetTag of a name on a nick whose tags have different names and grow on demand. It returns true
  -- exactly where it was to remove the tag, or where all of its allocations succeed. Then GetTag
  -- reads the value under every name that strcasecmp takes for the same, and nothing where the
  -- value is null; where memory is short the old tag is lost all the same. Other names read as
  -- before, and the names stay different.
  pub get_tag-set_tag :
      (name_copied value_copied grown : Bool) (k : Text) (value : Option Text) (n : Nick)
      → HasTags n
      → let r = set_tag name_copied value_copied grown (some k) value n in
        let all_fine = name_copied && value_copied && grown in
        HasTags r.0
        × ((q : Text)
            → get_tag q r.0
              ≡ (if like k q then (if all_fine then value else none) else get_tag q n))
        × (r.1 ≡ elim value [ none ↦ true | some x ↦ all_fine ])
  unfolding set_tag insert_tag
  get_tag-set_tag nc vc g k none n h =
      let s = drop_tag-Sets k n h in (s.tags, λ q. s.reads q ∙ ground arith, refl)
  get_tag-set_tag true true true k (some x) n h =
      let (s, done) = insert_tag-Sets k x n (drop_tag k n) (drop_tag-Sets k n h) in
      (s.tags, s.reads, done)
  get_tag-set_tag true true false k (some x) n h =
      let s = drop_tag-Sets k n h in
      rw (insert_tag, insert-short (k, x) (drop_tag k n).tags s.tags.growing)
        (s.tags, s.reads, refl)
  get_tag-set_tag true false g k (some x) n h =
      let s = drop_tag-Sets k n h in (s.tags, s.reads, refl)
  get_tag-set_tag false vc g k (some x) n h = let s = drop_tag-Sets k n h in (s.tags, s.reads, refl)
