-- ===== src/Hashtable/Entries.antt =====
-- One bucket of CHashtable: the arrays Keys and Values as one list of pairs.
use shroudbnc.Base.{
  ℕ, zero, suc, ◌+◌, ◌≤◌, ◌<◌, ◌≡◌, refl, sym, ap, subst, ◌∙◌, List, [], ◌∷◌, ◌++◌, Option, none,
  some, Bool, true, false, length, length-append, length-set, get_elem?, set, if◌then◌else◌, arith,
  Bool-cases, inl, inr,
}
use shroudbnc.Vector.{swap_remove}
use shroudbnc.Vector.Removal.{snoc-cases, swap_remove-snoc, get_elem?-lt}
use shroudbnc.Hashtable.Key.{KeyRule, Text, same, same_symm, same_congr}

abbrev pub Bucket {ℓ} : Type ℓ → Type ℓ
Bucket V = List (Text × V)

abbrev pub to_ℕ : Bool → ℕ
to_ℕ true = 1
to_ℕ false = 0

module _ {ℓ} ⦃rule : KeyRule⦄ {V : Type ℓ} where
  -- The value of the first entry with the key.
  unfoldable pub find : Text → Bucket V → Option V
  find k [] = none
  find k (e ∷ es) = if same e.0 k then some e.1 else find k es

  -- The index of the first entry with the key.
  unfoldable pub position : Text → Bucket V → Option ℕ
  position k [] = none
  position k (e ∷ es) =
      if same e.0 k then some 0 else elim (position k es) [ none ↦ none | some i ↦ some (suc i) ]

  -- How many entries have the key.
  unfoldable pub count : Text → Bucket V → ℕ
  count k [] = 0
  count k (e ∷ es) = to_ℕ (same e.0 k) + count k es

  -- The loop of Remove: the last entry takes the place of the first one with the key. The value
  -- comes with the bucket that is left.
  unfoldable pub loop_remove : Text → Bucket V → Option (V × Bucket V)
  unfolding position
  loop_remove k es = elim (position k es) [
    | none ↦ none
    | some i ↦ elim (get_elem? es i) [
      | none ↦ none
      | some e ↦ elim (swap_remove es i) [ none ↦ none | some rest ↦ some (e.1, rest) ]
    ]
  ]

  -- The three branches of Remove on the bucket.
  unfoldable pub bucket_remove : Text → Bucket V → Option (V × Bucket V)
  bucket_remove k [] = none
  bucket_remove k (e ∷ []) = if same e.0 k then some (e.1, []) else loop_remove k (e ∷ [])
  bucket_remove k (e ∷ f ∷ es) = loop_remove k (e ∷ f ∷ es)

  pub find-eq-none : (k : Text) (es : Bucket V) → count k es ≡ 0 → find k es ≡ none
  unfolding count find
  find-eq-none k [] h = refl
  find-eq-none k (e ∷ es) h = ground (arith, find-eq-none k es)

  pub count-eq-zero : (k : Text) (es : Bucket V) → find k es ≡ none → count k es ≡ 0
  unfolding count find
  count-eq-zero k [] h = refl
  count-eq-zero k (e ∷ es) h = ground (arith, count-eq-zero k es)

  pub count_congr : (a b : Text) (es : Bucket V) → same a b ≡ true → count a es ≡ count b es
  unfolding count
  count_congr a b [] h = refl
  count_congr a b (e ∷ es) h =
      ground (arith, count_congr a b es h, same_congr a b e.0 h, same_symm a e.0, same_symm b e.0)

  pub find_congr-none :
      (a b : Text) (es : Bucket V) → same a b ≡ true → find a es ≡ none → find b es ≡ none
  find_congr-none a b es e h = find-eq-none b es (sym (count_congr a b es e) ∙ count-eq-zero a es h)

  pub count-append : (k : Text) (a b : Bucket V) → count k (a ++ b) ≡ count k a + count k b
  unfolding count
  count-append k [] b = omega arith
  count-append k (e ∷ a) b = omega (arith, count-append k a b)

  pub find-append :
      (k : Text) (a b : Bucket V)
      → find k (a ++ b) ≡ elim (find k a) [ none ↦ find k b | some v ↦ some v ]
  unfolding find
  find-append k [] b = refl
  find-append k (e ∷ a) b = ground (arith, find-append k a b)

  -- The position of a key, and what stands there.
  position-find :
      (k : Text) (es : Bucket V) (v : V)
      → find k es ≡ some v
      → (i : ℕ) × (e : Text × V) × (position k es ≡ some i)
        × (get_elem? es i ≡ some e)
        × (same e.0 k ≡ true)
        × (e.1 ≡ v)
  unfolding find position
  position-find k [] v h = cc
  position-find k (e ∷ es) v h = elim (Bool-cases (same e.0 k)) [
    | inl hit ↦ (0, e, rw hit, refl, hit, ground arith)
    | inr miss ↦
        let (i, f, at_i, g, s, q) = position-find k es v (ground (arith, h)) in
        (suc i, f, rw (miss, at_i), g, s, q)
  ]

  pub position-none : (k : Text) (es : Bucket V) → find k es ≡ none → position k es ≡ none
  unfolding find position
  position-none k [] h = refl
  position-none k (e ∷ es) h = ground (arith, position-none k es)

  -- The entry at `i` of a bucket that ends in `l` is overwritten by `l`.
  count-set :
      (q : Text) (ys : Bucket V) (l e : Text × V) (i : ℕ)
      → get_elem? (ys ++ l ∷ []) i ≡ some e
      → count q (set ys i l) + to_ℕ (same e.0 q) ≡ count q (ys ++ l ∷ [])
  unfolding count
  count-set q [] l e zero h = ground arith
  count-set q [] l e (suc i) h = cc
  count-set q (y ∷ ys) l e zero h = ground (arith, count-append q ys (l ∷ []))
  count-set q (y ∷ ys) l e (suc i) h = omega (arith, count-set q ys l e i h)

  find-set :
      (q : Text) (ys : Bucket V) (l e : Text × V) (i : ℕ)
      → get_elem? (ys ++ l ∷ []) i ≡ some e
      → same e.0 q ≡ false
      → count q (ys ++ l ∷ []) ≤ 1
      → find q (set ys i l) ≡ find q (ys ++ l ∷ [])
  unfolding count find
  find-set q [] l e zero h s c = ground arith
  find-set q [] l e (suc i) h s c = cc
  find-set q (y ∷ ys) l e zero h s c = ground (
    arith,
    find-append q ys (l ∷ []),
    count-append q ys (l ∷ []),
    find-eq-none q ys,
    count-eq-zero q ys,
  )
  find-set q (y ∷ ys) l e (suc i) h s c = ground (arith, find-set q ys l e i h s)

  -- What is left of a bucket without the entry of a key: `v` is the entry's value.
  pub record Removed (k : Text) (es : Bucket V) (v : V) (rest : Bucket V) : Type ℓ where
    pub shorter : length rest + 1 ≡ length es
    pub counts : (q : Text) → count q rest + to_ℕ (same k q) ≡ count q es
    pub finds : (q : Text) → find q rest ≡ (if same k q then none else find q es)

  set-Removed :
      (k : Text) (ys : Bucket V) (l e : Text × V) (i : ℕ)
      → get_elem? (ys ++ l ∷ []) i ≡ some e
      → same e.0 k ≡ true
      → ((q : Text) → count q (ys ++ l ∷ []) ≤ 1)
      → Removed k (ys ++ l ∷ []) e.1 (set ys i l)
  set-Removed k ys l e i h s once = record {
    shorter = omega (arith, length-set ys i l, length-append ys (l ∷ []));
    counts = λ q. rw (← same_congr e.0 k q s) (count-set q ys l e i h);
    finds = λ q. ground (
      arith,
      same_congr e.0 k q s,
      count-set q ys l e i h,
      find-set q ys l e i h,
      find-eq-none q (set ys i l),
      once q,
    );
  }

  -- The place of a key that is there, and the entries after the swap with the last one.
  pub swap_remove-Removed :
      (k : Text) (es : Bucket V) (v : V)
      → ((q : Text) → count q es ≤ 1)
      → find k es ≡ some v
      → (i : ℕ) × (e : Text × V) × (rest : Bucket V) × (position k es ≡ some i)
        × (get_elem? es i ≡ some e)
        × (e.1 ≡ v)
        × (swap_remove es i ≡ some rest)
        × Removed k es v rest
  swap_remove-Removed k es v once h =
      let (i, e, at_i, g, s, val) = position-find k es v h in
      let lt = get_elem?-lt es i e g in
      let (ys, l, shape) = snoc-cases es (omega arith) in
      let bound : i < length ys + 1 =
        omega (arith, ap length shape, length-append ys (l ∷ []), lt) in
      let gone : swap_remove es i ≡ some (set ys i l) =
        subst (λ z. swap_remove z i ≡ some (set ys i l)) (sym shape)
          (swap_remove-snoc ys l i bound) in
      let r : Removed k (ys ++ l ∷ []) e.1 (set ys i l) =
        set-Removed k ys l e i (subst (λ z. get_elem? z i ≡ some e) shape g) s
          (subst (λ z. (q : Text) → count q z ≤ 1) shape once) in
      (
        i,
        e,
        set ys i l,
        at_i,
        g,
        val,
        gone,
        subst (λ w. Removed k es w (set ys i l)) val
            (subst (λ z. Removed k z e.1 (set ys i l)) (sym shape) r),
      )

  loop_remove-Removed :
      (k : Text) (es : Bucket V) (v : V)
      → ((q : Text) → count q es ≤ 1)
      → find k es ≡ some v
      → (rest : Bucket V) × (loop_remove k es ≡ some (v, rest)) × Removed k es v rest
  unfolding loop_remove
  loop_remove-Removed k es v once h =
      let (i, e, rest, at_i, g, val, gone, r) = swap_remove-Removed k es v once h in
      (rest, rw (loop_remove, at_i, g, gone, val), r)

  set-Single :
      (k : Text) (e : Text × V) (v : V)
      → same e.0 k ≡ true
      → e.1 ≡ v
      → ((q : Text) → count q (e ∷ []) ≤ 1)
      → Removed k (e ∷ []) v []
  unfolding count
  set-Single k e v s val once =
      subst (λ w. Removed k (e ∷ []) w []) val (set-Removed k [] e e 0 refl s once)

  -- Remove on a bucket in which no key stands twice, and which has the key.
  pub bucket_remove-Removed :
      (k : Text) (es : Bucket V) (v : V)
      → ((q : Text) → count q es ≤ 1)
      → find k es ≡ some v
      → (rest : Bucket V) × (bucket_remove k es ≡ some (v, rest)) × Removed k es v rest
  unfolding bucket_remove find
  bucket_remove-Removed k [] v once h = cc
  bucket_remove-Removed k (e ∷ []) v once h = elim (Bool-cases (same e.0 k)) [
    | inl s ↦ ([], ground arith, set-Single k e v s (ground arith) once)
    | inr miss ↦ cc
  ]
  bucket_remove-Removed k (e ∷ f ∷ es) v once h = loop_remove-Removed k (e ∷ f ∷ es) v once h

  -- Remove on a bucket without the key.
  pub bucket_remove-none : (k : Text) (es : Bucket V) → find k es ≡ none → bucket_remove k es ≡ none
  unfolding bucket_remove loop_remove find
  bucket_remove-none k [] h = refl
  bucket_remove-none k (e ∷ []) h = ground (arith, position-none k (e ∷ []))
  bucket_remove-none k (e ∷ f ∷ es) h = ground (arith, position-none k (e ∷ f ∷ es))
