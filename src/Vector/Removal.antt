-- ===== src/Vector/Removal.antt =====
-- Removal from a CVector: which items are left, and in what order.
use mathlib.Core.Bool.{Bool-discrete}
use mathlib.Core.List.{filter, Perm, perm_append_singleton}
use mathlib.Core.List.Perm
use shroudbnc.Base.{
  ℕ, zero, suc, ◌+◌, ◌-◌, ◌<◌, ◌≤◌, ◌≡◌, refl, ap, sym, subst, ◌∙◌, List, [], ◌∷◌, ◌++◌, none, some,
  Bool, true, false, length, length-append, length-set, get_elem?, set, take, arith, ltb, lt→ltb,
  ok, err, Option-cases, Bool-cases, inl, inr, if◌then◌else◌, ◌||◌, ℕ_discrete,
  vector_item_not_found, generic_out_of_memory,
}
use mathlib.Core.Option.{some-injective}
use shroudbnc.Vector.{
  Vector, insert, swap_remove, remove_at, remove_round, remove_loop, remove_item,
}

module _ {ℓ} {A : Type ℓ} where
  -- A list that is not empty ends in an item.
  pub snoc-cases : (xs : List A) → 0 < length xs → (ys : List A) × (l : A) × (xs ≡ ys ++ l ∷ [])
  snoc-cases [] h = absurd (omega arith)
  snoc-cases (x ∷ []) h = ([], x, refl)
  snoc-cases (x ∷ y ∷ xs) h =
      let (ys, l, e) = snoc-cases (y ∷ xs) (omega arith) in (x ∷ ys, l, ap (λ t. x ∷ t) e)

  get_elem?-snoc : (ys : List A) (l : A) → get_elem? (ys ++ l ∷ []) (length ys) ≡ some l
  get_elem?-snoc [] l = refl
  get_elem?-snoc (y ∷ ys) l = get_elem?-snoc ys l

  take-set_snoc :
      (ys : List A) (l v : A) (i : ℕ) → take (length ys) (set (ys ++ l ∷ []) i v) ≡ set ys i v
  take-set_snoc [] l v zero = refl
  take-set_snoc [] l v (suc i) = refl
  take-set_snoc (y ∷ ys) l v zero = ap (λ t. v ∷ t) (take_snoc ys)
    where
      take_snoc : (zs : List A) → take (length zs) (zs ++ l ∷ []) ≡ zs
      take_snoc [] = refl
      take_snoc (z ∷ zs) = ap (λ t. z ∷ t) (take_snoc zs)
  take-set_snoc (y ∷ ys) l v (suc i) = ap (λ t. y ∷ t) (take-set_snoc ys l v i)

  -- What removal at an index does to a list that ends in `l`.
  pub swap_remove-snoc :
      (ys : List A) (l : A) (i : ℕ)
      → i < length ys + 1
      → swap_remove (ys ++ l ∷ []) i ≡ some (set ys i l)
  unfolding swap_remove
  swap_remove-snoc ys l i h =
      let size : length (ys ++ l ∷ []) - 1 ≡ length ys = omega (arith, length-append ys (l ∷ [])) in
      rw (
        swap_remove,
        size,
        get_elem?-snoc ys l,
        lt→ltb i (length (ys ++ l ∷ [])) (omega (arith, length-append ys (l ∷ []), h)),
        size,
        take-set_snoc ys l l i,
      )

  set-perm :
      (ys : List A) (l x : A) (i : ℕ)
      → get_elem? (ys ++ l ∷ []) i ≡ some x
      → Perm (ys ++ l ∷ []) (x ∷ set ys i l)
  set-perm [] l x zero h = Perm.cons' (some-injective _ _ h) Perm.rfl
  set-perm [] l x (suc i) h = cc
  set-perm (y ∷ ys) l x zero h = Perm.cons' (some-injective _ _ h) (perm_append_singleton l ys)
  set-perm (y ∷ ys) l x (suc i) h = Perm.trans (Perm.cons y (set-perm ys l x i h)) (Perm.swap x y _)

  pub get_elem?-lt : (xs : List A) (i : ℕ) (x : A) → get_elem? xs i ≡ some x → i < length xs
  get_elem?-lt [] i x h = cc
  get_elem?-lt (y ∷ xs) zero x h = omega arith
  get_elem?-lt (y ∷ xs) (suc i) x h = omega (arith, get_elem?-lt xs i x h)

  -- What stands at or after the place of removal stood after it before.
  get_elem?-set_snoc :
      (ys : List A) (l x : A) (i j : ℕ)
      → i ≤ j
      → get_elem? (set ys i l) j ≡ some x
      → (k : ℕ) × (i < k) × (get_elem? (ys ++ l ∷ []) k ≡ some x)
  get_elem?-set_snoc [] l x i j le h = cc
  get_elem?-set_snoc (y ∷ ys) l x zero zero le h =
      (suc (length ys), omega arith, get_elem?-snoc ys l ∙ h)
  get_elem?-set_snoc (y ∷ ys) l x zero (suc j) le h = (suc j, omega arith, get_elem?-front ys j h)
    where
      get_elem?-front :
          (zs : List A) (m : ℕ) → get_elem? zs m ≡ some x → get_elem? (zs ++ l ∷ []) m ≡ some x
      get_elem?-front [] m e = cc
      get_elem?-front (z ∷ zs) zero e = e
      get_elem?-front (z ∷ zs) (suc m) e = get_elem?-front zs m e
  get_elem?-set_snoc (y ∷ ys) l x (suc i) zero le h = absurd (omega arith)
  get_elem?-set_snoc (y ∷ ys) l x (suc i) (suc j) le h =
      let (k, lt, e) = get_elem?-set_snoc ys l x i j (omega arith) h in (suc k, omega arith, e)

  -- Removal at an index that holds `x` leaves the other items, each as often as before, and what
  -- then stands from the index on stood after it.
  pub swap_remove-perm :
      (xs : List A) (i : ℕ) (x : A)
      → get_elem? xs i ≡ some x
      → (ys : List A) × (swap_remove xs i ≡ some ys)
        × Perm xs (x ∷ ys)
        × (length ys + 1 ≡ length xs)
        × ((j : ℕ) (y : A)
            → i ≤ j
            → get_elem? ys j ≡ some y
            → (k : ℕ) × (i < k) × (get_elem? xs k ≡ some y))
  swap_remove-perm xs i x h =
      let lt = get_elem?-lt xs i x h in
      let (ys, l, e) = snoc-cases xs (omega arith) in
      let bound : i < length ys + 1 = omega (arith, ap length e, length-append ys (l ∷ []), lt) in
      (
        set ys i l,
        rw e (swap_remove-snoc ys l i bound),
        rw e (set-perm ys l x i (rw e at h)),
        omega (arith, ap length e, length-append ys (l ∷ []), length-set ys i l),
        λ j y le g. rw e (get_elem?-set_snoc ys l y i j le g),
      )

  -- Remove at an index of a vector that grows.
  pub remove_at-swap_remove :
      (i : ℕ) (v : Vector A) (ys : List A)
      → v.alloc_count ≡ 0
      → swap_remove v.items i ≡ some ys
      → remove_at i v ≡ ok (record v { items = ys })
  unfolding remove_at
  remove_at-swap_remove i v ys e r = ground (arith, e, r)

  pub insert-growing :
      (x : A) (v : Vector A)
      → v.alloc_count ≡ 0
      → insert true x v ≡ ok (record v { items = v.items ++ x ∷ [] })
  unfolding insert
  insert-growing x v e = ground (arith, e)

  pub insert-short :
      (x : A) (v : Vector A) → v.alloc_count ≡ 0 → insert false x v ≡ err generic_out_of_memory
  unfolding insert
  insert-short x v e = ground (arith, e)

  -- The items that are not to be removed.
  abbrev pub kept : (A → Bool) → List A → List A
  kept same = filter (λ x. Bool-discrete (same x) false)

  -- No item from the index on is to be removed.
  abbrev CleanFrom : (A → Bool) → ℕ → List A → Type ℓ
  CleanFrom same i xs = (j : ℕ) (x : A) → i ≤ j → get_elem? xs j ≡ some x → same x ≡ false

  kept-of_clean : (same : A → Bool) (xs : List A) → CleanFrom same 0 xs → kept same xs ≡ xs
  kept-of_clean same [] c = refl
  kept-of_clean same (x ∷ xs) c =
      ground (arith, c 0 x, kept-of_clean same xs (λ j y le g. c (suc j) y (omega arith) g))

  abbrev growing : List A → Vector A
  growing xs = record { items = xs; alloc_count = 0 }

  -- What the loop has done to the list `xs`, where the flag was `found` before.
  pub record Removes (same : A → Bool) (xs : List A) (found : Bool) (s : Vector A × Bool)
      : Type ℓ where
    pub items : Perm s.0.items (kept same xs)
    pub alloc : s.0.alloc_count ≡ 0
    pub shorter : length s.0.items ≤ length xs
    pub flag : s.1 ≡ (found || ltb (length s.0.items) (length xs))

  round-of_hit :
      (same : A → Bool) (i : ℕ) (xs ys : List A) (x : A) (found : Bool)
      → get_elem? xs i ≡ some x
      → same x ≡ true
      → swap_remove xs i ≡ some ys
      → remove_round same i (growing xs, found) ≡ (growing ys, true)
  unfolding remove_round
  round-of_hit same i xs ys x found e h r = rw (e, h, r)

  round-of_miss :
      (same : A → Bool) (i : ℕ) (xs : List A) (x : A) (found : Bool)
      → get_elem? xs i ≡ some x
      → same x ≡ false
      → remove_round same i (growing xs, found) ≡ (growing xs, found)
  unfolding remove_round
  round-of_miss same i xs x found e h = rw (e, h)

  round-of_end :
      (same : A → Bool) (i : ℕ) (xs : List A) (found : Bool)
      → get_elem? xs i ≡ none
      → remove_round same i (growing xs, found) ≡ (growing xs, found)
  unfolding remove_round
  round-of_end same i xs found e = rw e

  -- An index whose item stays, or that is outside the list, is clean too.
  CleanFrom-suc :
      (same : A → Bool) (i : ℕ) (xs : List A)
      → ((x : A) → get_elem? xs i ≡ some x → same x ≡ false)
      → CleanFrom same (suc i) xs
      → CleanFrom same i xs
  CleanFrom-suc same i xs here c j x le e = elim (ℕ_discrete i j) [
    | yes p ↦ here x (rw p e)
    | no p ↦ c j x (omega arith) e
  ]

  kept-of_hit :
      (same : A → Bool) (xs ys : List A) (x : A)
      → same x ≡ true
      → Perm xs (x ∷ ys)
      → Perm (kept same ys) (kept same xs)
  kept-of_hit same xs ys x h p =
      Perm.symm (rw drop_hit at (Perm.filter (λ x. Bool-discrete (same x) false) p))
    where
      drop_hit : kept same (x ∷ ys) ≡ kept same ys
      drop_hit = ground arith

  remove_loop-Removes :
      (same : A → Bool) (i : ℕ) (xs : List A) (found : Bool)
      → CleanFrom same i xs
      → Removes same xs found (remove_loop same i (growing xs, found))
  unfolding remove_loop
  remove_loop-Removes same zero xs found c = record {
    items = rw (kept-of_clean same xs c) Perm.rfl;
    alloc = refl;
    shorter = omega arith;
    flag = ground arith;
  }
  remove_loop-Removes same (suc i) xs found c = elim (Option-cases (get_elem? xs i)) [
    | inl e ↦
        rw (round-of_end same i xs found e)
          (remove_loop-Removes same i xs found (CleanFrom-suc same i xs (λ x g. cc) c))
    | inr (x, e) ↦ elim (Bool-cases (same x)) [
      | inr miss ↦
          rw (round-of_miss same i xs x found e miss)
            (remove_loop-Removes same i xs found (CleanFrom-suc same i xs (λ y g. cc) c))
      | inl hit ↦
          let (ys, r, p, size, later) = swap_remove-perm xs i x e in
          let clean : CleanFrom same i ys =
            λ j y le g. let (k, lt, f) = later j y le g in c k y lt f in
          let rest = remove_loop-Removes same i ys true clean in
          rw (round-of_hit same i xs ys x found e hit r) (record {
            items = Perm.trans rest.items (kept-of_hit same xs ys x hit p);
            alloc = rest.alloc;
            shorter = omega (arith, rest.shorter);
            flag = ground (arith, rest.flag, rest.shorter);
          })
    ]
  ]

  -- Removal of an item from a vector that grows on demand takes out every equal item and no other,
  -- each other item stays as often as it was there, the vector still grows on demand, and the
  -- result is `ok` exactly when an item went.
  pub remove_item-kept :
      (same : A → Bool) (v : Vector A)
      → v.alloc_count ≡ 0
      → Perm (remove_item same v).0.items (kept same v.items)
        × ((remove_item same v).0.alloc_count ≡ 0)
        × ((remove_item same v).1 ≡ (
            if ltb (length (remove_item same v).0.items) (length v.items)
            then ok tt
            else err vector_item_not_found))
  unfolding remove_item
  remove_item-kept same v e =
      let shape : growing v.items ≡ v = λ i. record { items = v.items; alloc_count = sym e i } in
      let past : CleanFrom same (length v.items) v.items =
        λ j x le g. absurd (omega (arith, get_elem?-lt v.items j x g)) in
      let r : Removes same v.items false (remove_loop same (length v.items) (v, false)) =
        subst (λ w. Removes same v.items false (remove_loop same (length v.items) (w, false))) shape
          (remove_loop-Removes same (length v.items) v.items false past) in
      (r.items, r.alloc, rw r.flag)
