-- ===== src/Vector.antt =====
-- CVector<Type> of src/Vector.h: `items` is the first m_Count items of m_List. The outcome of
-- malloc and realloc is an argument of each operation that allocates.
pub mod Removal
use shroudbnc.Base.{
  ℕ, zero, suc, ◌-◌, ◌==◌, List, [], ◌∷◌, ◌++◌, Option, none, some, Bool, true, false, length, ltb,
  get_elem?, set, take, if◌then◌else◌, Outcome, ok, err, fault, generic_out_of_memory,
  vector_pre_allocated, vector_item_not_found, ◌||◌,
}

pub record Vector {ℓ} (A : Type ℓ) : Type ℓ where
  pub items : List A
  pub alloc_count : ℕ

abbrev pub empty {ℓ} : {A : Type ℓ} → Vector A
empty = record { items = []; alloc_count = 0 }

-- The result of malloc is not looked at: without memory the vector has a null array.
pub preallocate {ℓ} : {A : Type ℓ} → ℕ → Vector A → Vector A
preallocate n v = record { items = []; alloc_count = n }

-- The last item takes the place of the item at the index; outside the array this is undefined.
unfoldable pub swap_remove {ℓ} : {A : Type ℓ} → List A → ℕ → Option (List A)
swap_remove xs i = elim (get_elem? xs (length xs - 1)) [
  | none ↦ none
  | some last ↦ if ltb i (length xs) then some (take (length xs - 1) (set xs i last)) else none
]

module _ {ℓ} {A : Type ℓ} where
  unfoldable pub insert : Bool → A → Vector A → Outcome (Vector A)
  insert allocated item v =
      if v.alloc_count == 0
      then (if allocated
          then ok (record v { items = v.items ++ item ∷ [] })
          else err generic_out_of_memory)
      else (if ltb (length v.items) v.alloc_count
          then ok (record v { items = v.items ++ item ∷ [] })
          else err generic_out_of_memory)

  -- A failing realloc to a smaller size keeps the old array, so its outcome does not matter.
  unfoldable pub remove_at : ℕ → Vector A → Outcome (Vector A)
  unfolding swap_remove
  remove_at i v =
      if v.alloc_count == 0
      then elim (swap_remove v.items i) [ none ↦ fault | some xs ↦ ok (record v { items = xs }) ]
      else err vector_pre_allocated

  -- One round of Remove(Type Item) at the index `i`; the flag is ReturnValue.
  unfoldable pub remove_round : (A → Bool) → ℕ → Vector A × Bool → Vector A × Bool
  unfolding remove_at
  remove_round same i (v, found) = elim (get_elem? v.items i) [
    | none ↦ (v, found)
    | some x ↦
        if same x
        then elim (remove_at i v) [ ok w ↦ (w, true) | err e ↦ (v, found) | fault ↦ (v, found) ]
        else (v, found)
  ]

  -- `for (int i = m_Count - 1; i >= 0; i--)`: the first argument is i + 1.
  unfoldable pub remove_loop : (A → Bool) → ℕ → Vector A × Bool → Vector A × Bool
  unfolding remove_round
  remove_loop same zero s = s
  remove_loop same (suc i) s = remove_loop same i (remove_round same i s)

  -- `same` is the comparison of the items' bytes with those of the given item.
  unfoldable pub remove_item : (A → Bool) → Vector A → Vector A × Outcome (Unit {0})
  unfolding remove_loop
  remove_item same v =
      let (w, found) = remove_loop same (length v.items) (v, false) in
      (w, if found then ok tt else err vector_item_not_found)

  unfoldable pub get : Vector A → ℕ → Outcome A
  get v i = elim (get_elem? v.items i) [ none ↦ fault | some x ↦ ok x ]

  -- A vector that gets its list by SetList is never pre-allocated.
  unfoldable pub set_list : Bool → List A → Vector A → Vector A × Outcome (Unit {0})
  set_list allocated xs v =
      if allocated
      then (record { items = xs; alloc_count = 0 }, ok tt)
      else (empty, err generic_out_of_memory)

  unfoldable pub clear : Vector A → Vector A
  clear v = empty

  -- GetNew with the zeroed item `blank`: the new vector and the index of the new item.
  unfoldable pub get_new : Bool → A → Vector A → Outcome (Vector A × ℕ)
  unfolding insert
  get_new allocated blank v = elim (insert allocated blank v) [
    | ok w ↦ ok (w, length w.items - 1)
    | err e ↦ err e
    | fault ↦ fault
  ]
