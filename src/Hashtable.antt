-- ===== src/Hashtable.antt =====
-- CHashtable<Type, CaseSensitive> of src/Hashtable.h. m_BucketCount is the length of `buckets`. The
-- list `destroyed` records the values that the registered destructor was called with. `limit` is
-- the largest array of buckets that malloc grants; below 2 ^ 31 the doubling does not overflow an int.
pub mod Key
pub mod Entries
pub mod View
pub mod Writes
pub mod Spelling
pub mod Row
pub mod Adding
pub mod Growth
pub mod Iteration
use mathlib.Core.List.{flatten}
use shroudbnc.Base.{
  ℕ, zero, suc, ◌+◌, ◌-◌, ◌*◌, ◌%◌, List, [], ◌∷◌, ◌++◌, map, Option, none, some, Bool, true, false,
  length, get_or, set, replicate, ltb, leb, not, ◌&&◌, ◌==◌, if◌then◌else◌, drop, Outcome, ok, err,
  generic_invalid_argument, generic_out_of_memory,
}
use shroudbnc.Hashtable.Key.{KeyRule, Text, hash}
use shroudbnc.Hashtable.Entries.{Bucket, find, bucket_remove}

pub record Table {ℓ} (V : Type ℓ) : Type ℓ where
  pub buckets : List (Bucket V)
  pub length_cache : ℕ
  pub has_destructor : Bool
  pub destroyed : List V

unfoldable pub new {ℓ} : {V : Type ℓ} → Table V
new = record { buckets = replicate 32 []; length_cache = 0; has_destructor = false; destroyed = [] }

-- The index of a key's bucket among `n`.
unfoldable pub home : ⦃rule : KeyRule⦄ → Text → ℕ → ℕ
home k n = hash k % n

module _ {ℓ} ⦃rule : KeyRule⦄ {V : Type ℓ} where
  abbrev pub bucket_of : List (Bucket V) → Text → Bucket V
  bucket_of bs k = get_or bs (home k (length bs)) []

  -- Get; the key `none` is a null pointer, and so is the result `none`.
  unfoldable pub get : Option Text → Table V → Option V
  get none t = none
  get (some k) t = find k (bucket_of t.buckets k)

  -- Remove for a key that is no null pointer.
  unfoldable pub remove_key : Bool → Text → Table V → Table V
  remove_key dont_destroy k t = elim (bucket_remove k (bucket_of t.buckets k)) [
    | none ↦ t
    | some (v, rest) ↦ record t {
      buckets = set t.buckets (home k (length t.buckets)) rest;
      length_cache = t.length_cache - 1;
      destroyed =
          if t.has_destructor && not dont_destroy then t.destroyed ++ v ∷ [] else t.destroyed;
    }
  ]

  unfoldable pub remove : Bool → Option Text → Table V → Table V × Outcome (Unit {0})
  remove dont_destroy none t = (t, err generic_invalid_argument)
  remove dont_destroy (some k) t = (remove_key dont_destroy k t, ok tt)

  -- The part of Add that stores the entry.
  unfoldable pub place : Text → V → Table V → Table V
  place k v t = record t {
    buckets = set t.buckets (home k (length t.buckets)) (bucket_of t.buckets k ++ (k, v) ∷ []);
    length_cache = t.length_cache + 1;
  }

  -- The loops of Rehash: each old entry is added anew.
  unfoldable pub add_all :
      (Text → V → Table V → Option (Table V)) → Bucket V → Table V → Option (Table V)
  add_all add_one [] t = some t
  add_all add_one (e ∷ es) t = elim (add_one e.0 e.1 t) [
    | none ↦ none
    | some u ↦ add_all add_one es u
  ]

  -- What Rehash starts with, twice as many buckets.
  unfoldable pub doubled : Table V → Table V
  doubled t = record t { buckets = replicate (2 * length t.buckets) []; length_cache = 0 }

  -- Add where strdup and both realloc calls succeed; Rehash, which it calls, calls it back. The
  -- first argument is fuel, and `none` says that it ran out.
  unfoldable pub add_key : ℕ → ℕ → Text → V → Table V → Option (Table V)
  add_key limit zero k v t = none
  add_key limit (suc fuel) k v t =
      let u = place k v (remove_key false k t) in
      elim (ltb 3 (length (bucket_of u.buckets k)) && leb (2 * length u.buckets) limit) [
        | true ↦ add_all (add_key limit fuel) (flatten u.buckets) (doubled u)
        | false ↦ some u
      ]

  -- Add. `copied` is the outcome of strdup, `grown` that of both realloc calls.
  unfoldable pub add :
      ℕ → ℕ → Bool → Bool → Option Text → V → Table V → Option (Table V × Outcome (Unit {0}))
  add limit fuel copied grown none v t = some (t, err generic_invalid_argument)
  add limit fuel copied grown (some k) v t =
      if copied && grown
      then elim (add_key limit fuel k v t) [ none ↦ none | some u ↦ some (u, ok tt) ]
      else some (remove_key false k t, err generic_out_of_memory)

  unfoldable pub clear : Table V → Table V
  clear t = record t {
    buckets = replicate (length t.buckets) [];
    length_cache = 0;
    destroyed =
        if t.has_destructor then t.destroyed ++ map (λ e. e.1) (flatten t.buckets) else t.destroyed;
  }

  unfoldable pub get_length : Table V → ℕ
  get_length t = t.length_cache

  unfoldable pub register_value_destructor : Table V → Table V
  register_value_destructor t = record t { has_destructor = true }
