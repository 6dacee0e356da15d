-- ===== src/Keyring/Keys.antt =====
-- What SetKey of src/Keyring.cpp does to the keys and to the other settings.

use shroudbnc.Base.{
  ℕ, suc, ◌-◌, ◌*◌, ◌^◌, ◌<◌, ◌≡◌, refl, sym, ap, ◌∙◌, List, [], ◌∷◌, ◌++◌, ltb, Option, none, some,
  true, false, not, ◌&&◌, if◌then◌else◌, length, arith, ok, Bool-cases, inl, inr,
}
use shroudbnc.Hashtable.Key.{KeyRule, Text, same, same_refl}
use shroudbnc.Hashtable.View.{IsValid}
use shroudbnc.Config.{Config, Saved, read_string}
use shroudbnc.Config.Saving.{CanSave}
use shroudbnc.Config.Writing.{Written, shown, write_string-Written, write_string-none}
use shroudbnc.Banlist.{reaches}
use shroudbnc.Keyring.{
  prefix, Owner, get_sorted_keys, count_keys, remove_loop, remove_redundant_keys, set_key, get_key,
}
use shroudbnc.Keyring.Names.{
  is_redundant, how_many, Rearranges, names_of, is_removed, count_redundant, names_key,
  names_joined, count_keys-names, count_redundant-names, is_removed-names,
}

module _ ⦃rule : KeyRule⦄ where
  -- The settings without the redundant ones.
  pub record Removed (owner : Owner) (keys : List Text) (c d : Config) : Type 0 where
    pub valid : IsValid d.settings
    pub can : CanSave d
    pub reads :
        (q : Text) → read_string q d ≡ (if is_removed owner keys q then none else read_string q c)

  CanSave-Written :
      (setting : Text) (value : Option Text) (c d : Config) (s t : Saved)
      → CanSave c
      → Written setting value c d s t
      → CanSave d
  unfolding CanSave
  CanSave-Written setting value c d s t can w unlocked =
      let (name, has_file) = can (sym w.lock ∙ unlocked) in (name, w.name ∙ has_file)

  remove_loop-Removed :
      (self limit fuel : ℕ) (owner : Owner) (keys : List Text) (count : ℕ) (c : Config) (s : Saved)
      → IsValid c.settings
      → CanSave c
      → (d : Config) × (t : Saved) × (left : ℕ) × (remove_loop self true true limit fuel owner keys
            count c s
          ≡ some (ok (d, t, left)))
        × (left ≡ count - count_redundant owner keys)
        × Removed owner keys c d
  unfolding remove_loop is_removed shown count_redundant
  remove_loop-Removed self limit fuel owner [] count c s v can =
      (c, s, count, refl, omega arith, record { valid = v; can = can; reads = λ q. refl })
  remove_loop-Removed self limit fuel owner (key ∷ keys) count c s v can =
      elim (Bool-cases (is_redundant owner key)) [
        | inr stays ↦
            let (d, t, left, run, size, r) =
              remove_loop-Removed self limit fuel owner keys count c s v can in
            (
              d,
              t,
              left,
              rw (remove_loop, stays) run,
              ground (arith, size, stays),
              record {
                valid = r.valid;
                can = r.can;
                reads = λ q. ground (arith, r.reads q, stays);
              },
            )
        | inl goes ↦
            let (b, u, wrote, w) = write_string-none self limit fuel key c s v can in
            let (d, t, left, run, size, r) =
              remove_loop-Removed self limit fuel owner keys (count - 1) b u w.valid
                (CanSave-Written key none c b s u can w) in
            (
              d,
              t,
              left,
              rw (remove_loop, goes, wrote) run,
              ground (arith, size, goes),
              record {
                valid = r.valid;
                can = r.can;
                reads = λ q. ground (arith, r.reads q, w.reads q, goes);
              },
            )
      ]

  -- RemoveRedundantKeys for a user with a connection who is no administrator and has as many keys as the quota, where the table is valid, qsort rearranges what it is given and
  -- the file can be written. The keys are the settings whose names begin with "key.". The keys of the channels that the connection is in lose their value, every other setting reads as before, and the
  -- result says whether fewer keys than the quota are left.
  pub remove_redundant_keys-Removed :
      (qsort : List Text → List Text) (self limit fuel : ℕ) (owner : Owner) (c : Config) (s : Saved)
      → Rearranges qsort
      → IsValid c.settings
      → CanSave c
      → owner.connected ≡ true
      → (not owner.admin && reaches (how_many names_key (names_of c)) owner.quota) ≡ true
      → (d : Config) × (t : Saved) × (remove_redundant_keys qsort self true true limit fuel owner c
            s
          ≡ some (
              ok (
                d,
                t,
                not (
                    reaches
                      (how_many names_key (names_of c) - how_many (names_joined owner) (names_of c))
                      owner.quota),
              )))
        × IsValid d.settings
        × ((q : Text)
            → read_string q d ≡ (
                if ltb 0 (how_many (λ k. names_joined owner k && same k q) (names_of c))
                then none
                else read_string q c))
  unfolding remove_redundant_keys
  remove_redundant_keys-Removed qsort self limit fuel owner c s sorts v can linked full =
      let keys = get_sorted_keys qsort c.settings in
      let counted = count_keys-names qsort c sorts in
      let over : (not owner.admin && reaches (count_keys keys) owner.quota) ≡ true =
        rw counted full in
      let (d, t, left, run, size, r) =
        remove_loop-Removed self limit fuel owner keys (count_keys keys) c s v can in
      (
        d,
        t,
        ground (arith, linked, over, run)
            ∙ ap (λ n. some (ok (d, t, not (reaches n owner.quota))))
                (size ∙ omega (arith, counted, count_redundant-names qsort owner c sorts)),
        r.valid,
        λ q. r.reads q ∙ rw (is_removed-names qsort owner c q sorts) refl,
      )

  -- SetKey for a user with a connection who is an administrator or has fewer keys than the quota, where the table is valid, the fuel is enough and the file
  -- can be written: GetKey of the channel gives the key then, none for an empty one and for a null pointer,
  -- and GetKey of every channel whose setting is another one gives what it gave before.
  pub set_key-get_key :
      (qsort : List Text → List Text) (self limit fuel : ℕ) (owner : Owner) (channel : Text)
      (key : Option Text) (c : Config) (s : Saved)
      → IsValid c.settings
      → limit < length c.settings.buckets * 2 ^ fuel
      → CanSave c
      → owner.connected ≡ true
      → (not owner.admin && reaches (count_keys (get_sorted_keys qsort c.settings)) owner.quota)
        ≡ false
      → (d : Config) × (t : Saved) × (set_key qsort self true true limit
            (suc fuel)
            owner
            channel
            key
            c
            s
          ≡ some (d, t, ok tt))
        × (get_key channel d ≡ shown key)
        × ((other : Text)
            → same (prefix ++ channel) (prefix ++ other) ≡ false
            → get_key other d ≡ get_key other c)
  unfolding set_key remove_redundant_keys get_key
  set_key-get_key qsort self limit fuel owner channel key c s v h can linked room =
      let (d, t, run, w) =
        write_string-Written self limit fuel (prefix ++ channel) key c s v h can in
      (
        d,
        t,
        ground (arith, linked, room, run),
        w.reads (prefix ++ channel) ∙ rw (same_refl (prefix ++ channel)) refl,
        λ other e. w.reads (prefix ++ other) ∙ rw e refl,
      )
