-- ===== src/Keyring.antt =====
-- CKeyring of src/Keyring.cpp: the keys of channels, which are settings of the user's configuration.
pub mod Names
pub mod Keys
use mathlib.Core.List.{flatten}
use shroudbnc.Base.{
  ℕ, zero, suc, ◌+◌, ◌-◌, List, [], ◌∷◌, ◌++◌, map, drop, Option, none, some, Bool, true, false,
  not, ◌&&◌, ◌==◌, if◌then◌else◌, Outcome, ok, err, fault, generic_quota_exceeded, ℤ,
}
use shroudbnc.Hashtable.Key.{KeyRule, Text}
use shroudbnc.Hashtable.Entries.{Bucket}
use shroudbnc.Hashtable.{Table}
use shroudbnc.Config.{Config, Saved, read_string, write_string}
use shroudbnc.Banlist.{reaches}

-- "key."
abbrev pub prefix : Text
prefix = 107 ∷ 101 ∷ 121 ∷ 46 ∷ []

-- `strstr(Key, "key.") == Key`
unfoldable pub starts_with : Text → Text → Bool
starts_with [] text = true
starts_with (p ∷ ps) [] = false
starts_with (p ∷ ps) (x ∷ text) = (p == x) && starts_with ps text

abbrev pub is_key : Text → Bool
is_key setting = starts_with prefix setting

-- What the keyring asks of its user: whether there is an IRC connection, IsAdmin, GetResourceLimit
-- for keys, and whether GetChannel of the connection finds a channel.
pub record Owner : Type 0 where
  pub connected : Bool
  pub admin : Bool
  pub quota : ℤ
  pub joined : Text → Bool

-- GetSortedKeys, with memory; `qsort` is that of the C library, with its comparison; that it
-- rearranges what it is given is a hypothesis where it is needed.
unfoldable pub get_sorted_keys : (List Text → List Text) → Table Text → List Text
get_sorted_keys qsort t = qsort (map (λ e. e.0) (flatten t.buckets))

-- The loop that counts the keys.
unfoldable pub count_keys : List Text → ℕ
count_keys [] = 0
count_keys (key ∷ keys) = let rest = count_keys keys in if is_key key then suc rest else rest

module _ ⦃rule : KeyRule⦄ where
  -- The loop that removes keys; with the configuration comes Count.
  unfoldable pub remove_loop :
      ℕ
      → Bool
      → Bool
      → ℕ
      → ℕ
      → Owner
      → List Text
      → ℕ
      → Config
      → Saved
      → Option (Outcome (Config × Saved × ℕ))
  remove_loop self opened renamed limit fuel owner [] count c s = some (ok (c, s, count))
  remove_loop self opened renamed limit fuel owner (key ∷ keys) count c s =
      elim (is_key key && owner.joined (drop 4 key)) [
        | false ↦ remove_loop self opened renamed limit fuel owner keys count c s
        | true ↦ elim (write_string self opened renamed limit fuel key none c s) [
          | none ↦ none
          | some (ok (d, t)) ↦ remove_loop self opened renamed limit fuel owner keys (count - 1) d t
          | some (err e) ↦ some (err e)
          | some fault ↦ some fault
        ]
      ]

  -- RemoveRedundantKeys.
  unfoldable pub remove_redundant_keys :
      (List Text → List Text)
      → ℕ
      → Bool
      → Bool
      → ℕ
      → ℕ
      → Owner
      → Config
      → Saved
      → Option (Outcome (Config × Saved × Bool))
  remove_redundant_keys qsort self opened renamed limit fuel owner c s =
      let keys = get_sorted_keys qsort c.settings in
      let count = count_keys keys in
      if not owner.connected
      then some (ok (c, s, false))
      else if not owner.admin && reaches count owner.quota
      then elim (remove_loop self opened renamed limit fuel owner keys count c s) [
        | none ↦ none
        | some (ok (d, t, left)) ↦ some (ok (d, t, not (reaches left owner.quota)))
        | some (err e) ↦ some (err e)
        | some fault ↦ some fault
      ]
      else some (ok (c, s, true))

  -- SetKey with memory for the name of the setting. Where WriteString ends the program in Fatal, so does
  -- this: the error is passed on. The Boolean of a result that is no error is true.
  unfoldable pub set_key :
      (List Text → List Text)
      → ℕ
      → Bool
      → Bool
      → ℕ
      → ℕ
      → Owner
      → Text
      → Option Text
      → Config
      → Saved
      → Option (Config × Saved × Outcome (Unit {0}))
  set_key qsort self opened renamed limit fuel owner channel key c s =
      elim (remove_redundant_keys qsort self opened renamed limit fuel owner c s) [
        | none ↦ none
        | some (err e) ↦ some (c, s, err e)
        | some fault ↦ some (c, s, fault)
        | some (ok (d, t, false)) ↦ some (d, t, err generic_quota_exceeded)
        | some (ok (d, t, true)) ↦
            elim (write_string self opened renamed limit fuel (prefix ++ channel) key d t) [
              | none ↦ none
              | some (ok (u, v)) ↦ some (u, v, ok tt)
              | some (err e) ↦ some (d, t, err e)
              | some fault ↦ some (d, t, fault)
            ]
      ]

  -- GetKey with memory for the name of the setting.
  unfoldable pub get_key : Text → Config → Option Text
  get_key channel c = read_string (prefix ++ channel) c
