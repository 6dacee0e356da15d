-- ===== src/Banlist.antt =====
-- CBanlist of src/Banlist.cpp: the bans of a channel in a hash table, under their masks.
pub mod Quota
use shroudbnc.Base.{
  ℕ, List, Option, none, some, Bool, true, false, not, ◌&&◌, leb, if◌then◌else◌, Outcome, ok, err,
  generic_quota_exceeded, generic_out_of_memory, generic_invalid_argument, ℤ, pos, negsuc,
}
use shroudbnc.Hashtable.Key.{KeyRule, Text}
use shroudbnc.Hashtable.{Table, new, register_value_destructor, get, get_length, add, remove}

pub record Ban : Type 0 where
  pub mask : Text
  pub nick : Text
  pub timestamp : ℕ

-- A number of items reaches a resource limit.
unfoldable pub reaches : ℕ → ℤ → Bool
reaches n (pos limit) = leb limit n
reaches n (negsuc limit) = true

module _ ⦃rule : KeyRule⦄ where
  -- The constructor.
  unfoldable pub new_banlist : Table Ban
  new_banlist = register_value_destructor new

  -- SetBan where strdup and realloc succeed; `created` is the outcome of the new operator, `admin` that of IsAdmin, `quota` that of GetResourceLimit.
  unfoldable pub set_ban :
      ℕ
      → ℕ
      → Bool
      → Bool
      → ℤ
      → Text
      → Text
      → ℕ
      → Table Ban
      → Option (Table Ban × Outcome (Unit {0}))
  set_ban limit fuel created admin quota mask nick timestamp bans =
      if not admin && reaches (get_length bans) quota
      then some (bans, err generic_quota_exceeded)
      else if not created
      then some (bans, err generic_out_of_memory)
      else add limit fuel true true (some mask)
          (record { mask = mask; nick = nick; timestamp = timestamp }) bans

  unfoldable pub unset_ban : Option Text → Table Ban → Table Ban × Outcome (Unit {0})
  unset_ban none bans = (bans, err generic_invalid_argument)
  unset_ban (some mask) bans = remove false (some mask) bans

  unfoldable pub get_ban : Option Text → Table Ban → Option Ban
  get_ban mask bans = get mask bans
