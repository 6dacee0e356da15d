-- ===== src/Config/Saving.antt =====
-- What the save at the end of WriteString of src/Config.cpp leaves in the file.
use mathlib.Core.List.{flatten}
use shroudbnc.Base.{
  ℕ, ◌≡◌, refl, Option, some, true, false, if◌then◌else◌, arith, ok, Bool-cases, inl, inr,
}
use shroudbnc.Hashtable.Key.{KeyRule, Text}
use shroudbnc.Config.{Config, Saved, save, persist}
use shroudbnc.Config.Printing.{print, persist-print}

-- WriteString may save: the lock is on, or the configuration has a file.
unfoldable pub CanSave : Config → Type 0
CanSave c = (c.write_lock ≡ false) → (name : Text) × (c.filename ≡ some name)

-- What the file is after a write: untouched under the lock, else printed from the settings.
unfoldable pub file_after : Config → Option Text → Option Text
file_after c old = if c.write_lock then old else some (print (flatten c.settings.buckets))

module _ ⦃rule : KeyRule⦄ where
  save-locked :
      (self : ℕ) (c : Config) (s : Saved)
      → c.write_lock ≡ true
      → (save self true true c s ≡ some (ok (c, s))) × (s.file ≡ file_after c s.file)
  unfolding save file_after
  save-locked self c s locked = (ground (arith, locked), ground (arith, locked))

  save-saved :
      (self : ℕ) (c : Config) (s t : Saved)
      → c.write_lock ≡ false
      → persist self true true c s ≡ some (t, ok true)
      → t.file ≡ some (print (flatten c.settings.buckets))
      → (save self true true c s ≡ some (ok (c, t))) × (t.file ≡ file_after c s.file)
  unfolding save file_after
  save-saved self c s t unlocked run file =
      (ground (arith, unlocked, run), ground (arith, unlocked, file))

  pub save-file :
      (self : ℕ) (c : Config) (s : Saved)
      → CanSave c
      → (t : Saved) × (save self true true c s ≡ some (ok (c, t))) × (t.file ≡ file_after c s.file)
  unfolding CanSave
  save-file self c s can = elim (Bool-cases c.write_lock) [
    | inl locked ↦ let (run, file) = save-locked self c s locked in (s, run, file)
    | inr unlocked ↦
        let (name, has_file) = can unlocked in
        let (cursor, run) = persist-print self name c s has_file in
        let t : Saved = record {
          file = some (print (flatten c.settings.buckets));
          cursor = cursor;
        } in
        let (saved, file) = save-saved self c s t unlocked run refl in (t, saved, file)
  ]
