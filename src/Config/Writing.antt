-- ===== src/Config/Writing.antt =====
-- WriteString of src/Config.cpp as a write to a map.
use shroudbnc.Base.{
  ℕ, suc, ◌*◌, ◌^◌, ◌<◌, ◌≡◌, ◌⊎◌, refl, sym, ap, subst, ◌∙◌, [], ◌∷◌, Option, none, some, true,
  false, if◌then◌else◌, length, ok, Option-cases, Bool-cases, inl, inr,
}
use shroudbnc.Hashtable.Key.{KeyRule, Text, same}
use shroudbnc.Hashtable.{Table, get, add_key, remove_key}
use shroudbnc.Hashtable.View.{IsValid}
use shroudbnc.Hashtable.Writes.{Writes, remove_key-Writes}
use shroudbnc.Hashtable.Spelling.{get-same}
use shroudbnc.Hashtable.Adding.{add_key-Writes}
use shroudbnc.Config.{Config, Saved, read_string, unchanged, write_string, save}
use shroudbnc.Config.Saving.{CanSave, file_after, save-file}

-- A value as ReadString shows it: the empty one is none.
unfoldable pub shown : Option Text → Option Text
shown none = none
shown (some []) = none
shown (some (x ∷ text)) = some (x ∷ text)

module _ ⦃rule : KeyRule⦄ where
  read_string-shown : (q : Text) (c : Config) → read_string q c ≡ shown (get (some q) c.settings)
  unfolding read_string shown
  read_string-shown q c = elim (Option-cases (get (some q) c.settings)) [
    | inl e ↦ rw (read_string, e)
    | inr ([], e) ↦ rw (read_string, e)
    | inr (x ∷ text, e) ↦ rw (read_string, e)
  ]

  unchanged-shown : (v old : Option Text) → unchanged v (shown old) ≡ true → shown v ≡ shown old
  unfolding unchanged shown
  unchanged-shown none none e = refl
  unchanged-shown none (some []) e = refl
  unchanged-shown none (some (x ∷ old)) e = cc
  unchanged-shown (some v) none e = cc
  unchanged-shown (some v) (some []) e = cc
  unchanged-shown (some v) (some (x ∷ old)) e =
      ap (λ z. shown (some z)) ((rule.strcmp_iff v (x ∷ old)).0 e)

  -- What WriteString leaves: the settings `d` and the state `t`.
  pub record Written (setting : Text) (value : Option Text) (c d : Config) (s t : Saved)
      : Type 0 where
    pub valid : IsValid d.settings
    pub reads :
        (q : Text) → read_string q d ≡ (if same setting q then shown value else read_string q c)
    pub lock : d.write_lock ≡ c.write_lock
    pub name : d.filename ≡ c.filename
    pub file : (t.file ≡ s.file) × (d.settings ≡ c.settings) ⊎ (t.file ≡ file_after d s.file)

  writes-Written :
      (setting : Text) (value : Option Text) (c : Config) (s t : Saved) (u : Table Text)
      → Writes c.settings setting value u
      → t.file ≡ file_after (record c { settings = u }) s.file
      → Written setting value c (record c { settings = u }) s t
  writes-Written setting value c s t u w saved = record {
    valid = w.valid;
    reads = λ q. written_reads q (Bool-cases (same setting q));
    lock = refl;
    name = refl;
    file = inr saved;
  }
    where
      written_reads :
          (q : Text)
          → (same setting q ≡ true) ⊎ (same setting q ≡ false)
          → read_string q (record c { settings = u })
            ≡ (if same setting q then shown value else read_string q c)
      written_reads q (inl e) =
          rw e (read_string-shown q (record c { settings = u }) ∙ ap shown (w.reads q ∙ rw e refl))
      written_reads q (inr e) = rw e (
          read_string-shown q (record c { settings = u })
          ∙ ap shown (w.reads q ∙ rw e refl)
          ∙ sym (read_string-shown q c))

  write_string-same :
      (self limit fuel : ℕ) (setting : Text) (value : Option Text) (c : Config) (s : Saved)
      → unchanged value (read_string setting c) ≡ true
      → write_string self true true limit fuel setting value c s ≡ some (ok (c, s))
  unfolding write_string
  write_string-same self limit fuel setting value c s e = rw (write_string, e)

  write_string-remove :
      (self limit fuel : ℕ) (setting : Text) (c : Config) (s : Saved)
      → unchanged none (read_string setting c) ≡ false
      → write_string self true true limit fuel setting none c s
        ≡ save self true true (record c { settings = remove_key false setting c.settings }) s
  unfolding write_string
  write_string-remove self limit fuel setting c s e = rw (write_string, e)

  write_string-add :
      (self limit fuel : ℕ) (setting text : Text) (c : Config) (s : Saved) (u : Table Text)
      → unchanged (some text) (read_string setting c) ≡ false
      → add_key limit fuel setting text c.settings ≡ some u
      → write_string self true true limit fuel setting (some text) c s
        ≡ save self true true (record c { settings = u }) s
  unfolding write_string
  write_string-add self limit fuel setting text c s u e added = rw (write_string, e, added)

  same-Written :
      (setting : Text) (value : Option Text) (c : Config) (s : Saved)
      → IsValid c.settings
      → unchanged value (read_string setting c) ≡ true
      → Written setting value c c s s
  same-Written setting value c s v e = record {
    valid = v;
    reads = λ q. elim (Bool-cases (same setting q)) [
      | inr other ↦ rw other refl
      | inl spelled ↦ rw spelled (
          read_string-shown q c
          ∙ ap shown (sym (get-same setting q c.settings spelled))
          ∙ sym (
              unchanged-shown value (get (some setting) c.settings)
                (subst (λ o. unchanged value o ≡ true) (read_string-shown setting c) e)))
    ];
    lock = refl;
    name = refl;
    file = inl (refl, refl);
  }

  removed-Written :
      (self limit fuel : ℕ) (setting : Text) (c : Config) (s : Saved)
      → IsValid c.settings
      → CanSave c
      → unchanged none (read_string setting c) ≡ false
      → (d : Config) × (t : Saved) × (write_string self true true limit fuel setting none c s
          ≡ some (ok (d, t)))
        × Written setting none c d s t
  unfolding CanSave
  removed-Written self limit fuel setting c s v can e =
      let u = remove_key false setting c.settings in
      let (t, run, file) = save-file self (record c { settings = u }) s can in
      (
        record c { settings = u },
        t,
        write_string-remove self limit fuel setting c s e ∙ run,
        writes-Written setting none c s t u (remove_key-Writes false setting c.settings v) file,
      )

  -- WriteString of a null pointer needs no fuel.
  pub write_string-none :
      (self limit fuel : ℕ) (setting : Text) (c : Config) (s : Saved)
      → IsValid c.settings
      → CanSave c
      → (d : Config) × (t : Saved) × (write_string self true true limit fuel setting none c s
          ≡ some (ok (d, t)))
        × Written setting none c d s t
  write_string-none self limit fuel setting c s v can =
      elim (Bool-cases (unchanged none (read_string setting c))) [
        | inl e ↦ (
          c,
          s,
          write_string-same self limit fuel setting none c s e,
          same-Written setting none c s v e,
        )
        | inr e ↦ removed-Written self limit fuel setting c s v can e
      ]

  -- WriteString with enough fuel for the table, where the lock is on or the file can be written, returns: ReadString
  -- of the setting, in any spelling that the table takes for the same, is then the value that was written, none for a null pointer and for an empty string,
  -- every other setting reads as before, and the table is valid. The file and the settings are untouched,
  -- or the lock is off and the file is printed from the new settings, or the lock is on and the file is untouched.
  pub write_string-Written :
      (self limit fuel : ℕ) (setting : Text) (value : Option Text) (c : Config) (s : Saved)
      → IsValid c.settings
      → limit < length c.settings.buckets * 2 ^ fuel
      → CanSave c
      → (d : Config) × (t : Saved) × (write_string self true true limit (suc fuel) setting value c s
          ≡ some (ok (d, t)))
        × Written setting value c d s t
  unfolding CanSave
  write_string-Written self limit fuel setting value c s v h can =
      elim (Bool-cases (unchanged value (read_string setting c))) [
        | inl e ↦ (
          c,
          s,
          write_string-same self limit (suc fuel) setting value c s e,
          same-Written setting value c s v e,
        )
        | inr e ↦ changes value e
      ]
    where
      changes :
          (o : Option Text)
          → unchanged o (read_string setting c) ≡ false
          → (d : Config) × (t : Saved) × (write_string self true true limit (suc fuel) setting o c s
              ≡ some (ok (d, t)))
            × Written setting o c d s t
      changes none e = removed-Written self limit (suc fuel) setting c s v can e
      changes (some text) e =
          let (u, added, w, wide) = add_key-Writes limit fuel setting text c.settings v h in
          let (t, run, file) = save-file self (record c { settings = u }) s can in
          (
            record c { settings = u },
            t,
            write_string-add self limit (suc fuel) setting text c s u e added ∙ run,
            writes-Written setting (some text) c s t u w file,
          )
