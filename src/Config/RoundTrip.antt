-- ===== src/Config/RoundTrip.antt =====
-- Persist and then Reload of a CConfig.
use mathlib.Core.List.{flatten}
use shroudbnc.Base.{
  ℕ, suc, ◌*◌, ◌^◌, ◌-◌, ◌<◌, ◌≡◌, refl, sym, subst, ◌∙◌, [], ◌∷◌, Option, some, true, false,
  length, All, arith, ok, Option-cases, inl, inr,
}
use shroudbnc.Hashtable.Key.{KeyRule, Text}
use shroudbnc.Hashtable.Entries.{Bucket}
use shroudbnc.Hashtable.{Table, get, add_key, add_all, clear}
use shroudbnc.Hashtable.View.{IsValid}
use shroudbnc.Hashtable.Row.{flatten-get, cleared-IsValid}
use shroudbnc.Hashtable.Adding.{add_all-Stores, add_key-Adds}
use shroudbnc.Config.{
  Config, line_length, fgets_all, parse_loop, parse_config, reload, persist, Saved,
}
use shroudbnc.Config.Printing.{print, persist-print}
use shroudbnc.Config.Lines.{IsPrintable, fgets_all-print, parse_line-print}

module _ ⦃rule : KeyRule⦄ where
  parse_loop-first :
      (limit fuel : ℕ) (e : Text × Text) (es : Bucket Text) (t r u : Table Text)
      → IsPrintable e
      → add_key limit fuel e.0 e.1 t ≡ some r
      → parse_loop limit fuel (fgets_all (line_length - 1) (line_length - 1) [] (print es)) r
        ≡ some (ok u)
      → parse_loop limit fuel (fgets_all (line_length - 1) (line_length - 1) [] (print (e ∷ es))) t
        ≡ some (ok u)
  unfolding parse_loop
  parse_loop-first limit fuel e es t r u p adds later =
      rw (fgets_all-print e es p, parse_loop, parse_line-print e p, adds) later

  parse_loop-print :
      (limit fuel : ℕ) (es : Bucket Text) (t u : Table Text)
      → All IsPrintable es
      → add_all (add_key limit fuel) es t ≡ some u
      → parse_loop limit fuel (fgets_all (line_length - 1) (line_length - 1) [] (print es)) t
        ≡ some (ok u)
  unfolding parse_loop add_all print fgets_all
  parse_loop-print limit fuel [] t u p run = cc
  parse_loop-print limit fuel (e ∷ es) t u p run =
      elim (Option-cases (add_key limit fuel e.0 e.1 t)) [
        | inl fails ↦ cc
        | inr (r, adds) ↦
            parse_loop-first limit fuel e es t r u p.0 adds
              (parse_loop-print limit fuel es r u p.1 (sym (rw (add_all, adds) refl) ∙ run))
      ]

  parse_config-loop :
      (limit fuel : ℕ) (name : Text) (file : Option Text) (c : Config) (bytes : Text)
      (u : Table Text)
      → c.filename ≡ some name
      → file ≡ some bytes
      → parse_loop limit fuel (fgets_all (line_length - 1) (line_length - 1) [] bytes) c.settings
        ≡ some (ok u)
      → parse_config limit fuel file c
        ≡ some (ok (record c { settings = u; write_lock = false }, true))
  unfolding parse_config
  parse_config-loop limit fuel name file c bytes u has_file has_bytes run =
      ground (arith, has_file, has_bytes, run)

  -- Reload of the file that Persist prints.
  pub reload-print :
      (limit fuel : ℕ) (name : Text) (c : Config)
      → c.filename ≡ some name
      → IsValid c.settings
      → limit < length c.settings.buckets * 2 ^ fuel
      → All IsPrintable (flatten c.settings.buckets)
      → (d : Config) × (reload limit (suc fuel) (some (print (flatten c.settings.buckets))) c
          ≡ some (ok (d, true)))
        × IsValid d.settings
        × ((q : Text) → get (some q) d.settings ≡ get (some q) c.settings)
        × (d.write_lock ≡ false)
  unfolding reload
  reload-print limit fuel name c has_file v h p =
      let es = flatten c.settings.buckets in
      let (cv, empty, size) = cleared-IsValid c.settings v.roomy in
      let wide : limit < length (clear c.settings).buckets * 2 ^ fuel =
        subst (λ n. limit < n * 2 ^ fuel) (sym size) h in
      let (u, run, s) =
        add_all-Stores (length (clear c.settings).buckets) (add_key limit (suc fuel))
          (add_key-Adds limit fuel (length (clear c.settings).buckets) wide) es (clear c.settings)
          cv (omega arith) (λ q. (flatten-get c.settings q v).0) (λ q n. empty q) in
      (
        record c { settings = u; write_lock = false },
        parse_config-loop limit (suc fuel) name (some (print es))
            (record c { settings = clear c.settings }) (print es) u has_file refl
            (parse_loop-print limit (suc fuel) es (clear c.settings) u p run),
        s.valid,
        λ q. s.reads q ∙ ground (arith, (flatten-get c.settings q v).1, empty q),
        refl,
      )

  -- What Persist leaves in the file is what Reload reads: after both, with enough fuel for the table,
  -- every setting of a valid table of printable settings has the value that it had before. The table
  -- is valid, and the lock is off.
  pub reload-persist :
      (self limit fuel : ℕ) (name : Text) (c : Config) (s : Saved)
      → c.filename ≡ some name
      → IsValid c.settings
      → limit < length c.settings.buckets * 2 ^ fuel
      → All IsPrintable (flatten c.settings.buckets)
      → (t : Saved) × (d : Config) × (persist self true true c s ≡ some (t, ok true))
        × (reload limit (suc fuel) t.file c ≡ some (ok (d, true)))
        × IsValid d.settings
        × ((q : Text) → get (some q) d.settings ≡ get (some q) c.settings)
        × (d.write_lock ≡ false)
  reload-persist self limit fuel name c s has_file v h p =
      let (cursor, saved) = persist-print self name c s has_file in
      let (d, run, valid, reads, unlocked) = reload-print limit fuel name c has_file v h p in
      (
        record { file = some (print (flatten c.settings.buckets)); cursor = cursor },
        d,
        saved,
        run,
        valid,
        reads,
        unlocked,
      )
