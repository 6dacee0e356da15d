-- ===== src/Hashtable/Spelling.antt =====
-- Get of CHashtable sees a key only as its comparison does.
use shroudbnc.Base.{◌≡◌, refl, ap, ◌∙◌, [], ◌∷◌, some, true, arith, get_or, length}
use shroudbnc.Hashtable.Key.{KeyRule, Text, same, same_symm, same_congr}
use shroudbnc.Hashtable.Entries.{Bucket, find}
use shroudbnc.Hashtable.{Table, get}
use shroudbnc.Hashtable.View.{home-same}

module _ {ℓ} ⦃rule : KeyRule⦄ {V : Type ℓ} where
  find-same : (k q : Text) (es : Bucket V) → same k q ≡ true → find k es ≡ find q es
  unfolding find
  find-same k q [] e = refl
  find-same k q (x ∷ es) e =
      ground (arith, find-same k q es e, same_symm x.0 k, same_symm x.0 q, same_congr k q x.0 e)

  -- Two spellings of one key read the same.
  pub get-same : (k q : Text) (t : Table V) → same k q ≡ true → get (some k) t ≡ get (some q) t
  unfolding get
  get-same k q t e =
      ap (λ i. find k (get_or t.buckets i [])) (home-same k q (length t.buckets) e)
      ∙ find-same k q _ e
