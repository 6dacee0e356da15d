-- ===== src/Session/Lines/Put.antt =====
-- Changing an object of a hash table in its place.
use shroudbnc.Base.{
  ◌≡◌, refl, ap, [], ◌∷◌, some, if◌then◌else◌, length, arith, Bool-cases, inl, inr,
}
use shroudbnc.Hashtable.Key.{KeyRule, Text, same, same_symm, same_congr}
use shroudbnc.Hashtable.Entries.{Bucket, find, count}
use shroudbnc.Hashtable.{Table, get, home, bucket_of}
use shroudbnc.Hashtable.View.{IsValid, found}
use shroudbnc.Hashtable.Writes.{Writes, bucket-Writes}
use shroudbnc.Session.Lines.{put_bucket, put}

module _ {ℓ} ⦃rule : KeyRule⦄ {V : Type ℓ} where
  count-put_bucket : (k q : Text) (v : V) (es : Bucket V) → count q (put_bucket k v es) ≡ count q es
  unfolding put_bucket count
  count-put_bucket k q v [] = refl
  count-put_bucket k q v (e ∷ es) = ground (arith, count-put_bucket k q v es)

  length-put_bucket : (k : Text) (v : V) (es : Bucket V) → length (put_bucket k v es) ≡ length es
  unfolding put_bucket
  length-put_bucket k v [] = refl
  length-put_bucket k v (e ∷ es) = ground (arith, length-put_bucket k v es)

  find-put_bucket :
      (k q : Text) (v old : V) (es : Bucket V)
      → find k es ≡ some old
      → find q (put_bucket k v es) ≡ (if same k q then some v else find q es)
  unfolding put_bucket find
  find-put_bucket k q v old [] e = cc
  find-put_bucket k q v old (x ∷ es) e = elim (Bool-cases (same x.0 k)) [
    | inl here ↦ ground (arith, here, same_congr x.0 k q here)
    | inr other ↦ ground (
      arith,
      other,
      e,
      find-put_bucket k q v old es,
      same_congr k q x.0,
      same_symm x.0 k,
      same_symm x.0 q,
    )
  ]

  -- The key reads the new object, every other key reads as before, and the table stays valid.
  pub put-Writes :
      (k : Text) (v old : V) (t : Table V)
      → IsValid t
      → get (some k) t ≡ some old
      → Writes t k (some v) (put k v t)
  unfolding put get
  put-Writes k v old t valid e =
      let b = bucket_of t.buckets k in
      let there : found (get (some k) t) ≡ 1 = ap found e in
      bucket-Writes t k (put_bucket k v b) valid (some v) t.length_cache t.destroyed
        (λ q. ground (arith, count-put_bucket k q v b, valid.placed q (home k (length t.buckets))))
        (λ q. find-put_bucket k q v old b e) (omega (arith, there, length-put_bucket k v b))
        (omega (arith, there))
