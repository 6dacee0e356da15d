-- ===== src/Banlist/Quota.antt =====
-- What SetBan of src/Banlist.cpp does to the bans.
use shroudbnc.Base.{
  ℕ, suc, ◌+◌, ◌*◌, ◌^◌, ◌≤◌, ◌<◌, ◌≡◌, ◌⊎◌, some, Bool, true, false, not, ◌&&◌, if◌then◌else◌,
  length, arith, ok, err, generic_quota_exceeded, ℤ, Bool-cases, inl, inr,
}
use shroudbnc.Hashtable.Key.{KeyRule, Text, same}
use shroudbnc.Hashtable.{Table, get_length, add}
use shroudbnc.Hashtable.View.{IsValid}
use shroudbnc.Hashtable.Adding.{add_key-Writes}
use shroudbnc.Banlist.{Ban, reaches, set_ban, get_ban}

module _ ⦃rule : KeyRule⦄ where
  -- A ban that was set: it is the one with its mask, the others stay, and there is at most one more.
  pub record HasBan (ban : Ban) (bans out : Table Ban) : Type 0 where
    pub valid : IsValid out
    pub reads :
        (q : Text)
        → get_ban (some q) out ≡ (if same ban.mask q then some ban else get_ban (some q) bans)
    pub more : get_length out ≤ get_length bans + 1

  -- SetBan in a valid list, with memory and enough fuel for the table, returns. A user who is no administrator and whose list has reached the quota gets
  -- the quota error and the list stays. Otherwise the ban is set.
  pub set_ban-quota :
      (limit fuel : ℕ) (admin : Bool) (quota : ℤ) (ban : Ban) (bans : Table Ban)
      → IsValid bans
      → limit < length bans.buckets * 2 ^ fuel
      → ((not admin && reaches (get_length bans) quota ≡ true)
          × (set_ban limit (suc fuel) true admin quota ban.mask ban.nick ban.timestamp bans
              ≡ some (bans, err generic_quota_exceeded)))
        ⊎ ((not admin && reaches (get_length bans) quota ≡ false)
            × ((out : Table Ban) × (set_ban limit
                    (suc fuel)
                    true
                    admin
                    quota
                    ban.mask
                    ban.nick
                    ban.timestamp
                    bans
                  ≡ some (out, ok tt))
                × HasBan ban bans out))
  unfolding set_ban get_ban get_length add
  set_ban-quota limit fuel admin quota ban bans v h =
      elim (Bool-cases (not admin && reaches (get_length bans) quota)) [
        | inl full ↦ inl (full, ground (arith, full))
        | inr room ↦
            let (out, run, w, wide) = add_key-Writes limit fuel ban.mask ban bans v h in
            inr (
              room,
              (
                out,
                ground (arith, room, run),
                record { valid = w.valid; reads = w.reads; more = omega (arith, w.length) },
              ),
            )
      ]
