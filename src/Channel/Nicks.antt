-- ===== src/Channel/Nicks.antt =====
-- The nick list of a CChannel: RenameUser and AddUser.
use shroudbnc.Base.{
  ℕ, suc, ◌+◌, ◌*◌, ◌^◌, ◌≤◌, ◌<◌, ◌≡◌, sym, subst, Option, none, some, true, false, ◌||◌, not, ltb,
  le→ltb, if◌then◌else◌, length, arith,
}
use shroudbnc.Hashtable.Key.{KeyRule, Text, same}
use shroudbnc.Hashtable.{Table, get, remove_key, add_key}
use shroudbnc.Hashtable as Hashtable
use shroudbnc.Hashtable.View.{IsValid}
use shroudbnc.Hashtable.Writes.{remove_key-Writes}
use shroudbnc.Hashtable.Adding.{add_key-Writes, length-remove_key}
use shroudbnc.Nick.{Nick, set_nick, set_prefixes}
use shroudbnc.Nick as Nick
use shroudbnc.Channel.{Channel, add_user, rename_user}

module _ ⦃rule : KeyRule⦄ where
  -- RenameUser of a nick on a channel with a valid nick table, with memory for the name and enough
  -- fuel for the table: the new nick then reads the old one's object under its new name, with all
  -- else of it kept. The old nick reads nothing but where it is the same key, every other nick
  -- reads as before, and the table is valid.
  pub rename_user-moves :
      (limit fuel : ℕ) (nick new_nick : Text) (obj : Nick) (c : Channel)
      → IsValid c.nicks
      → limit < length c.nicks.buckets * 2 ^ fuel
      → get (some nick) c.nicks ≡ some obj
      → (d : Channel) × (rename_user limit (suc fuel) true nick new_nick c ≡ some d)
        × IsValid d.nicks
        × ((q : Text)
            → get (some q) d.nicks ≡ (
                if same new_nick q
                then some (record obj { nick = some new_nick })
                else (if same nick q then none else get (some q) c.nicks)))
  unfolding rename_user set_nick
  rename_user-moves limit fuel nick new_nick obj c v h there =
      let r = remove_key-Writes true nick c.nicks v in
      let size = length-remove_key true nick c.nicks in
      let (u, run, w, wide) =
        add_key-Writes limit fuel new_nick (record obj { nick = some new_nick })
          (remove_key true nick c.nicks) r.valid (subst (λ z. limit < z * 2 ^ fuel) (sym size) h) in
      (
        record c { nicks = u },
        rw (rename_user, there, run),
        w.valid,
        λ q. ground (arith, w.reads q, r.reads q),
      )

  -- AddUser on a channel with a valid nick table, where nicks are kept and no more than the user's
  -- limit are there, with memory and enough fuel: the nick reads a new object with these prefixes,
  -- every other nick reads as before, the table is valid, and it has one nick more than the limit
  -- at most.
  add_user-reads :
      (lean_mode max_nicks limit fuel now : ℕ) (nick : Text) (prefixes : Option Text) (c : Channel)
      → IsValid c.nicks
      → limit < length c.nicks.buckets * 2 ^ fuel
      → lean_mode ≤ 1
      → c.keep_nicklist ≡ true
      → c.nicks.length_cache ≤ max_nicks
      → (d : Channel) × (add_user lean_mode max_nicks limit (suc fuel) true now nick prefixes c
          ≡ some d)
        × IsValid d.nicks
        × (d.nicks.length_cache ≤ max_nicks + 1)
        × ((q : Text)
            → get (some q) d.nicks ≡ (
                if same nick q
                then some (set_prefixes true prefixes (Nick.new true now nick)).0
                else get (some q) c.nicks))
  unfolding add_user Hashtable.get_length
  add_user-reads lean_mode max_nicks limit fuel now nick prefixes c v h lean keep few =
      let r = remove_key-Writes false nick c.nicks v in
      let size = length-remove_key false nick c.nicks in
      let keeping : (ltb 1 lean_mode || not c.keep_nicklist) ≡ false = ground (arith, lean, keep) in
      let (u, run, w, wide) =
        add_key-Writes limit fuel nick (set_prefixes true prefixes (Nick.new true now nick)).0
          (remove_key false nick c.nicks) r.valid
          (subst (λ z. limit < z * 2 ^ fuel) (sym size) h) in
      (
        record c { nicks = u },
        rw (add_user, keeping, le→ltb max_nicks c.nicks.length_cache few, run),
        w.valid,
        omega (arith, w.length, r.length, few),
        λ q. ground (arith, w.reads q, r.reads q),
      )
