-- ===== src/Session/Lines/Rooms.antt =====
-- Changes that keep the tables of channels and nicks of a CIRCConnection valid.
use mathlib.Core.Option.{some-injective}
use mathlib.Core.List.{flatten}
use native.Mathlib.Nat.{mul-le-mul_right}
use shroudbnc.Base.{
  ℕ, suc, ◌+◌, ◌^◌, ◌≤◌, ◌<◌, ◌≡◌, refl, sym, ap, subst, ◌∙◌, List, [], ◌∷◌, ◌++◌, map, Option,
  none, some, Bool, true, false, not, ◌&&◌, ◌||◌, ltb, arith, Option-cases, Bool-cases, inl, inr,
}
use shroudbnc.Hashtable.Key.{KeyRule, Text, same}
use shroudbnc.Hashtable.{Table, new, get, remove_key}
use shroudbnc.Hashtable as Hashtable
use shroudbnc.Hashtable.View.{IsValid, found}
use shroudbnc.Hashtable.Writes.{Writes, remove_key-Writes}
use shroudbnc.Hashtable.Adding.{add_key-Writes}
use shroudbnc.Nick.{Nick, set_site, set_prefixes, behind_mark}
use shroudbnc.Nick as Nicks
use shroudbnc.Hashtable.Row.{new-IsValid, cleared-IsValid}
use shroudbnc.Channel.{Channel, add_user, remove_user}
use shroudbnc.Channel as Channels
use shroudbnc.Session.{Session, nick_from_hostmask, is_me, add_channel}
use shroudbnc.Session.Lines.{put, has_site, host_round, host_loop, learn_site, update_host_helper}
use shroudbnc.Session.Lines.Put.{put-Writes}

module _ ⦃rule : KeyRule⦄ where
  -- A table of channels with valid nick tables and not more channels than there may be.
  pub record IsRooms (most : ℕ) (t : Table Channel) : Type 0 where
    pub channels : IsValid t
    pub nicks : (q : Text) (c : Channel) → get (some q) t ≡ some c → IsValid c.nicks
    pub few : t.length_cache ≤ most

  none-ne : {A : Type 0} (a : A) → ¬ (none ≡ some a)
  none-ne a e = cc

  -- A write of a valid channel, or a removal, keeps the table.
  Writes-IsRooms :
      (most : ℕ) (k : Text) (v : Option Channel) (t u : Table Channel)
      → IsRooms most t
      → Writes t k v u
      → ((c : Channel) → v ≡ some c → IsValid c.nicks)
      → u.length_cache ≤ most
      → IsRooms most u
  Writes-IsRooms most k v t u r w fits few = record {
    channels = w.valid;
    nicks = λ q c at. elim (Bool-cases (same k q)) [
      | inl here ↦ fits c (sym (w.reads q ∙ rw here refl) ∙ at)
      | inr other ↦ r.nicks q c (sym (w.reads q ∙ rw other refl) ∙ at)
    ];
    few = few;
  }

  pub put-IsRooms :
      (most : ℕ) (k : Text) (c d : Channel) (t : Table Channel)
      → IsRooms most t
      → get (some k) t ≡ some c
      → IsValid d.nicks
      → IsRooms most (put k d t)
  put-IsRooms most k c d t r at v =
      let w = put-Writes k d c t r.channels at in
      let there : found (get (some k) t) ≡ 1 = ap found at in
      Writes-IsRooms most k (some d) t (put k d t) r w
        (λ e same_one. subst (λ (o : Channel). IsValid o.nicks) (some-injective _ _ same_one) v)
        (omega (arith, w.length, there, r.few))

  pub remove_key-IsRooms :
      (most : ℕ) (k : Text) (t : Table Channel)
      → IsRooms most t
      → IsRooms most (remove_key false k t)
  remove_key-IsRooms most k t r =
      let w = remove_key-Writes false k t r.channels in
      Writes-IsRooms most k none t (remove_key false k t) r w (λ e no. absurd (none-ne e no))
        (omega (arith, w.length, r.few))

  host_round-IsValid :
      (lean_mode : ℕ) (nick site : Text) (channels : Table Channel) (c : Channel)
      → IsValid c.nicks
      → IsValid (host_round lean_mode nick site channels c).nicks
  unfolding host_round
  host_round-IsValid lean_mode nick site channels c v =
      elim (Bool-cases (not (Channels.has_names lean_mode c))) [
        | inl hidden ↦ rw (host_round, hidden) v
        | inr shown ↦ elim (Option-cases (get (some nick) c.nicks)) [
          | inl gone ↦ rw (host_round, shown, gone) v
          | inr (obj, at) ↦ elim (Bool-cases (has_site lean_mode obj channels)) [
            | inl known ↦ rw (host_round, shown, at, known) v
            | inr unknown ↦
                rw (host_round, shown, at, unknown)
                  (put-Writes nick (set_site true (some site) obj).0 obj c.nicks v at).valid
          ]
        ]
      ]

  host_loop-IsRooms :
      (most lean_mode : ℕ) (nick site : Text) (names : List Text) (t : Table Channel)
      → IsRooms most t
      → IsRooms most (host_loop lean_mode nick site names t)
  unfolding host_loop
  host_loop-IsRooms most lean_mode nick site [] t r = r
  host_loop-IsRooms most lean_mode nick site (name ∷ names) t r =
      elim (Option-cases (get (some name) t)) [
        | inl gone ↦ rw (host_loop, gone) (host_loop-IsRooms most lean_mode nick site names t r)
        | inr (c, at) ↦
            rw (host_loop, at)
              (host_loop-IsRooms most lean_mode nick site names
                (put name (host_round lean_mode nick site t c) t)
                (put-IsRooms most name c (host_round lean_mode nick site t c) t r at
                  (host_round-IsValid lean_mode nick site t c (r.nicks name c at))))
      ]

  learn_site-IsRooms :
      (most lean_mode : ℕ) (nick site : Text) (s : Session)
      → IsRooms most s.channels
      → IsRooms most (learn_site lean_mode nick site s).channels
  unfolding learn_site
  learn_site-IsRooms most lean_mode nick site s r =
      let names = map (λ e. e.0) (flatten s.channels.buckets) in
      let all_told = host_loop-IsRooms most lean_mode nick site names s.channels r in
      elim (Bool-cases (is_me (some nick) s)) [
        | inl mine ↦ elim (Bool-cases (ltb 0 lean_mode)) [
          | inl lean ↦ rw (learn_site, mine, lean) r
          | inr full ↦ rw (learn_site, mine, full) all_told
        ]
        | inr other ↦ elim (Bool-cases (ltb 0 lean_mode)) [
          | inl lean ↦ rw (learn_site, other, lean) r
          | inr full ↦ rw (learn_site, other, full) all_told
        ]
      ]

  pub update_host_helper-IsRooms :
      (most lean_mode : ℕ) (host : Text) (s : Session)
      → IsRooms most s.channels
      → IsRooms most (update_host_helper lean_mode host s).channels
  unfolding update_host_helper
  update_host_helper-IsRooms most lean_mode host s r =
      elim (Bool-cases
        (ltb 0 lean_mode && elim s.site as (λ x. Bool) [ none ↦ false | some site ↦ true ])) [
          | inl lean ↦ rw (update_host_helper, lean) r
          | inr full ↦ elim (Option-cases (nick_from_hostmask host)) [
            | inl unnamed ↦ rw (update_host_helper, full, unnamed) r
            | inr (nick, named) ↦ elim (Option-cases (behind_mark host)) [
              | inl unmarked ↦ rw (update_host_helper, full, named, unmarked) r
              | inr (site, marked) ↦
                  rw (update_host_helper, full, named, marked)
                    (learn_site-IsRooms most lean_mode nick site s r)
            ]
          ]
        ]

  pub add_user-IsValid :
      (lean_mode max_nicks limit fuel now : ℕ) (nick : Text) (prefixes : Option Text) (c : Channel)
      → IsValid c.nicks
      → limit < 2 ^ fuel
      → (d : Channel) × (add_user lean_mode max_nicks limit (suc fuel) true now nick prefixes c
          ≡ some d)
        × IsValid d.nicks
  unfolding add_user
  add_user-IsValid lean_mode max_nicks limit fuel now nick prefixes c v h =
      elim (Bool-cases (ltb 1 lean_mode || not c.keep_nicklist)) [
        | inl off ↦ (c, rw (add_user, off) refl, v)
        | inr on ↦ elim (Bool-cases (ltb max_nicks (Hashtable.get_length c.nicks))) [
          | inl many ↦ (
            Channels.forget_nicks c,
            rw (add_user, on, many) refl,
            (cleared-IsValid c.nicks v.roomy).0,
          )
          | inr room ↦
              let obj = (set_prefixes true prefixes (Nicks.new true now nick)).0 in
              let r = (remove_key-Writes false nick c.nicks v).valid in
              let (u, run, w, wide) =
                add_key-Writes limit fuel nick obj (remove_key false nick c.nicks) r
                  (omega (arith, h, mul-le-mul_right (2 ^ fuel) r.roomy)) in
              (record c { nicks = u }, rw (add_user, on, room, run) refl, w.valid)
        ]
      ]

  new_channel-IsValid : (now : ℕ) (name : Text) → IsValid (Channels.new true now name).nicks
  unfolding Channels.new Hashtable.register_value_destructor
  new_channel-IsValid now name =
      let v = new-IsValid in record { roomy = v.roomy; placed = v.placed; counted = v.counted }

  pub add_channel-IsRooms :
      (quota limit fuel now : ℕ) (name : Text) (s : Session)
      → IsRooms (quota + 1) s.channels
      → limit < 2 ^ fuel
      → (t : Session) × (made : Bool) × (add_channel quota limit (suc fuel) now name s
          ≡ some (t, made))
        × IsRooms (quota + 1) t.channels
  unfolding add_channel Hashtable.get_length
  add_channel-IsRooms quota limit fuel now name s r h =
      elim (Bool-cases (ltb quota s.channels.length_cache)) [
        | inl many ↦ (
          record s { sent = s.sent ++ (80 ∷ 65 ∷ 82 ∷ 84 ∷ 32 ∷ name) ∷ [] },
          false,
          rw (add_channel, many) refl,
          r,
        )
        | inr room ↦
            let (u, run, w, wide) =
              add_key-Writes limit fuel name (Channels.new true now name) s.channels r.channels
                (omega (arith, h, mul-le-mul_right (2 ^ fuel) r.channels.roomy)) in
            (
              record s { channels = u },
              true,
              rw (add_channel, room, run) refl,
              Writes-IsRooms (quota + 1) name (some (Channels.new true now name)) s.channels u r w
                  (λ c e.
                    subst (λ (o : Channel). IsValid o.nicks) (some-injective _ _ e)
                      (new_channel-IsValid now name))
                  (ground (arith, w.length, room)),
            )
      ]
