-- ===== src/Session/Everywhere.antt =====
-- What NICK and QUIT do to every channel of CIRCConnection of src/IRCConnection.cpp.
use mathlib.Core.Option.{some-injective}
use native.Mathlib.Nat.{mul-le-mul_right}
use shroudbnc.Base.{
  ℕ, suc, ◌^◌, ◌<◌, ◌≡◌, refl, sym, ap, subst, ◌∙◌, List, [], ◌∷◌, ◌++◌, Option, none, some, Bool,
  true, false, not, ◌&&◌, if◌then◌else◌, arith, ok, Option-cases, Bool-cases, inl, inr,
}
use shroudbnc.Hashtable.Key.{KeyRule, Text, same}
use shroudbnc.Hashtable.{Table, get, remove_key}
use shroudbnc.Hashtable.View.{IsValid}
use shroudbnc.Hashtable.Writes.{remove_key-Writes}
use shroudbnc.Channel.{Channel, remove_user, rename_user}
use shroudbnc.Channel.Nicks.{rename_user-moves}
use shroudbnc.Nick.{Nick}
use shroudbnc.Session.{
  Session, nick_from_hostmask, each, is_me, get_channel, rename_any, remove_any, want_away_nick,
  on_nick, on_quit,
}
use shroudbnc.Session.Each.{changed, each-changed}

module _ ⦃rule : KeyRule⦄ where
  -- The tables of a session are valid.
  pub record IsSession (s : Session) : Type 0 where
    pub channels : IsValid s.channels
    pub nicks : (name : Text) (c : Channel) → get_channel name s ≡ some c → IsValid c.nicks

  -- Two sessions have the same channels, and each is related to the one before.
  abbrev pub Across : (Channel → Channel → Type 0) → Session → Session → Type 0
  Across R s d =
      (name : Text)
      → (get_channel name s ≡ none → get_channel name d ≡ none)
        × ((c : Channel)
            → get_channel name s ≡ some c
            → (e : Channel) × (get_channel name d ≡ some e) × R c e)

  -- A change of each channel that keeps nick tables valid.
  each-Across :
      (R : Channel → Channel → Type 0) (change : Channel → Option Channel) (s : Session)
      → IsSession s
      → ((c : Channel)
          → IsValid c.nicks
          → (e : Channel) × (change c ≡ some e) × IsValid e.nicks × R c e)
      → (channels : Table Channel) × (each change s.channels ≡ some channels)
        × IsSession (record s { channels = channels })
        × (channels.length_cache ≡ s.channels.length_cache)
        × Across R s (record s { channels = channels })
  unfolding get_channel
  each-Across R change s v total =
      let (u, run, valid, many, reads) =
        each-changed change s.channels v.channels
          (λ q c at. let (e, made, nicks, related) = total c (v.nicks q c at) in (e, made)) in
      (
        u,
        run,
        record {
          channels = valid;
          nicks = λ name d at. elim (Option-cases (get (some name) s.channels)) [
            | inl gone ↦
                absurd (not_both d (sym (ap (changed change) gone) ∙ sym (reads name) ∙ at))
            | inr (c, there) ↦
                let (e, made, nicks, related) = total c (v.nicks name c there) in
                let now_e : some e ≡ some d =
                  sym made ∙ sym (ap (changed change) there) ∙ sym (reads name) ∙ at in
                subst (λ (o : Channel). IsValid o.nicks) (some-injective _ _ now_e) nicks
          ];
        },
        many,
        λ name. (
          λ gone. reads name ∙ ap (changed change) gone,
          λ c there.
              let (e, made, nicks, related) = total c (v.nicks name c there) in
              (e, reads name ∙ ap (changed change) there ∙ made, related),
        ),
      )
    where
      not_both : (d : Channel) → ¬ (none ≡ some d)
      not_both d f = cc

  -- The channel without the nick.
  abbrev pub Leaves : Text → Channel → Channel → Type 0
  Leaves nick c e =
      (m : Text) → get (some m) e.nicks ≡ (if same nick m then none else get (some m) c.nicks)

  -- A line QUIT of a nick, in a session with valid tables: the tables stay valid, no channel is added or
  -- lost, and in each of them the nick is gone, and every other nick reads as before.
  pub on_quit-Across :
      (reply nick : Text) (s : Session)
      → IsSession s
      → nick_from_hostmask reply ≡ some nick
      → (d : Session) × (on_quit reply s ≡ some d)
        × IsSession d
        × (d.channels.length_cache ≡ s.channels.length_cache)
        × Across (Leaves nick) s d
  unfolding on_quit remove_any remove_user
  on_quit-Across reply nick s v named =
      let (channels, run, valid, many, across) =
        each-Across (Leaves nick) (λ c. some (remove_any (nick_from_hostmask reply) c)) s v
          (λ c nicks.
            let w = remove_key-Writes false nick c.nicks nicks in
            (
              record c { nicks = remove_key false nick c.nicks },
              ap (λ o. some (remove_any o c)) named,
              w.valid,
              w.reads,
            )) in
      (record s { channels = channels }, rw (on_quit, run) refl, valid, many, across)

  -- The channel with the nick's object under its new name.
  abbrev pub Renames : Text → Text → Channel → Channel → Type 0
  Renames nick new_nick c e =
      ((obj : Nick)
        → get (some nick) c.nicks ≡ some obj
        → (m : Text)
        → get (some m) e.nicks ≡ (
            if same new_nick m
            then some (record obj { nick = some new_nick })
            else (if same nick m then none else get (some m) c.nicks)))
      × (get (some nick) c.nicks ≡ none → e ≡ c)

  rename_user-Renames :
      (limit fuel : ℕ) (nick new_nick : Text) (c : Channel)
      → limit < 2 ^ fuel
      → IsValid c.nicks
      → (e : Channel) × (rename_user limit (suc fuel) true nick new_nick c ≡ some e)
        × IsValid e.nicks
        × Renames nick new_nick c e
  unfolding rename_user
  rename_user-Renames limit fuel nick new_nick c h v =
      elim (Option-cases (get (some nick) c.nicks)) [
        | inl gone ↦ (
          c,
          rw (rename_user, gone) refl,
          v,
          (λ obj there. absurd (not_both obj (sym gone ∙ there)), λ e. refl),
        )
        | inr (obj, there) ↦
            let (e, run, valid, reads) =
              rename_user-moves limit fuel nick new_nick obj c v
                (omega (arith, h, mul-le-mul_right (2 ^ fuel) v.roomy)) there in
            (
              e,
              run,
              valid,
              (
                λ other at m.
                    subst
                      (λ (o : Nick). get (some m) e.nicks ≡ (
                        if same new_nick m
                        then some (record o { nick = some new_nick })
                        else (if same nick m then none else get (some m) c.nicks)))
                      (some-injective _ _ (sym there ∙ at)) (reads m),
                λ none_there. absurd (not_both obj (sym none_there ∙ there)),
              ),
            )
      ]
    where
      not_both : (obj : Nick) → ¬ (none ≡ some obj)
      not_both obj f = cc

  want_away_nick-asks :
      (asks : Bool) (away_nick : Option Text) (nick : Text) (s : Session)
      → (sent : List Text) × (want_away_nick asks away_nick (some nick) s
          ≡ ok (record s { sent = sent }))
  unfolding want_away_nick
  want_away_nick-asks false away_nick nick s = (s.sent, refl)
  want_away_nick-asks true none nick s = (s.sent, refl)
  want_away_nick-asks true (some away) nick s = elim (Bool-cases (rule.strcasecmp_zero away nick)) [
    | inl wanted ↦
        (s.sent ++ (78 ∷ 73 ∷ 67 ∷ 75 ∷ 32 ∷ away) ∷ [], rw (want_away_nick, wanted) refl)
    | inr other ↦ (s.sent, rw (want_away_nick, other) refl)
  ]

  -- A line NICK of a nick, in a session with valid tables, with memory and enough fuel for tables of any size: the tables stay valid, no channel is added or lost, and in each channel with the
  -- nick its object stands under the new name with all else of it kept, the old nick is gone but where it is the same key, and every other nick reads as before; the other channels stay as
  -- they are. m_CurrentNick follows if it was the user's own nick, and stays otherwise.
  pub on_nick-Across :
      (limit fuel : ℕ) (client : Bool) (away_nick : Option Text) (reply nick new_nick : Text)
      (s : Session)
      → IsSession s
      → limit < 2 ^ fuel
      → nick_from_hostmask reply ≡ some nick
      → (d : Session) × (on_nick limit (suc fuel) client away_nick reply new_nick s ≡ some (ok d))
        × IsSession d
        × (d.channels.length_cache ≡ s.channels.length_cache)
        × Across (Renames nick new_nick) s d
        × (d.current_nick ≡ (if is_me (some nick) s then some new_nick else s.current_nick))
  unfolding on_nick rename_any get_channel
  on_nick-Across limit fuel client away_nick reply nick new_nick s v h named =
      let (channels, run, valid, many, across) =
        each-Across (Renames nick new_nick) (rename_any limit (suc fuel) (some nick) new_nick) s v
          (λ c nicks. rename_user-Renames limit fuel nick new_nick c h nicks) in
      elim (Bool-cases (is_me (some nick) s)) [
        | inl mine ↦
            let t : Session = record s { current_nick = some new_nick } in
            let (sent, asked) = want_away_nick-asks (not true && not client) away_nick nick t in
            (
              record t { sent = sent; channels = channels },
              rw (on_nick, named, mine, asked, named, run) refl,
              record { channels = valid.channels; nicks = valid.nicks },
              many,
              across,
              rw mine refl,
            )
        | inr other ↦
            let (sent, asked) = want_away_nick-asks (not false && not client) away_nick nick s in
            (
              record s { sent = sent; channels = channels },
              rw (on_nick, named, other, asked, named, run) refl,
              record { channels = valid.channels; nicks = valid.nicks },
              many,
              across,
              rw other refl,
            )
      ]
