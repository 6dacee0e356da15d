-- ===== src/Channel/Slots.antt =====
-- The slots of m_Modes as a map from modes to parameters. The mode 0 marks a slot that was cleared.
use shroudbnc.Base.{
  ℕ, zero, suc, ◌+◌, ◌≤◌, ◌≡◌, ◌≢◌, refl, sym, subst, ◌∙◌, List, [], ◌∷◌, ◌++◌, Option, none, some,
  true, ◌==◌, if◌then◌else◌, set, arith, Bool-cases, Option-cases, inl, inr,
}
use shroudbnc.Hashtable.Key.{Text}
use shroudbnc.Hashtable.Entries.{to_ℕ}
use shroudbnc.Channel.{ChanMode}
use shroudbnc.Channel.Modes.{find_slot, set_mode, unset_mode}

-- What the first slot with the mode has as its parameter.
unfoldable pub lookup : ℕ → List ChanMode → Option (Option Text)
lookup q [] = none
lookup q (m ∷ modes) = if m.mode == q then some m.parameter else lookup q modes

-- How many slots have the mode.
unfoldable pub tally : ℕ → List ChanMode → ℕ
tally q [] = 0
tally q (m ∷ modes) = to_ℕ (m.mode == q) + tally q modes

-- No mode has two slots.
abbrev pub Once : List ChanMode → Type 0
Once modes = (q : ℕ) → q ≢ 0 → tally q modes ≤ 1

pub lookup-none : (q : ℕ) (modes : List ChanMode) → tally q modes ≡ 0 → lookup q modes ≡ none
unfolding lookup tally
lookup-none q [] h = refl
lookup-none q (m ∷ modes) h = ground (arith, lookup-none q modes)

-- What replaces the first slot with the mode.
unfoldable replace_slot : ℕ → ChanMode → List ChanMode → List ChanMode
replace_slot mode new [] = []
replace_slot mode new (m ∷ modes) =
    if m.mode == mode then new ∷ modes else m ∷ replace_slot mode new modes

pub slot-none :
    (mode : ℕ) (modes : List ChanMode) → find_slot mode modes ≡ none → tally mode modes ≡ 0
unfolding find_slot tally
slot-none mode [] h = refl
slot-none mode (m ∷ modes) h = ground (arith, h, slot-none mode modes)

slot-some :
    (mode i : ℕ) (new : ChanMode) (modes : List ChanMode)
    → find_slot mode modes ≡ some i
    → set modes i new ≡ replace_slot mode new modes
unfolding find_slot replace_slot
slot-some mode i new [] h = cc
slot-some mode zero new (m ∷ modes) h = ground (arith, h)
slot-some mode (suc i) new (m ∷ modes) h = ground (arith, h, slot-some mode i new modes)

pub slot-tally :
    (mode i : ℕ) (modes : List ChanMode) → find_slot mode modes ≡ some i → 1 ≤ tally mode modes
unfolding find_slot tally
slot-tally mode i [] h = cc
slot-tally mode zero (m ∷ modes) h = ground (arith, h)
slot-tally mode (suc i) (m ∷ modes) h = ground (arith, h, slot-tally mode i modes)

replace_slot-tally :
    (mode q : ℕ) (new : ChanMode) (modes : List ChanMode)
    → 1 ≤ tally mode modes
    → tally q (replace_slot mode new modes) + to_ℕ (mode == q)
      ≡ tally q modes + to_ℕ (new.mode == q)
unfolding replace_slot tally
replace_slot-tally mode q new [] h = absurd (omega arith)
replace_slot-tally mode q new (m ∷ modes) h = ground (arith, h, replace_slot-tally mode q new modes)

replace_slot-lookup :
    (mode q : ℕ) (new : ChanMode) (modes : List ChanMode)
    → mode ≢ q
    → new.mode ≢ q
    → lookup q (replace_slot mode new modes) ≡ lookup q modes
unfolding replace_slot lookup
replace_slot-lookup mode q new [] h n = refl
replace_slot-lookup mode q new (m ∷ modes) h n =
    ground (arith, h, n, replace_slot-lookup mode q new modes h n)

replace_slot_self :
    (mode : ℕ) (new : ChanMode) (modes : List ChanMode)
    → 1 ≤ tally mode modes
    → new.mode ≡ mode
    → lookup mode (replace_slot mode new modes) ≡ some new.parameter
unfolding replace_slot lookup tally
replace_slot_self mode new [] h n = absurd (omega arith)
replace_slot_self mode new (m ∷ modes) h n = ground (arith, h, n, replace_slot_self mode new modes)

tally-snoc :
    (q : ℕ) (m : ChanMode) (modes : List ChanMode)
    → tally q (modes ++ m ∷ []) ≡ tally q modes + to_ℕ (m.mode == q)
unfolding tally
tally-snoc q m [] = omega arith
tally-snoc q m (x ∷ modes) = omega (arith, tally-snoc q m modes)

lookup-snoc :
    (q : ℕ) (m : ChanMode) (modes : List ChanMode)
    → lookup q (modes ++ m ∷ []) ≡ elim (lookup q modes) [
      | none ↦ if m.mode == q then some m.parameter else none
      | some p ↦ some p
    ]
unfolding lookup
lookup-snoc q m [] = refl
lookup-snoc q m (x ∷ modes) = ground (arith, lookup-snoc q m modes)

fresh_tally :
    (mode q : ℕ) (modes : List ChanMode)
    → find_slot mode modes ≡ none
    → tally q modes ≤ 1
    → tally q modes + to_ℕ (mode == q) ≤ 1
fresh_tally mode q modes fresh few = elim (Bool-cases (mode == q)) [
  | inl hit ↦
      let gone : tally q modes ≡ 0 =
        subst (λ z. tally z modes ≡ 0) (ground (arith, hit)) (slot-none mode modes fresh) in
      ground (arith, hit, gone)
  | inr miss ↦ ground (arith, miss, few)
]

-- Setting a mode: it has this parameter then, and other modes are as before.
pub set_mode-lookup :
    (mode q : ℕ) (p : Option Text) (modes : List ChanMode)
    → lookup q (set_mode true mode p modes) ≡ (if mode == q then some p else lookup q modes)
unfolding set_mode
set_mode-lookup mode q p modes = elim (Option-cases (find_slot mode modes)) [
  | inl fresh ↦
      rw (set_mode, fresh)
        (lookup-snoc q (record { mode = mode; parameter = p }) modes ∙ new_lookup fresh)
  | inr (i, old) ↦
      rw (set_mode, old, slot-some mode i (record { mode = mode; parameter = p }) modes old)
        (old_lookup i old)
]
  where
    new_lookup :
        find_slot mode modes ≡ none
        → elim (lookup q modes) as (λ z. Option (Option Text)) [
          | none ↦ if mode == q then some p else none
          | some t ↦ some t
        ]
          ≡ (if mode == q then some p else lookup q modes)
    new_lookup fresh = elim (Bool-cases (mode == q)) [
      | inl hit ↦
          let same_mode : q ≡ mode = ground (arith, hit) in
          let absent : lookup q modes ≡ none =
            subst (λ z. lookup z modes ≡ none) (sym same_mode)
              (lookup-none mode modes (slot-none mode modes fresh)) in
          ground (arith, hit, absent)
      | inr miss ↦ ground (arith, miss)
    ]

    old_lookup :
        (i : ℕ)
        → find_slot mode modes ≡ some i
        → lookup q (replace_slot mode (record { mode = mode; parameter = p }) modes)
          ≡ (if mode == q then some p else lookup q modes)
    old_lookup i old = elim (Bool-cases (mode == q)) [
      | inl hit ↦ rw hit (
          subst
            (λ z.
              lookup z (replace_slot mode (record { mode = mode; parameter = p }) modes) ≡ some p)
            (ground (arith, hit))
            (replace_slot_self mode (record { mode = mode; parameter = p }) modes
              (slot-tally mode i modes old) refl))
      | inr miss ↦ rw miss (
          replace_slot-lookup mode q (record { mode = mode; parameter = p }) modes
            (ground (arith, miss)) (ground (arith, miss)))
    ]

pub grown-Once :
    (mode : ℕ) (p : Option Text) (modes : List ChanMode)
    → Once modes
    → Once (set_mode true mode p modes)
unfolding set_mode
grown-Once mode p modes once q h = elim (Option-cases (find_slot mode modes)) [
  | inl fresh ↦
      rw (set_mode, fresh)
        (omega (
          arith,
          tally-snoc q (record { mode = mode; parameter = p }) modes,
          once q h,
          fresh_tally mode q modes fresh (once q h),
        ))
  | inr (i, old) ↦
      rw (set_mode, old, slot-some mode i (record { mode = mode; parameter = p }) modes old)
        (omega (
          arith,
          once q h,
          replace_slot-tally mode q (record { mode = mode; parameter = p }) modes
              (slot-tally mode i modes old),
        ))
]

-- Unsetting a mode: it has no slot then, and other modes are as before.
pub unset_mode-lookup :
    (mode q : ℕ) (modes : List ChanMode)
    → q ≢ 0
    → mode ≢ 0
    → Once modes
    → lookup q (unset_mode mode modes) ≡ (if mode == q then none else lookup q modes)
unfolding unset_mode
unset_mode-lookup mode q modes hq hm once = elim (Bool-cases (mode == q)) [
  | inl hit ↦
      let same_mode : mode ≡ q = ground (arith, hit) in
      rw hit (subst (λ z. lookup z (unset_mode mode modes) ≡ none) same_mode (gone))
  | inr miss ↦ rw miss (kept (ground (arith, miss)))
]
  where
    gone : lookup mode (unset_mode mode modes) ≡ none
    gone = elim (Option-cases (find_slot mode modes)) [
      | inl fresh ↦ rw (unset_mode, fresh) (lookup-none mode modes (slot-none mode modes fresh))
      | inr (i, old) ↦
          rw (unset_mode, old, slot-some mode i (record { mode = 0; parameter = none }) modes old)
            (lookup-none mode (replace_slot mode (record { mode = 0; parameter = none }) modes) (
              ground (
                arith,
                hm,
                once mode hm,
                replace_slot-tally mode mode (record { mode = 0; parameter = none }) modes
                    (slot-tally mode i modes old),
              )))
    ]

    kept : mode ≢ q → lookup q (unset_mode mode modes) ≡ lookup q modes
    kept away = elim (Option-cases (find_slot mode modes)) [
      | inl fresh ↦ rw (unset_mode, fresh)
      | inr (i, old) ↦
          rw (unset_mode, old, slot-some mode i (record { mode = 0; parameter = none }) modes old)
            (replace_slot-lookup mode q (record { mode = 0; parameter = none }) modes away
              (λ e. hq (sym e)))
    ]

pub unset_mode-Once : (mode : ℕ) (modes : List ChanMode) → Once modes → Once (unset_mode mode modes)
unfolding unset_mode
unset_mode-Once mode modes once q h = elim (Option-cases (find_slot mode modes)) [
  | inl fresh ↦ rw (unset_mode, fresh) (once q h)
  | inr (i, old) ↦
      rw (unset_mode, old, slot-some mode i (record { mode = 0; parameter = none }) modes old)
        (ground (
          arith,
          h,
          once q h,
          replace_slot-tally mode q (record { mode = 0; parameter = none }) modes
              (slot-tally mode i modes old),
        ))
]
