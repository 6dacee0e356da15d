-- ===== src/Channel/Changes.antt =====
-- What a mode change does to the modes of a channel, in terms of the groups of CHANMODES, and how
-- the parameters and slots of ParseModeChange in src/Channel.cpp agree with it.
use shroudbnc.Base.{
  ℕ, ◌≤◌, ◌≡◌, ◌≢◌, refl, sym, subst, ◌∙◌, List, [], ◌∷◌, ◌++◌, Option, none, some, Bool, true,
  false, ◌==◌, if◌then◌else◌, arith, Bool-cases, Option-cases, inl, inr,
}
use shroudbnc.Hashtable.Key.{Text}
use shroudbnc.Isupport.{comma, parameter_loop}
use shroudbnc.Isupport.ChanModes.{in_group, NoComma, parameter_loop-groups}
use shroudbnc.Channel.{ChanMode}
use shroudbnc.Channel.Modes.{find_slot, set_mode, takes, only_if, rest_of, first_of}
use shroudbnc.Channel.Slots.{
  lookup, tally, Once, lookup-none, slot-none, slot-tally, set_mode-lookup, grown-Once,
}

-- Which modes are set, and the parameter of each.
abbrev pub ModeMap : Type 0
ModeMap = ℕ → Option (Option Text)

-- What the server supports: the modes of nicks and their prefixes, and the groups of CHANMODES.
pub record Supports : Type 0 where
  pub modes : Text
  pub shown : Text
  pub lists : Text
  pub always : Text
  pub when_set : Text
  pub never : Text

abbrev pub chanmodes_of : Supports → Text
chanmodes_of v = v.lists ++ comma ∷ (v.always ++ comma ∷ (v.when_set ++ comma ∷ v.never))

abbrev pub NoCommas : Supports → Type 0
NoCommas v = NoComma v.lists × NoComma v.always × NoComma v.when_set

-- When a mode has a parameter.
pub data Kind : Type 0 where
  has_always : Kind
  has_when_set : Kind
  has_never : Kind

unfoldable pub kind : Supports → ℕ → Kind
kind v x =
    if in_group x v.lists
    then has_always
    else (if in_group x v.always
        then has_always
        else (if in_group x v.when_set then has_when_set else has_never))

-- What becomes of a mode, `none` for unset, and the parameters that are left.
unfoldable pub change_of : Bool → Kind → List Text → Option (Option Text) × List Text
change_of true has_never args = (some none, args)
change_of true has_when_set [] = (some none, [])
change_of true has_when_set (a ∷ args) = (some (some a), args)
change_of true has_always [] = (some none, [])
change_of true has_always (a ∷ args) = (some (some a), args)
change_of false has_never args = (none, args)
change_of false has_when_set args = (none, args)
change_of false has_always [] = (none, [])
change_of false has_always (a ∷ args) = (none, args)

-- The map after a change of one mode. Without memory for a slot a mode that is not set stays so.
unfoldable pub written : Bool → ℕ → Option (Option Text) → ModeMap → ModeMap
written grows x none f q = if x == q then none else f q
written grows x (some p) f q =
    if x == q
    then (if grows then some p else elim (f q) [ none ↦ none | some old ↦ some p ])
    else f q

-- RequiresParameter gives the number for the kind.
abbrev Fits : ℕ → Kind → Type 0
Fits n has_always = 2 ≤ n
Fits n has_when_set = n ≡ 1
Fits n has_never = n ≡ 0

parameter_loop-Fits :
    (v : Supports) (x : ℕ)
    → x ≢ comma
    → NoCommas v
    → Fits (parameter_loop 3 x (chanmodes_of v)) (kind v x)
unfolding kind
parameter_loop-Fits v x h clean =
    subst (λ n. Fits n (kind v x))
      (sym (parameter_loop-groups v.lists v.always v.when_set v.never x h clean.0 clean.1 clean.2))
      (elim (Bool-cases (in_group x v.lists)) [
        | inl a ↦ rw a (omega arith)
        | inr not_a ↦ elim (Bool-cases (in_group x v.always)) [
          | inl b ↦ rw (not_a, b) (omega arith)
          | inr not_b ↦ elim (Bool-cases (in_group x v.when_set)) [
            | inl c ↦ rw (not_a, not_b, c) refl
            | inr not_c ↦ rw (not_a, not_b, not_c) refl
          ]
        ]
      ])

-- The parameter that ParseModeChange takes and those that it leaves are the ones of the kind.
Agrees : Bool → ℕ → Kind → List Text → Type 0
Agrees flip n k args =
    ((if flip then some (only_if (takes flip n) (first_of args)) else none)
      ≡ (change_of flip k args).0)
    × (rest_of (takes flip n) args ≡ (change_of flip k args).1)

agrees : (flip : Bool) (n : ℕ) (k : Kind) (args : List Text) → Fits n k → Agrees flip n k args
unfolding Agrees change_of
agrees true n has_always [] h = (ground (arith, h), ground (arith, h))
agrees true n has_always (a ∷ args) h = (ground (arith, h), ground (arith, h))
agrees true n has_when_set [] h = (ground (arith, h), ground (arith, h))
agrees true n has_when_set (a ∷ args) h = (ground (arith, h), ground (arith, h))
agrees true n has_never [] h = (ground (arith, h), ground (arith, h))
agrees true n has_never (a ∷ args) h = (ground (arith, h), ground (arith, h))
agrees false n has_always [] h = (ground (arith, h), ground (arith, h))
agrees false n has_always (a ∷ args) h = (ground (arith, h), ground (arith, h))
agrees false n has_when_set [] h = (ground (arith, h), ground (arith, h))
agrees false n has_when_set (a ∷ args) h = (ground (arith, h), ground (arith, h))
agrees false n has_never [] h = (ground (arith, h), ground (arith, h))
agrees false n has_never (a ∷ args) h = (ground (arith, h), ground (arith, h))

pub change_of-parameters :
    (v : Supports) (flip : Bool) (x : ℕ) (args : List Text)
    → x ≢ comma
    → NoCommas v
    → ((if flip
          then some (only_if (takes flip (parameter_loop 3 x (chanmodes_of v))) (first_of args))
          else none)
        ≡ (change_of flip (kind v x) args).0)
      × (rest_of (takes flip (parameter_loop 3 x (chanmodes_of v))) args
          ≡ (change_of flip (kind v x) args).1)
unfolding Agrees
change_of-parameters v flip x args h clean =
    agrees flip (parameter_loop 3 x (chanmodes_of v)) (kind v x) args
      (parameter_loop-Fits v x h clean)

lookup-some :
    (q : ℕ) (modes : List ChanMode)
    → 1 ≤ tally q modes
    → (old : Option Text) × (lookup q modes ≡ some old)
unfolding lookup tally
lookup-some q [] h = absurd (omega arith)
lookup-some q (m ∷ modes) h = elim (Bool-cases (m.mode == q)) [
  | inl here ↦ (m.parameter, rw here refl)
  | inr there ↦
      let (old, e) = lookup-some q modes (ground (arith, h, there)) in (old, rw (there, e) refl)
]

-- Without memory a slot that is there is changed all the same, and none is made.
kept-lookup :
    (mode q : ℕ) (p : Option Text) (modes : List ChanMode)
    → lookup q (set_mode false mode p modes) ≡ (
        if mode == q
        then elim (lookup q modes) as (λ z. Option (Option Text)) [
          | none ↦ none
          | some old ↦ some p
        ]
        else lookup q modes)
unfolding set_mode
kept-lookup mode q p modes = elim (Option-cases (find_slot mode modes)) [
  | inl fresh ↦ elim (Bool-cases (mode == q)) [
    | inr miss ↦ rw (set_mode, fresh, miss) refl
    | inl hit ↦
        let absent : lookup q modes ≡ none =
          subst (λ z. lookup z modes ≡ none) (ground (arith, hit))
            (lookup-none mode modes (slot-none mode modes fresh)) in
        rw (set_mode, fresh, hit, absent) refl
  ]
  | inr (i, old) ↦
      let same_slots : set_mode false mode p modes ≡ set_mode true mode p modes =
        rw (set_mode, old) refl in
      rw same_slots (
        set_mode-lookup mode q p modes ∙ elim (Bool-cases (mode == q)) [
          | inr miss ↦ rw miss refl
          | inl hit ↦
              let (before, there) = lookup-some q modes (
                subst (λ z. 1 ≤ tally z modes) (ground (arith, hit))
                  (slot-tally mode i modes old)) in
              rw (hit, there) refl
        ])
]

-- The slots after a mode is set are those of the changed map.
pub set_mode-written :
    (grows : Bool) (mode q : ℕ) (p : Option Text) (modes : List ChanMode) (f : ModeMap)
    → lookup q modes ≡ f q
    → lookup q (set_mode grows mode p modes) ≡ written grows mode (some p) f q
unfolding written
set_mode-written true mode q p modes f e = set_mode-lookup mode q p modes ∙ rw e refl
set_mode-written false mode q p modes f e = kept-lookup mode q p modes ∙ rw e refl

pub set_mode-Once :
    (grows : Bool) (mode : ℕ) (p : Option Text) (modes : List ChanMode)
    → Once modes
    → Once (set_mode grows mode p modes)
unfolding set_mode
set_mode-Once true mode p modes once = grown-Once mode p modes once
set_mode-Once false mode p modes once = elim (Option-cases (find_slot mode modes)) [
  | inl fresh ↦ rw (set_mode, fresh) once
  | inr (i, old) ↦
      let same_slots : set_mode true mode p modes ≡ set_mode false mode p modes =
        rw (set_mode, old) refl in
      subst Once same_slots (grown-Once mode p modes once)
]
