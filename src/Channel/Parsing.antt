-- ===== src/Channel/Parsing.antt =====
-- ParseModeChange as a change of the map from modes to parameters.
use shroudbnc.Base.{
  ℕ, ◌≡◌, ◌≢◌, refl, sym, ap, subst, ◌∙◌, List, [], ◌∷◌, ◌++◌, Option, none, some, Bool, true,
  false, ◌==◌, if◌then◌else◌, All, arith, Bool-cases, inl, inr, ◌⊎◌,
}
use shroudbnc.Hashtable.Key.{KeyRule, Text}
use shroudbnc.Isupport.{comma, nick_mode_loop, parameter_loop}
use shroudbnc.Isupport.ChanModes.{in_group}
use shroudbnc.Isupport.Prefixes.{NoParen, prefix_value, nick_mode_loop-prefix}
use shroudbnc.Channel.{Channel}
use shroudbnc.Channel.Modes.{
  Call, World, nick_mode, ban_mode, takes, only_if, channel_mode, first_of, parse_step, parse_loop,
  parse_mode_change,
}
use shroudbnc.Channel.Slots.{lookup, Once, unset_mode-lookup, unset_mode-Once}
use shroudbnc.Channel.Changes.{
  ModeMap, Supports, chanmodes_of, NoCommas, kind, change_of, written, change_of-parameters,
  set_mode-written, set_mode-Once,
}

-- One character of a mode change, which sets or unsets one mode or none.
unfoldable pub map_step :
    Supports → Bool → Bool → ℕ → List Text → ModeMap → Option (Bool × List Text × ModeMap)
map_step v grows flip x args f =
    if x == b'+'
    then some (true, args, f)
    else (if x == b'-'
        then some (false, args, f)
        else (if in_group x v.modes
            then elim args [ [] ↦ none | nick ∷ rest ↦ some (flip, rest, f) ]
            else (let (value, rest) = change_of flip (kind v x) args in
                some (flip, rest, written grows x value f))))

unfoldable pub map_run : Supports → Bool → Bool → Text → List Text → ModeMap → ModeMap
map_run v grows flip [] args f = f
map_run v grows flip (x ∷ text) args f = elim (map_step v grows flip x args f) [
  | none ↦ f
  | some (next, rest, g) ↦ map_run v grows next text rest g
]

-- The slots of a channel hold the map, each mode in one slot at most.
pub record Holds (c : Channel) (f : ModeMap) : Type 0 where
  pub once : Once c.modes
  pub looks : (q : ℕ) → q ≢ 0 → lookup q c.modes ≡ f q

module _ ⦃rule : KeyRule⦄ where
  ban_mode-modes :
      (w : World) (flip : Bool) (x : ℕ) (arg : Option Text) (c : Channel)
      → (ban_mode w flip x arg c).0.modes ≡ c.modes
  unfolding ban_mode
  ban_mode-modes w flip x none c = refl
  ban_mode-modes w flip x (some mask) c = ground arith

  nick_mode-modes :
      (w : World) (flip : Bool) (x : ℕ) (nick : Text) (c : Channel)
      → (nick_mode w flip x nick c).0.modes ≡ c.modes
  unfolding nick_mode
  nick_mode-modes w flip x nick c = ground arith

  channel_mode-Holds :
      (w : World) (flip : Bool) (x : ℕ) (arg : Option Text) (c : Channel) (f : ModeMap)
      → x ≢ 0
      → Holds c f
      → Holds (channel_mode w flip x arg c).0 (
          written w.grows x
            (if flip
              then some (only_if (takes flip (parameter_loop 3 x w.chanmodes)) arg)
              else none)
            f)
  unfolding channel_mode written
  channel_mode-Holds w true x arg c f hx h =
      let p = only_if (takes true (parameter_loop 3 x w.chanmodes)) arg in
      record {
        once = rw (ban_mode-modes w true x arg c) (set_mode-Once w.grows x p c.modes h.once);
        looks = λ q hq.
            rw (ban_mode-modes w true x arg c)
              (set_mode-written w.grows x q p c.modes f (h.looks q hq));
      }
  channel_mode-Holds w false x arg c f hx h = record {
    once = rw (ban_mode-modes w false x arg c) (unset_mode-Once x c.modes h.once);
    looks = λ q hq.
        rw (ban_mode-modes w false x arg c, ← h.looks q hq)
          (unset_mode-lookup x q c.modes hq hx h.once);
  }

  -- The world has a server that supports this.
  pub record Serves (v : Supports) (w : World) : Type 0 where
    pub prefix : w.prefix ≡ prefix_value v.modes v.shown
    pub chanmodes : w.chanmodes ≡ chanmodes_of v
    pub parens : NoParen v.modes
    pub commas : NoCommas v

  -- A round of the loop and a step of the map stop together, or go on alike.
  Alike : Supports → World → Bool → ℕ → List Text → Channel → List Call → ModeMap → Type 0
  Alike v w flip x args c calls f =
      ((parse_step w flip x args (c, calls) ≡ none) × (map_step v w.grows flip x args f ≡ none))
      ⊎ ((next : Bool) × (rest : List Text) × (d : Channel) × (more : List Call) × (g : ModeMap)
          × (parse_step w flip x args (c, calls) ≡ some (next, rest, d, more))
          × (map_step v w.grows flip x args f ≡ some (next, rest, g))
          × Holds d g)

  nick_mode_loop-Serves :
      (v : Supports) (w : World) (x : ℕ)
      → Serves v w
      → nick_mode_loop x w.prefix ≡ in_group x v.modes
  nick_mode_loop-Serves v w x serves =
      ap (nick_mode_loop x) serves.prefix ∙ nick_mode_loop-prefix x v.modes v.shown serves.parens

  nick_step :
      (v : Supports) (w : World) (flip : Bool) (x : ℕ) (args : List Text) (c : Channel)
      (calls : List Call) (f : ModeMap)
      → Holds c f
      → (x == 43) ≡ false
      → (x == 45) ≡ false
      → nick_mode_loop x w.prefix ≡ true
      → in_group x v.modes ≡ true
      → Alike v w flip x args c calls f
  unfolding parse_step map_step Alike
  nick_step v w flip x [] c calls f h plus minus nick known =
      inl (rw (parse_step, plus, minus, nick), rw (map_step, plus, minus, known))
  nick_step v w flip x (a ∷ args) c calls f h plus minus nick known = inr (
    flip,
    args,
    (nick_mode w flip x a c).0,
    calls ++ (nick_mode w flip x a c).1,
    f,
    rw (parse_step, plus, minus, nick),
    rw (map_step, plus, minus, known),
    record {
      once = rw (nick_mode-modes w flip x a c) h.once;
      looks = rw (nick_mode-modes w flip x a c) h.looks;
    },
  )

  channel_step :
      (v : Supports) (w : World) (flip : Bool) (x : ℕ) (args : List Text) (c : Channel)
      (calls : List Call) (f : ModeMap)
      → Serves v w
      → x ≢ 0
      → x ≢ comma
      → Holds c f
      → (x == 43) ≡ false
      → (x == 45) ≡ false
      → nick_mode_loop x w.prefix ≡ false
      → in_group x v.modes ≡ false
      → Alike v w flip x args c calls f
  unfolding parse_step map_step Alike
  channel_step v w flip x args c calls f serves hx hc h plus minus other unknown =
      let (value, rest) = change_of-parameters v flip x args hc serves.commas in
      let change = change_of flip (kind v x) args in
      inr (
        flip,
        change.1,
        (channel_mode w flip x (first_of args) c).0,
        calls ++ (channel_mode w flip x (first_of args) c).1,
        written w.grows x change.0 f,
        rw (parse_step, plus, minus, other, serves.chanmodes, rest) refl,
        rw (map_step, plus, minus, unknown) refl,
        subst (λ z. Holds (channel_mode w flip x (first_of args) c).0 (written w.grows x z f))
            (subst
              (λ m.
                (if flip
                  then some (only_if (takes flip (parameter_loop 3 x m)) (first_of args))
                  else none)
                ≡ change.0)
              (sym serves.chanmodes) value)
            (channel_mode-Holds w flip x (first_of args) c f hx h),
      )

  step-Alike :
      (v : Supports) (w : World) (flip : Bool) (x : ℕ) (args : List Text) (c : Channel)
      (calls : List Call) (f : ModeMap)
      → Serves v w
      → x ≢ 0
      → x ≢ comma
      → Holds c f
      → Alike v w flip x args c calls f
  unfolding parse_step map_step Alike
  step-Alike v w flip x args c calls f serves hx hc h = elim (Bool-cases (x == 43)) [
    | inl plus ↦ inr (true, args, c, calls, f, rw (parse_step, plus), rw (map_step, plus), h)
    | inr plus ↦ elim (Bool-cases (x == 45)) [
      | inl minus ↦
          inr
            (false, args, c, calls, f, rw (parse_step, plus, minus), rw (map_step, plus, minus), h)
      | inr minus ↦ elim (Bool-cases (in_group x v.modes)) [
        | inl known ↦
            nick_step v w flip x args c calls f h plus minus
              (nick_mode_loop-Serves v w x serves ∙ known) known
        | inr unknown ↦
            channel_step v w flip x args c calls f serves hx hc h plus minus
              (nick_mode_loop-Serves v w x serves ∙ unknown) unknown
      ]
    ]
  ]

  parse_loop-Holds :
      (v : Supports) (w : World) (flip : Bool) (text : Text) (args : List Text) (c : Channel)
      (calls : List Call) (f : ModeMap)
      → Serves v w
      → All (λ x. (x ≢ 0) × (x ≢ comma)) text
      → Holds c f
      → Holds (parse_loop w flip text args (c, calls)).0 (map_run v w.grows flip text args f)
  unfolding parse_loop map_run Alike
  parse_loop-Holds v w flip [] args c calls f serves nz h = h
  parse_loop-Holds v w flip (x ∷ text) args c calls f serves nz h =
      elim (step-Alike v w flip x args c calls f serves nz.0.0 nz.0.1 h) [
        | inl (stops, stops') ↦ rw (parse_loop, map_run, stops, stops') h
        | inr (next, rest, d, more, g, goes, goes', holds) ↦
            rw (parse_loop, map_run, goes, goes')
              (parse_loop-Holds v w next text rest d more g serves nz.1 holds)
      ]

  -- ParseModeChange, for any mode string without zeros and commas and any parameters, with the PREFIX and CHANMODES of a server, on a channel whose
  -- slots hold a map from modes to parameters: the slots then hold the map that the change makes
  -- of it, and no mode has two slots. A mode takes a parameter by the group it has in CHANMODES, and where there is no memory for new slots, a mode that is not set stays so while its parameter is passed over.
  pub parse_mode_change-Holds :
      (v : Supports) (w : World) (text : Text) (args : List Text) (c : Channel) (f : ModeMap)
      → Serves v w
      → All (λ x. (x ≢ 0) × (x ≢ comma)) text
      → Holds c f
      → Holds (parse_mode_change w text args c).0 (map_run v w.grows true text args f)
  unfolding parse_mode_change
  parse_mode_change-Holds v w text args c f serves nz h =
      parse_loop-Holds v w true text args (record c { temp_modes = none }) [] f serves nz
        (record { once = h.once; looks = h.looks })
