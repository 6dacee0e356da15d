-- ===== src/Isupport/Announced.antt =====
-- The line 005 of CIRCConnection of src/IRCConnection.cpp: the features that the server announces.
use native.Mathlib.Nat.{mul-le-mul_right}
use shroudbnc.Base.{
  ℕ, suc, ◌^◌, ◌<◌, ◌≡◌, refl, sym, ap, ◌∙◌, ◌≢◌, List, [], ◌∷◌, ◌++◌, map, All, Option-cases,
  Bool-cases, inl, inr, Option, none, some, ◌==◌, if◌then◌else◌, arith, append_assoc, append-nil,
}
use shroudbnc.Hashtable.Key.{KeyRule, Text, same}
use shroudbnc.Hashtable.{Table, get, add_key}
use shroudbnc.Hashtable.View.{IsValid}
use shroudbnc.Hashtable.Adding.{add_key-Writes}

-- The name and the value of an argument; the value is empty where there is no equals sign.
unfoldable pub feature : Text → Text × Text
feature [] = ([], [])
feature (x ∷ text) =
    let (name, value) = feature text in if x == 61 then ([], text) else (x ∷ name, value)

-- An argument of the line: a name, perhaps with an equals sign and a value.
pub record Argument : Type 0 where
  pub name : Text
  pub value : Option Text

abbrev pub IsName : Text → Type 0
IsName = All (λ x. x ≢ 61)

abbrev pub text_of : Argument → Text
text_of a = elim a.value [ none ↦ a.name | some value ↦ a.name ++ b'=' ∷ value ]

abbrev pub given : Option Text → Text
given none = []
given (some value) = value

feature-name : (name : Text) → IsName name → feature name ≡ (name, [])
unfolding feature
feature-name [] h = refl
feature-name (x ∷ name) h = ground (arith, h.0, feature-name name h.1)

feature-value : (name value : Text) → IsName name → feature (name ++ b'=' ∷ value) ≡ (name, value)
unfolding feature
feature-value [] value h = refl
feature-value (x ∷ name) value h = ground (arith, h.0, feature-value name value h.1)

feature-text_of : (a : Argument) → IsName a.name → feature (text_of a) ≡ (a.name, given a.value)
feature-text_of a h = elim (Option-cases a.value) [
  | inl bare ↦ rw bare (feature-name a.name h)
  | inr (value, here) ↦ rw here (feature-value a.name value h)
]

-- "NAMESX" and "PROTOCTL NAMESX".
abbrev pub namesx : Text
namesx = 78 ∷ 65 ∷ 77 ∷ 69 ∷ 83 ∷ 88 ∷ []

abbrev pub protoctl_namesx : Text
protoctl_namesx = 80 ∷ 82 ∷ 79 ∷ 84 ∷ 79 ∷ 67 ∷ 84 ∷ 76 ∷ 32 ∷ namesx

-- m_ISupport, and the lines that WriteLine was called with.
pub record Features : Type 0 where
  pub supports : Table Text
  pub sent : List Text

module _ ⦃rule : KeyRule⦄ where
  -- What an argument makes the connection send.
  unfoldable pub request : Text → List Text
  request arg = if rule.strcasecmp_zero arg namesx then protoctl_namesx ∷ [] else []

  -- The loop over the arguments, with memory for the strings. `none` says that the fuel of the table's Add ran out.
  unfoldable pub on_isupport : ℕ → ℕ → List Text → Features → Option Features
  on_isupport limit fuel [] f = some f
  on_isupport limit fuel (arg ∷ args) f =
      elim (add_key limit fuel (feature arg).0 (feature arg).1 f.supports) [
        | none ↦ none
        | some t ↦
            on_isupport limit fuel args (record { supports = t; sent = f.sent ++ request arg })
      ]

  unfoldable pub get_isupport : Text → Features → Option Text
  get_isupport q f = get (some q) f.supports

  -- What a feature is after the arguments: the value of the last one for it, or what it was.
  unfoldable pub announced : Text → List Argument → Option Text → Option Text
  announced q [] old = old
  announced q (a ∷ args) old =
      announced q args (if same a.name q then some (given a.value) else old)

  -- "PROTOCTL NAMESX" for each argument "NAMESX".
  unfoldable pub requests : List Argument → List Text
  requests [] = []
  requests (a ∷ args) =
      let rest = requests args in
      if rule.strcasecmp_zero (text_of a) (b'N' ∷ b'A' ∷ b'M' ∷ b'E' ∷ b'S' ∷ b'X' ∷ [])
      then (b'P' ∷ b'R' ∷ b'O' ∷ b'T' ∷ b'O' ∷ b'C' ∷ b'T' ∷ b'L' ∷ b' ' ∷ b'N' ∷ b'A' ∷ b'M' ∷ b'E'
          ∷ b'S' ∷ b'X' ∷ [])
        ∷ rest
      else rest

  request-requests :
      (a : Argument) (args : List Argument)
      → request (text_of a) ++ requests args ≡ requests (a ∷ args)
  unfolding request requests
  request-requests a args = elim (Bool-cases (rule.strcasecmp_zero (text_of a) namesx)) [
    | inl asks ↦ rw asks refl
    | inr quiet ↦ rw quiet refl
  ]

  -- The line 005, of any arguments NAME and NAME=VALUE, on a valid table, with memory and enough fuel for a table of any size, returns: each feature has the value of
  -- the last argument with its name, in any spelling that the table takes for the same, the empty one where the argument has no equals sign,
  -- or what it had before where no argument names it. The table is valid, and the request for NAMESX is sent once for each argument NAMESX.
  pub on_isupport-announced :
      (limit fuel : ℕ) (args : List Argument) (f : Features)
      → All (λ a. IsName a.name) args
      → IsValid f.supports
      → limit < 2 ^ fuel
      → (g : Features) × (on_isupport limit (suc fuel) (map text_of args) f ≡ some g)
        × IsValid g.supports
        × ((q : Text) → get_isupport q g ≡ announced q args (get_isupport q f))
        × (g.sent ≡ f.sent ++ requests args)
  unfolding on_isupport get_isupport announced requests
  on_isupport-announced limit fuel [] f p v h = (f, refl, v, λ q. refl, sym (append-nil f.sent))
  on_isupport-announced limit fuel (a ∷ args) f p v h =
      let (t, added, w, wide) =
        add_key-Writes limit fuel a.name (given a.value) f.supports v
          (omega (arith, h, mul-le-mul_right (2 ^ fuel) v.roomy)) in
      let next : Features = record { supports = t; sent = f.sent ++ request (text_of a) } in
      let (g, run, valid, reads, sent) = on_isupport-announced limit fuel args next p.1 w.valid h in
      (
        g,
        rw (on_isupport, feature-text_of a p.0, added) run,
        valid,
        λ q. reads q ∙ ap (announced q args) (w.reads q),
        sent
            ∙ append_assoc f.sent (request (text_of a)) (requests args)
            ∙ ap (λ z. f.sent ++ z) (request-requests a args),
      )
