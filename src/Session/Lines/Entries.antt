-- ===== src/Session/Lines/Entries.antt =====
-- The words of the line 353: what the loops over IsNickPrefix in src/IRCConnection.cpp make of them.

use shroudbnc.Base.{
  ℕ, ◌≡◌, refl, ap, [], ◌∷◌, ◌++◌, Option, none, some, true, false, if◌then◌else◌, All, length,
  length-append, take, ◌-◌, ◌==◌, arith,
}
use shroudbnc.Hashtable.Key.{Text}
use shroudbnc.Isupport.ChanModes.{in_group}
use shroudbnc.Isupport.Prefixes.{NoParen, prefix_value, is_nick_prefix-shown}
use shroudbnc.Vector.{empty}
use shroudbnc.Nick.{Nick, set_prefixes}
use shroudbnc.Nick as Nicks
use shroudbnc.Session.Lines.Names.{past_prefixes, modes_of}

-- The nick does not begin with a prefix.
abbrev pub IsUnmarked : Text → Text → Type 0
IsUnmarked shown [] = Unit
IsUnmarked shown (x ∷ nick) = in_group x shown ≡ false

-- A word of the list: the prefixes of a nick, and the nick.
pub record Entry : Type 0 where
  pub marks : Text
  pub nick : Text

abbrev pub word : Entry → Text
word e = e.marks ++ e.nick

-- The marks are the characters at the start that `shown` has.
abbrev pub IsEntry : Text → Entry → Type 0
IsEntry shown e = All (λ x. in_group x shown ≡ true) e.marks × IsUnmarked shown e.nick

abbrev pub marked : Text → Option Text
marked [] = none
marked (x ∷ marks) = some (x ∷ marks)

-- The object for a word at the time `now`.
unfoldable pub object : ℕ → Entry → Nick
object now e = record {
  nick = some e.nick;
  prefixes = marked e.marks;
  site = none;
  realname = none;
  server = none;
  creation = now;
  idle_since = now;
  tags = empty;
}

pub past_prefixes-word :
    (modes shown marks nick : Text)
    → NoParen modes
    → All (λ x. in_group x shown ≡ true) marks
    → IsUnmarked shown nick
    → past_prefixes (some (prefix_value modes shown)) (marks ++ nick) ≡ nick
unfolding past_prefixes
past_prefixes-word modes shown [] [] clean p h = refl
past_prefixes-word modes shown [] (x ∷ nick) clean p h =
    rw (past_prefixes, is_nick_prefix-shown x modes shown clean, h) refl
past_prefixes-word modes shown (x ∷ marks) nick clean p h =
    rw (past_prefixes, is_nick_prefix-shown x modes shown clean, p.0)
      (past_prefixes-word modes shown marks nick clean p.1 h)

take-marks : (marks nick : Text) → take (length marks) (marks ++ nick) ≡ marks
take-marks [] nick = refl
take-marks (x ∷ marks) nick = ap (λ z. x ∷ z) (take-marks marks nick)

pub modes_of-word :
    (modes shown marks nick : Text)
    → NoParen modes
    → All (λ x. in_group x shown ≡ true) marks
    → IsUnmarked shown nick
    → modes_of (some (prefix_value modes shown)) (marks ++ nick) ≡ marked marks
unfolding modes_of
modes_of-word modes shown marks nick clean p h =
    let base = past_prefixes-word modes shown marks nick clean p h in
    let size : length (marks ++ nick) - length nick ≡ length marks =
      omega (arith, length-append marks nick) in
    rw (modes_of, base, size, take-marks marks nick) (found marks)
  where
    found : (m : Text) → (if length m == 0 then none else some m) ≡ marked m
    found [] = refl
    found (x ∷ m) = ground arith

pub set_prefixes-object :
    (now : ℕ) (e : Entry)
    → (set_prefixes true (marked e.marks) (Nicks.new true now e.nick)).0 ≡ object now e
unfolding set_prefixes Nicks.new object
set_prefixes-object now e = by_marks e.marks
  where
    by_marks :
        (m : Text)
        → (set_prefixes true (marked m) (Nicks.new true now e.nick)).0
          ≡ object now (record { marks = m; nick = e.nick })
    by_marks [] = refl
    by_marks (x ∷ m) = refl
