-- ===== src/Isupport/Prefixes.antt =====
-- The modes of nicks and the prefixes that show them, as PREFIX pairs them.
use shroudbnc.Base.{
  ℕ, ◌≡◌, ◌≢◌, refl, ap, ◌∙◌, [], ◌∷◌, ◌++◌, some, true, false, ◌==◌, if◌then◌else◌, ok, arith, All,
  length,
}
use shroudbnc.Hashtable.Key.{Text}
use shroudbnc.Isupport.{
  open_paren, close_paren, nick_prefix_loop, is_nick_prefix, nick_mode_loop, is_nick_mode,
  actual_prefixes, prefix_loop, prefix_for_chan_mode,
}
use shroudbnc.Isupport.ChanModes.{in_group}

-- Neither parenthesis is a mode.
abbrev pub NoParen : Text → Type 0
NoParen = All (λ x. (x ≢ open_paren) × (x ≢ close_paren))

-- The value of PREFIX for the modes and their prefixes.
abbrev pub prefix_value : Text → Text → Text
prefix_value modes shown = open_paren ∷ modes ++ close_paren ∷ shown

nick_mode_loop-modes :
    (c : ℕ) (modes shown : Text)
    → NoParen modes
    → nick_mode_loop c (modes ++ close_paren ∷ shown) ≡ in_group c modes
unfolding nick_mode_loop in_group
nick_mode_loop-modes c [] shown clean = refl
nick_mode_loop-modes c (x ∷ modes) shown clean =
    ground (arith, clean.0.0, clean.0.1, nick_mode_loop-modes c modes shown clean.1)

pub nick_mode_loop-prefix :
    (c : ℕ) (modes shown : Text)
    → NoParen modes
    → nick_mode_loop c (prefix_value modes shown) ≡ in_group c modes
unfolding nick_mode_loop
nick_mode_loop-prefix c modes shown clean = ground (arith, nick_mode_loop-modes c modes shown clean)

nick_prefix_loop-shown : (c : ℕ) (shown : Text) → nick_prefix_loop true c shown ≡ in_group c shown
unfolding nick_prefix_loop in_group
nick_prefix_loop-shown c [] = refl
nick_prefix_loop-shown c (x ∷ shown) = ground (arith, nick_prefix_loop-shown c shown)

nick_prefix_loop-modes :
    (c : ℕ) (modes shown : Text)
    → NoParen modes
    → nick_prefix_loop false c (modes ++ close_paren ∷ shown) ≡ in_group c shown
unfolding nick_prefix_loop
nick_prefix_loop-modes c [] shown clean = nick_prefix_loop-shown c shown
nick_prefix_loop-modes c (x ∷ modes) shown clean =
    ground (arith, clean.0.1, nick_prefix_loop-modes c modes shown clean.1)

-- The prefixes of nicks are the characters behind the closing parenthesis.
pub is_nick_prefix-shown :
    (c : ℕ) (modes shown : Text)
    → NoParen modes
    → is_nick_prefix (some (prefix_value modes shown)) c ≡ in_group c shown
unfolding is_nick_prefix nick_prefix_loop
is_nick_prefix-shown c modes shown clean = nick_prefix_loop-modes c modes shown clean

actual_prefixes-modes :
    (modes shown : Text)
    → NoParen modes
    → actual_prefixes (modes ++ close_paren ∷ shown) ≡ some shown
unfolding actual_prefixes
actual_prefixes-modes [] shown clean = refl
actual_prefixes-modes (x ∷ modes) shown clean =
    ground (arith, clean.0.1, actual_prefixes-modes modes shown clean.1)

-- The prefix that stands where the mode stands first, and 0 for no mode.
unfoldable pub shown_for : ℕ → Text → Text → ℕ
shown_for mode [] shown = 0
shown_for mode (x ∷ modes) [] = 0
shown_for mode (x ∷ modes) (s ∷ shown) = if x == mode then s else shown_for mode modes shown

prefix_loop-shown :
    (mode : ℕ) (modes shown rest : Text)
    → length modes ≡ length shown
    → prefix_loop mode (modes ++ rest) shown ≡ shown_for mode modes shown
unfolding prefix_loop shown_for
prefix_loop-shown mode [] [] rest h = refl
prefix_loop-shown mode [] (s ∷ shown) rest h = absurd (omega arith)
prefix_loop-shown mode (x ∷ modes) [] rest h = refl
prefix_loop-shown mode (x ∷ modes) (s ∷ shown) rest h =
    ground (arith, prefix_loop-shown mode modes shown rest (omega arith))

shown_for-in_group :
    (mode : ℕ) (modes shown : Text)
    → length modes ≡ length shown
    → in_group mode modes ≡ true
    → in_group (shown_for mode modes shown) shown ≡ true
unfolding shown_for in_group
shown_for-in_group mode [] shown h e = cc
shown_for-in_group mode (x ∷ modes) [] h e = absurd (omega arith)
shown_for-in_group mode (x ∷ modes) (s ∷ shown) h e =
    ground (arith, e, shown_for-in_group mode modes shown (omega arith))

skip_open :
    (modes shown : Text)
    → actual_prefixes (prefix_value modes shown) ≡ actual_prefixes (modes ++ close_paren ∷ shown)
unfolding actual_prefixes
skip_open modes shown = refl

skip_open_prefix :
    (c : ℕ) (modes shown : Text)
    → nick_prefix_loop false c (prefix_value modes shown)
      ≡ nick_prefix_loop false c (modes ++ close_paren ∷ shown)
unfolding nick_prefix_loop
skip_open_prefix c modes shown = refl

-- With PREFIX=(modes)shown, as many modes as prefixes and no parenthesis among the modes: IsNickMode
-- holds for the modes alone, IsNickPrefix for the prefixes alone, PrefixForChanMode gives the
-- prefix at the place of the mode and 0 for any other character, and what it gives for a mode is a
-- prefix to IsNickPrefix.
pub prefix_for_chan_mode-paired :
    (modes shown : Text) (mode : ℕ)
    → length modes ≡ length shown
    → NoParen modes
    → (is_nick_mode (some (prefix_value modes shown)) mode ≡ ok (in_group mode modes))
      × (is_nick_prefix (some (prefix_value modes shown)) mode ≡ in_group mode shown)
      × (prefix_for_chan_mode (some (prefix_value modes shown)) mode
          ≡ ok (shown_for mode modes shown))
      × (in_group mode modes ≡ true
          → is_nick_prefix (some (prefix_value modes shown)) (shown_for mode modes shown) ≡ true)
unfolding is_nick_mode is_nick_prefix prefix_for_chan_mode
prefix_for_chan_mode-paired modes shown mode h clean = (
  ap ok (unfold nick_mode_loop in ground (arith, nick_mode_loop-modes mode modes shown clean)),
  skip_open_prefix mode modes shown ∙ nick_prefix_loop-modes mode modes shown clean,
  rw (prefix_for_chan_mode, skip_open modes shown ∙ actual_prefixes-modes modes shown clean)
      (ap ok (prefix_loop-shown mode modes shown (close_paren ∷ shown) h)),
  λ e.
      skip_open_prefix (shown_for mode modes shown) modes shown
      ∙ nick_prefix_loop-modes (shown_for mode modes shown) modes shown clean
      ∙ shown_for-in_group mode modes shown h e,
)
