-- ===== src/Tests/Chat.antt =====
-- Modes, nicks and channels.
use mathlib.Core.List.{Perm}
use shroudbnc.Base.{
  ℕ, List, ◌*◌, ◌^◌, ◌≤◌, ◌<◌, ◌≡◌, refl, [], ◌∷◌, ◌++◌, none, some, true, false, ◌==◌, ◌&&◌, not,
  if◌then◌else◌, length, ok, arith,
}
use shroudbnc.Hashtable.Key.{KeyRule, Text, same, same_refl}
use shroudbnc.Hashtable.{Table, get, add_key}
use shroudbnc.Hashtable as Hashtable
use shroudbnc.Hashtable.View.{IsValid}
use shroudbnc.Hashtable.Writes.{Writes}
use shroudbnc.Hashtable.Row.{new-IsValid}
use shroudbnc.Hashtable.Adding.{add_key-Writes}
use shroudbnc.Isupport.{
  comma, is_nick_mode, is_nick_prefix, prefix_for_chan_mode, requires_parameter,
}
use shroudbnc.Isupport.Announced.{
  Features, Argument, on_isupport, get_isupport, announced, requests, namesx, on_isupport-announced,
}
use shroudbnc.Isupport.ChanModes.{in_group, requires_parameter-groups}
use shroudbnc.Isupport.Prefixes.{prefix_value, shown_for, prefix_for_chan_mode-paired}
use shroudbnc.Nick.{
  Nick, has_prefix, sort_prefixes, add_prefix, remove_prefix, set_tag, get_tag, set_prefixes,
}
use shroudbnc.Nick as Nick
use shroudbnc.Nick.Rounds.{order_of}
use shroudbnc.Nick.Sorting.{IsSorted, sort_prefixes-IsSorted}
use shroudbnc.Nick.Prefixes.{has_prefix-remove_prefix}
use shroudbnc.Nick.Tags.{HasTags, like, get_tag-set_tag}
use shroudbnc.Channel.{Channel, BacklogLine, rename_user, add_user}
use shroudbnc.Channel as Rooms
use shroudbnc.Channel.Backlog.{Keeps, add_lines, add_lines-Keeps}
use shroudbnc.Channel.Nicks.{rename_user-moves}
use shroudbnc.Channel.Modes.{World, parse_mode_change}
use shroudbnc.Channel.Slots.{lookup, tally}
use shroudbnc.Channel.Changes.{Supports, chanmodes_of}
use shroudbnc.Channel.Parsing.{Holds, Serves, map_run, parse_mode_change-Holds}
use shroudbnc.Tests.Ascii.{ascii}

abbrev any_case : KeyRule
any_case = ascii false

-- CHANMODES=beI,k,l,imn
requires_parameter-groups_example :
    requires_parameter
      (some (
        (98 ∷ 101 ∷ 73 ∷ []) ++ comma ∷ ((107 ∷ []) ++ comma ∷ ((108 ∷ []) ++ comma ∷ (105 ∷ [])))))
      108
    ≡ ok (
        if in_group 108 (98 ∷ 101 ∷ 73 ∷ [])
        then 3
        else (if in_group 108 (107 ∷ []) then 2 else (if in_group 108 (108 ∷ []) then 1 else 0)))
requires_parameter-groups_example =
    requires_parameter-groups (98 ∷ 101 ∷ 73 ∷ []) (107 ∷ []) (108 ∷ []) (105 ∷ []) 108
      (omega arith) (omega arith, (omega arith, (omega arith, tt))) (omega arith, tt)
      (omega arith, tt)

-- PREFIX=(ov)@+
abbrev modes : Text
modes = 111 ∷ 118 ∷ []

abbrev shown : Text
shown = 64 ∷ 43 ∷ []

prefix_for_chan_mode-paired_example :
    (is_nick_mode (some (prefix_value modes shown)) 118 ≡ ok (in_group 118 modes))
    × (is_nick_prefix (some (prefix_value modes shown)) 118 ≡ in_group 118 shown)
    × (prefix_for_chan_mode (some (prefix_value modes shown)) 118 ≡ ok (shown_for 118 modes shown))
    × (in_group 118 modes ≡ true
        → is_nick_prefix (some (prefix_value modes shown)) (shown_for 118 modes shown) ≡ true)
prefix_for_chan_mode-paired_example =
    prefix_for_chan_mode-paired modes shown 118 refl
      ((omega arith, omega arith), ((omega arith, omega arith), tt))

sort_prefixes-IsSorted_example :
    Perm
      (sort_prefixes (some (some (prefix_value modes shown))) (43 ∷ 37 ∷ 64 ∷ []))
      (43 ∷ 37 ∷ 64 ∷ [])
    × IsSorted
        (order_of (some (prefix_value modes shown)))
        (sort_prefixes (some (some (prefix_value modes shown))) (43 ∷ 37 ∷ 64 ∷ []))
unfolding shroudbnc.Isupport.actual_prefixes
sort_prefixes-IsSorted_example =
    sort_prefixes-IsSorted (some (prefix_value modes shown)) (43 ∷ 37 ∷ 64 ∷ [])
      (omega arith, (omega arith, tt))

abbrev alice : Nick
alice = record (Nick.new true 7 (97 ∷ [])) { prefixes = some (43 ∷ []) }

has_prefix-remove_prefix_example :
    (has_prefix 43 (remove_prefix true 43 alice).0
      ≡ (has_prefix 43 alice && not ((43 == 43) && (remove_prefix true 43 alice).1)))
    × ((remove_prefix true 43 alice).1 ≡ false
        → (true ≡ false) × ((remove_prefix true 43 alice).0 ≡ alice))
has_prefix-remove_prefix_example = has_prefix-remove_prefix true 43 43 alice (omega arith)

alice-HasTags : HasTags ⦃rule = any_case⦄ alice
unfolding Nick.new shroudbnc.Hashtable.Entries.count
alice-HasTags = record { growing = refl; once = λ q. omega arith }

get_tag-set_tag_example :
    HasTags ⦃rule = any_case⦄
      (set_tag ⦃rule = any_case⦄ true true true (some (120 ∷ [])) (some (49 ∷ [])) alice).0
    × ((q : Text)
        → get_tag ⦃rule = any_case⦄ q
            (set_tag ⦃rule = any_case⦄ true true true (some (120 ∷ [])) (some (49 ∷ [])) alice).0
          ≡ (if like ⦃rule = any_case⦄ (120 ∷ []) q
              then (if true && true && true then some (49 ∷ []) else none)
              else get_tag ⦃rule = any_case⦄ q alice))
    × ((set_tag ⦃rule = any_case⦄ true true true (some (120 ∷ [])) (some (49 ∷ [])) alice).1
        ≡ (true && true && true))
get_tag-set_tag_example =
    get_tag-set_tag ⦃rule = any_case⦄ true true true (120 ∷ []) (some (49 ∷ [])) alice alice-HasTags

-- The channel "#a".
abbrev lobby : Channel
lobby = Rooms.new ⦃rule = any_case⦄ true 7 (35 ∷ 97 ∷ [])

abbrev said : ℕ → BacklogLine
said t = record { time = t; source = 97 ∷ []; message = 104 ∷ [] }

lobby-Keeps : Keeps [] lobby
unfolding Rooms.new
lobby-Keeps = record { count = refl; latest = refl }

add_lines-Keeps_example :
    Keeps ([] ++ said 1 ∷ said 2 ∷ []) (add_lines (said 1 ∷ said 2 ∷ []) lobby)
add_lines-Keeps_example = add_lines-Keeps (said 1 ∷ said 2 ∷ []) [] lobby lobby-Keeps

-- CHANMODES=b,k,l,i
abbrev supported : Supports
supported = record {
  modes = modes;
  shown = shown;
  lists = 98 ∷ [];
  always = 107 ∷ [];
  when_set = 108 ∷ [];
  never = 105 ∷ [];
}

abbrev world : World
world = record {
  prefix = prefix_value modes shown;
  chanmodes = chanmodes_of supported;
  current_nick = 97 ∷ [];
  has_client = false;
  ban_fails = λ mask. false;
  memory = true;
  grows = true;
}

world-Serves : Serves ⦃rule = any_case⦄ supported world
world-Serves = record {
  prefix = refl;
  chanmodes = refl;
  parens = ground arith;
  commas = ground arith;
}

lobby-Holds : Holds lobby (λ q. none)
unfolding Rooms.new lookup tally
lobby-Holds = record { once = λ q h. omega arith; looks = λ q h. refl }

-- MODE #a +kl-i key 5
abbrev change : Text
change = 43 ∷ 107 ∷ 108 ∷ 45 ∷ 105 ∷ []

parse_mode_change-Holds_example :
    Holds
      (parse_mode_change ⦃rule = any_case⦄ world change ((120 ∷ []) ∷ (53 ∷ []) ∷ []) lobby).0
      (map_run supported true true change ((120 ∷ []) ∷ (53 ∷ []) ∷ []) (λ q. none))
parse_mode_change-Holds_example =
    parse_mode_change-Holds ⦃rule = any_case⦄ supported world change ((120 ∷ []) ∷ (53 ∷ []) ∷ [])
      lobby (λ q. none) world-Serves (ground arith) lobby-Holds

abbrev nobody : Table Nick
nobody = Hashtable.new

nobody-roomy : 64 < length nobody.buckets * 2 ^ 2
unfolding Hashtable.new
nobody-roomy = omega arith

abbrev room : Channel
room = record lobby { nicks = nobody; keep_nicklist = true }

joined :
    (u : Table Nick) × (add_key ⦃rule = any_case⦄ 64 3 (97 ∷ []) alice nobody ≡ some u)
    × Writes ⦃rule = any_case⦄ nobody (97 ∷ []) (some alice) u
    × (length nobody.buckets ≤ length u.buckets)
joined =
    add_key-Writes ⦃rule = any_case⦄ 64 2 (97 ∷ []) alice nobody (new-IsValid ⦃rule = any_case⦄)
      nobody-roomy

joined-reads :
    (t u : Table Nick)
    → Writes ⦃rule = any_case⦄ t (97 ∷ []) (some alice) u
    → get ⦃rule = any_case⦄ (some (97 ∷ [])) u ≡ some alice
joined-reads t u w = ground (arith, w.reads (97 ∷ []), same_refl ⦃rule = any_case⦄ (97 ∷ []))

joined-roomy : 64 < length joined.0.buckets * 2 ^ 2
joined-roomy = omega (arith, joined.3, nobody-roomy)

abbrev crowd : Channel
crowd = record lobby { nicks = joined.0 }

rename_user-moves_example :
    (d : Channel) × (rename_user ⦃rule = any_case⦄ 64 3 true (97 ∷ []) (98 ∷ []) crowd ≡ some d)
    × IsValid ⦃rule = any_case⦄ d.nicks
    × ((q : Text)
        → get ⦃rule = any_case⦄ (some q) d.nicks ≡ (
            if same ⦃rule = any_case⦄ (98 ∷ []) q
            then some (record alice { nick = some (98 ∷ []) })
            else (if same ⦃rule = any_case⦄ (97 ∷ []) q
                then none
                else get ⦃rule = any_case⦄ (some q) crowd.nicks)))
rename_user-moves_example =
    rename_user-moves ⦃rule = any_case⦄ 64 2 (97 ∷ []) (98 ∷ []) alice crowd joined.2.valid
      joined-roomy (joined-reads nobody joined.0 joined.2)

-- "A=b" and "NAMESX", where nothing was announced before.
abbrev announcement : List Argument
announcement =
    (record { name = 65 ∷ []; value = some (98 ∷ []) })
    ∷ (record { name = namesx; value = none })
    ∷ []

abbrev no_features : Features
no_features = record { supports = Hashtable.new; sent = [] }

on_isupport-announced_example :
    (g : Features) × (on_isupport ⦃rule = any_case⦄ 64 8
        ((65 ∷ 61 ∷ 98 ∷ []) ∷ namesx ∷ [])
        no_features
      ≡ some g)
    × IsValid ⦃rule = any_case⦄ g.supports
    × ((q : Text)
        → get_isupport ⦃rule = any_case⦄ q g
          ≡ announced ⦃rule = any_case⦄ q announcement
              (get_isupport ⦃rule = any_case⦄ q no_features))
    × (g.sent ≡ requests ⦃rule = any_case⦄ announcement)
on_isupport-announced_example =
    on_isupport-announced ⦃rule = any_case⦄ 64 7 announcement no_features (ground arith)
      (new-IsValid ⦃rule = any_case⦄) (omega arith)
