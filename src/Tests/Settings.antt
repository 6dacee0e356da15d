-- ===== src/Tests/Settings.antt =====
-- A configuration with a key, a ban list, and their operations.
use mathlib.Core.List.{flatten}
use shroudbnc.Base.{
  ℕ, ◌-◌, ◌*◌, ◌^◌, ◌<◌, ◌≡◌, ◌⊎◌, refl, List, [], ◌∷◌, ◌++◌, none, some, true, false, not, ◌&&◌,
  ltb, if◌then◌else◌, length, All, arith, ok, err, fault, generic_quota_exceeded, pos,
}
use shroudbnc.Hashtable.Key.{KeyRule, Text, same, hash, hash_loop}
use shroudbnc.Hashtable.{Table, get, get_length, new, home, place}
use shroudbnc.Hashtable.View.{IsValid}
use shroudbnc.Hashtable.Row.{new-IsValid}
use shroudbnc.Hashtable.Writes.{Writes, place-Writes}
use shroudbnc.Config.{Config, Saved, reload, persist, parse_loop, read_string, write_string}
use shroudbnc.Config.Lines.{IsPrintable, ends_with}
use shroudbnc.Config.RoundTrip.{reload-persist}
use shroudbnc.Config.Saving.{CanSave}
use shroudbnc.Config.Writing.{Written, shown, write_string-Written}
use shroudbnc.Config.Faults.{IsFull, parse_loop-blank}
use shroudbnc.Banlist.{Ban, set_ban, reaches}
use shroudbnc.Banlist.Quota.{HasBan, set_ban-quota}
use shroudbnc.Keyring.{
  prefix, Owner, get_sorted_keys, count_keys, remove_redundant_keys, set_key, get_key, starts_with,
}
use shroudbnc.Keyring.Names.{how_many, Rearranges, names_of, names_key, names_joined}
use shroudbnc.Keyring.Keys.{remove_redundant_keys-Removed, set_key-get_key}
use shroudbnc.Hashtable.Entries.{find}
use shroudbnc.Tests.Ascii.{ascii, equal_text, lower}

abbrev settings_rule : KeyRule
settings_rule = ascii false

abbrev no_settings : Table Text
no_settings = new

abbrev empty_config : Config
empty_config = record { settings = no_settings; filename = some (97 ∷ []); write_lock = false }

abbrev no_file : Saved
no_file = record { file = none; cursor = record { owner = none; index = 0; bucket = 0; slot = 0 } }

no_settings-IsValid : IsValid ⦃rule = settings_rule⦄ no_settings
no_settings-IsValid = new-IsValid ⦃rule = settings_rule⦄

no_settings-wide : 64 < length no_settings.buckets * 2 ^ 2
unfolding new
no_settings-wide = omega arith

empty_config-CanSave : CanSave empty_config
unfolding CanSave
empty_config-CanSave unlocked = (97 ∷ [], refl)

abbrev unsorted : List Text → List Text
unsorted keys = keys

no_key : (not false && reaches (count_keys (get_sorted_keys unsorted no_settings)) (pos 1)) ≡ false
unfolding get_sorted_keys count_keys starts_with flatten new reaches
no_key = refl

-- "key.a" with the value "b".
abbrev key_a : Text
key_a = prefix ++ 97 ∷ []

abbrev one_setting : Table Text
one_setting = place ⦃rule = settings_rule⦄ key_a (98 ∷ []) no_settings

one_setting-Writes : Writes ⦃rule = settings_rule⦄ no_settings key_a (some (98 ∷ [])) one_setting
unfolding get new find home hash hash_loop lower
one_setting-Writes =
    place-Writes ⦃rule = settings_rule⦄ key_a (98 ∷ []) no_settings no_settings-IsValid refl

abbrev one_config : Config
one_config = record { settings = one_setting; filename = some (97 ∷ []); write_lock = false }

one_setting-wide : 64 < length one_setting.buckets * 2 ^ 2
unfolding new place home hash hash_loop lower
one_setting-wide = omega arith

one_setting-IsPrintable : All IsPrintable (flatten one_setting.buckets)
unfolding new place home hash hash_loop lower ends_with flatten
one_setting-IsPrintable = (
  record {
    name_line = ground arith;
    name_sign = ground arith;
    value_line = ground arith;
    value_end = refl;
    short = omega arith;
  },
  tt,
)

reload-persist_example :
    (t : Saved) × (d : Config) × (persist 0 true true one_config no_file ≡ some (t, ok true))
    × (reload ⦃rule = settings_rule⦄ 64 3 t.file one_config ≡ some (ok (d, true)))
    × IsValid ⦃rule = settings_rule⦄ d.settings
    × ((q : Text)
        → get ⦃rule = settings_rule⦄ (some q) d.settings
          ≡ get ⦃rule = settings_rule⦄ (some q) one_config.settings)
    × (d.write_lock ≡ false)
reload-persist_example =
    reload-persist ⦃rule = settings_rule⦄ 0 64 2 (97 ∷ []) one_config no_file refl
      one_setting-Writes.valid one_setting-wide one_setting-IsPrintable

write_string-Written_example :
    (d : Config) × (t : Saved) × (write_string ⦃rule = settings_rule⦄ 0 true true 64 3 key_a
        (some (98 ∷ []))
        empty_config
        no_file
      ≡ some (ok (d, t)))
    × Written ⦃rule = settings_rule⦄ key_a (some (98 ∷ [])) empty_config d no_file t
write_string-Written_example =
    write_string-Written ⦃rule = settings_rule⦄ 0 64 2 key_a (some (98 ∷ [])) empty_config no_file
      no_settings-IsValid no_settings-wide empty_config-CanSave

-- "a=b", a blank line.
abbrev lines_with_blank : List Text
lines_with_blank = (97 ∷ 61 ∷ 98 ∷ 10 ∷ []) ∷ (10 ∷ []) ∷ []

parse_loop-blank_example :
    (All IsFull lines_with_blank
      × ((u : Table Text) × (parse_loop ⦃rule = settings_rule⦄ 64 3 lines_with_blank no_settings
            ≡ some (ok u))
          × IsValid ⦃rule = settings_rule⦄ u))
    ⊎ (¬ (All IsFull lines_with_blank)
        × (parse_loop ⦃rule = settings_rule⦄ 64 3 lines_with_blank no_settings ≡ some fault))
parse_loop-blank_example =
    parse_loop-blank ⦃rule = settings_rule⦄ 64 2 lines_with_blank no_settings no_settings-IsValid
      no_settings-wide

abbrev a_ban : Ban
a_ban = record { mask = 42 ∷ []; nick = 97 ∷ []; timestamp = 5 }

abbrev no_bans : Table Ban
no_bans = new

no_bans-wide : 64 < length no_bans.buckets * 2 ^ 2
unfolding new
no_bans-wide = omega arith

set_ban-quota_example :
    ((not false && reaches (get_length ⦃rule = settings_rule⦄ no_bans) (pos 1) ≡ true)
      × (set_ban ⦃rule = settings_rule⦄ 64 3 true false
            (pos 1)
            a_ban.mask
            a_ban.nick
            a_ban.timestamp
            no_bans
          ≡ some (no_bans, err generic_quota_exceeded)))
    ⊎ ((not false && reaches (get_length ⦃rule = settings_rule⦄ no_bans) (pos 1) ≡ false)
        × ((out : Table Ban) × (set_ban ⦃rule = settings_rule⦄ 64 3 true false
                (pos 1)
                a_ban.mask
                a_ban.nick
                a_ban.timestamp
                no_bans
              ≡ some (out, ok tt))
            × HasBan ⦃rule = settings_rule⦄ a_ban no_bans out))
set_ban-quota_example =
    set_ban-quota ⦃rule = settings_rule⦄ 64 2 false (pos 1) a_ban no_bans
      (new-IsValid ⦃rule = settings_rule⦄) no_bans-wide

-- A user in the channel "a" with room for as many keys as `quota`.
abbrev user_in_a : ℕ → Owner
user_in_a quota = record {
  connected = true;
  admin = false;
  quota = pos quota;
  joined = λ channel. equal_text channel (97 ∷ []);
}

one_key :
    (not false
      && reaches (how_many (names_key ⦃rule = settings_rule⦄) (names_of one_config)) (pos 1))
    ≡ true
unfolding how_many flatten new place home hash hash_loop lower reaches equal_text
one_key = refl

unsorted-Rearranges : Rearranges unsorted
unsorted-Rearranges keys test = refl

one_config-CanSave : CanSave one_config
unfolding CanSave
one_config-CanSave unlocked = (97 ∷ [], refl)

remove_redundant_keys-Removed_example :
    (d : Config) × (t : Saved) × (remove_redundant_keys ⦃rule = settings_rule⦄ unsorted 0 true true
        64 3
        (user_in_a 1)
        one_config
        no_file
      ≡ some (
          ok (
            d,
            t,
            not (
                reaches
                  (how_many (names_key ⦃rule = settings_rule⦄) (names_of one_config)
                    - how_many
                        (names_joined ⦃rule = settings_rule⦄ (user_in_a 1))
                        (names_of one_config))
                  (pos 1)),
          )))
    × IsValid ⦃rule = settings_rule⦄ d.settings
    × ((q : Text)
        → read_string ⦃rule = settings_rule⦄ q d ≡ (
            if ltb 0 (
              how_many
                (λ k.
                  names_joined ⦃rule = settings_rule⦄ (user_in_a 1) k
                  && same ⦃rule = settings_rule⦄ k q)
                (names_of one_config))
            then none
            else read_string ⦃rule = settings_rule⦄ q one_config))
remove_redundant_keys-Removed_example =
    remove_redundant_keys-Removed ⦃rule = settings_rule⦄ unsorted 0 64 3 (user_in_a 1) one_config
      no_file unsorted-Rearranges one_setting-Writes.valid one_config-CanSave refl one_key

set_key-get_key_example :
    (d : Config) × (t : Saved) × (set_key ⦃rule = settings_rule⦄ unsorted 0 true true 64 3
        (user_in_a 1)
        (97 ∷ [])
        (some (99 ∷ []))
        empty_config
        no_file
      ≡ some (d, t, ok tt))
    × (get_key ⦃rule = settings_rule⦄ (97 ∷ []) d ≡ shown (some (99 ∷ [])))
    × ((other : Text)
        → same ⦃rule = settings_rule⦄ (prefix ++ 97 ∷ []) (prefix ++ other) ≡ false
        → get_key ⦃rule = settings_rule⦄ other d
          ≡ get_key ⦃rule = settings_rule⦄ other empty_config)
set_key-get_key_example =
    set_key-get_key ⦃rule = settings_rule⦄ unsorted 0 64 2 (user_in_a 1) (97 ∷ []) (some (99 ∷ []))
      empty_config no_file no_settings-IsValid no_settings-wide empty_config-CanSave refl no_key
