-- ===== src/Config.antt =====
-- CConfig of src/Config.cpp: settings in a hash table and in a file of lines "setting=value". A file
-- is its bytes, none of them zero; `none` is a file that is not there.
pub mod Faults
pub mod Lines
pub mod Printing
pub mod RoundTrip
pub mod Saving
pub mod Writing
use mathlib.Core.List.{flatten}
use shroudbnc.Base.{
  ℕ, zero, suc, ◌-◌, List, [], ◌∷◌, ◌++◌, Option, none, some, Bool, true, false, ◌==◌, ◌||◌, ◌&&◌,
  not, if◌then◌else◌, Outcome, ok, err, fault, generic_unknown, ℤ, pos, negsuc, length,
}
use shroudbnc.Hashtable.Key.{KeyRule, Text}
use shroudbnc.Hashtable.Entries.{Bucket}
use shroudbnc.Hashtable.Iteration.{Cursor, iterate}
use shroudbnc.Hashtable.{Table, get, add_key, remove_key, clear}

-- fgets gets at most LineLength - 1 characters.
abbrev pub line_length : ℕ
line_length = 131072

pub record Config : Type 0 where
  pub settings : Table Text
  pub filename : Option Text
  pub write_lock : Bool

-- The strings that fgets reads from a file, one after the other: each ends in a line feed, or with
-- the room, which is `left` for the rest of the string that has begun with `begun`, or with the file.
unfoldable pub fgets_all : ℕ → ℕ → Text → Text → List Text
fgets_all room left [] [] = []
fgets_all room left (b ∷ begun) [] = (b ∷ begun) ∷ []
fgets_all room left begun (x ∷ file) = elim ((x == 10) || (left == 1)) [
  | true ↦ (begun ++ x ∷ []) ∷ fgets_all room room [] file
  | false ↦ fgets_all room (left - 1) (begun ++ x ∷ []) file
]

-- The string without its last character if that is the one given, `none` for the empty string,
-- whose last character would stand before the array.
unfoldable pub strip_last : ℕ → Text → Option Text
strip_last c [] = none
strip_last c (x ∷ []) = some (if x == c then [] else x ∷ [])
strip_last c (x ∷ y ∷ text) = elim (strip_last c (y ∷ text)) [
  | none ↦ none
  | some rest ↦ some (x ∷ rest)
]

-- The parts before and after the first character that is the one given.
unfoldable pub split_at : ℕ → Text → Option (Text × Text)
split_at c [] = none
split_at c (x ∷ text) =
    if x == c
    then some ([], text)
    else elim (split_at c text) [ none ↦ none | some (before, after) ↦ some (x ∷ before, after) ]

-- One string from fgets: the setting and its value, or none. A test of the character before the
-- array is a fault.
unfoldable pub parse_line : Text → Outcome (Option (Text × Text))
parse_line [] = ok none
parse_line (x ∷ line) = elim (strip_last 10 (x ∷ line)) [
  | none ↦ fault
  | some unfed ↦ elim (strip_last 13 unfed) [ none ↦ fault | some text ↦ ok (split_at 61 text) ]
]

-- The loop of Persist: what it prints, and the static variables of Iterate, with which it runs over
-- the table at the address `self`. `none` says that the fuel ran out.
unfoldable pub print_loop : ℕ → ℕ → ℕ → List (Bucket Text) → Cursor → Option (Cursor × Text)
print_loop self zero index buckets cursor = none
print_loop self (suc fuel) index buckets cursor =
    let (next, entry) = iterate self index buckets cursor in
    elim entry [
      | none ↦ some (next, [])
      | some e ↦ elim (print_loop self fuel (suc index) buckets next) [
        | none ↦ none
        | some (last, later) ↦ some (last, e.0 ++ 61 ∷ (e.1 ++ 10 ∷ later))
      ]
    ]

-- What Persist changes besides the settings: the file and the static variables of Iterate.
pub record Saved : Type 0 where
  pub file : Option Text
  pub cursor : Cursor

-- Persist; `opened` and `renamed` are the outcomes of fopen and rename, which puts the new file in
-- the place of the old one.
unfoldable pub persist : ℕ → Bool → Bool → Config → Saved → Option (Saved × Outcome Bool)
persist self opened renamed c s = elim c.filename [
  | none ↦ some (s, ok false)
  | some name ↦ elim opened [
    | false ↦ some (s, err generic_unknown)
    | true ↦
        elim (print_loop self (suc (length (flatten c.settings.buckets))) 0 c.settings.buckets
          s.cursor) [
            | none ↦ none
            | some (cursor, text) ↦
                if renamed
                then some (record { file = some text; cursor = cursor }, ok true)
                else some (record { file = s.file; cursor = cursor }, err generic_unknown)
          ]
  ]
]

-- The end of WriteString, where the settings have changed. `err` is the call of Fatal, which ends
-- the program.
unfoldable pub save : ℕ → Bool → Bool → Config → Saved → Option (Outcome (Config × Saved))
save self opened renamed c s =
    if c.write_lock then some (ok (c, s)) else elim (persist self opened renamed c s) [
      | none ↦ none
      | some (t, ok done) ↦ some (ok (c, t))
      | some (t, err e) ↦ some (err e)
      | some (t, fault) ↦ some fault
    ]

module _ ⦃rule : KeyRule⦄ where
  -- The loop of ParseConfig. `none` says that the fuel of the table's Add ran out.
  unfoldable pub parse_loop : ℕ → ℕ → List Text → Table Text → Option (Outcome (Table Text))
  parse_loop limit fuel [] t = some (ok t)
  parse_loop limit fuel (line ∷ lines) t = elim (parse_line line) [
    | err e ↦ some (err e)
    | fault ↦ some fault
    | ok none ↦ parse_loop limit fuel lines t
    | ok (some (setting, value)) ↦ elim (add_key limit fuel setting value t) [
      | none ↦ none
      | some u ↦ parse_loop limit fuel lines u
    ]
  ]

  -- ParseConfig with memory, from the file. The lock is taken and given back.
  unfoldable pub parse_config : ℕ → ℕ → Option Text → Config → Option (Outcome (Config × Bool))
  parse_config limit fuel file c = elim c.filename [
    | none ↦ some (ok (c, false))
    | some name ↦ elim file [
      | none ↦ some (ok (c, false))
      | some bytes ↦
          elim (parse_loop limit fuel (fgets_all (line_length - 1) (line_length - 1) [] bytes)
            c.settings) [
              | none ↦ none
              | some (ok t) ↦ some (ok (record c { settings = t; write_lock = false }, true))
              | some (err e) ↦ some (err e)
              | some fault ↦ some fault
            ]
    ]
  ]

  unfoldable pub reload : ℕ → ℕ → Option Text → Config → Option (Outcome (Config × Bool))
  reload limit fuel file c = parse_config limit fuel file (record c { settings = clear c.settings })

  -- `none` is the null pointer of a result that is an error.
  unfoldable pub read_string : Text → Config → Option Text
  read_string setting c = elim (get (some setting) c.settings) [
    | none ↦ none
    | some [] ↦ none
    | some (x ∷ value) ↦ some (x ∷ value)
  ]

  abbrev is_zero : ℤ → Bool
  is_zero (pos n) = n == 0
  is_zero (negsuc n) = false

  -- `atoi` is that of the C library.
  unfoldable pub read_integer : (Text → ℤ) → Text → Config → Outcome ℤ
  read_integer atoi setting c = elim (get (some setting) c.settings) [
    | none ↦ err generic_unknown
    | some value ↦ ok (atoi value)
  ]

  -- Whether WriteString has nothing to do: both are null pointers, or strings that strcmp takes for equal.
  unfoldable pub unchanged : Option Text → Option Text → Bool
  unchanged none none = true
  unchanged none (some old) = false
  unchanged (some value) none = false
  unchanged (some value) (some old) = rule.strcmp_zero value old

  -- WriteString with memory for the setting and the value.
  unfoldable pub write_string :
      ℕ
      → Bool
      → Bool
      → ℕ
      → ℕ
      → Text
      → Option Text
      → Config
      → Saved
      → Option (Outcome (Config × Saved))
  write_string self opened renamed limit fuel setting value c s =
      if unchanged value (read_string setting c) then some (ok (c, s)) else elim value [
        | none ↦
            save self opened renamed (record c { settings = remove_key false setting c.settings }) s
        | some text ↦ elim (add_key limit fuel setting text c.settings) [
          | none ↦ none
          | some t ↦ save self opened renamed (record c { settings = t }) s
        ]
      ]

  -- WriteInteger with memory for the text of the number; `asprintf` gives the text.
  unfoldable pub write_integer :
      (ℤ → Text)
      → ℕ
      → Bool
      → Bool
      → ℕ
      → ℕ
      → Text
      → ℤ
      → Config
      → Saved
      → Option (Outcome (Config × Saved))
  write_integer asprintf self opened renamed limit fuel setting value c s =
      if is_zero value && unchanged none (read_string setting c)
      then some (ok (c, s))
      else write_string self opened renamed limit fuel setting (some (asprintf value)) c s
