-- ===== src/Session/Lines/Listed.antt =====
-- The nicks of a channel after the line 353.
use native.Mathlib.Nat.{mul-le-mul_right}
use shroudbnc.Base.{
  ℕ, suc, ◌+◌, ◌^◌, ◌≤◌, ◌<◌, ◌≡◌, refl, ap, ◌∙◌, List, [], ◌∷◌, ◌++◌, map, Option, none, some,
  true, false, not, ◌||◌, ltb, le→ltb, if◌then◌else◌, All, length, arith, ok,
}
use shroudbnc.Hashtable.Key.{KeyRule, Text, same}
use shroudbnc.Hashtable.{get, remove_key}
use shroudbnc.Hashtable as Hashtable
use shroudbnc.Hashtable.View.{IsValid}
use shroudbnc.Hashtable.Writes.{remove_key-Writes}
use shroudbnc.Hashtable.Adding.{add_key-Writes}
use shroudbnc.Isupport.Prefixes.{NoParen, prefix_value}
use shroudbnc.Nick.{Nick}
use shroudbnc.Tokens.{c_string}
use shroudbnc.Tokens.Blocks.{text_at}
use shroudbnc.Tokens.Joined.{IsWord, more, arguments, arg_to_array-arg_tokenize}
use shroudbnc.Tokens.Trim.{str_trim, str_trim-word, c_string-plain}
use shroudbnc.Channel.{Channel, add_user}
use shroudbnc.Session.{Session, get_channel}
use shroudbnc.Session.Lines.{Settings, put}
use shroudbnc.Session.Lines.Put.{put-Writes}
use shroudbnc.Session.Lines.Names.{add_name, name_round, next_step, names_loop, add_names, on_names}
use shroudbnc.Session.Lines.Entries.{
  Entry, word, IsEntry, marked, object, past_prefixes-word, modes_of-word, set_prefixes-object,
}

-- A word as the loop sees it: the characters up to the zero are those of the word.
c_string-word : (w : Text) → IsWord w → c_string (w ++ 0 ∷ []) ≡ w
c_string-word [] h = absurd h
c_string-word (x ∷ w) h = c_string-plain (x ∷ w) (h.0, h.2)

module _ ⦃rule : KeyRule⦄ where
  -- What a nick reads after the words: the object of the last word that is for it, or what it read before.
  unfoldable pub listed : ℕ → Text → List Entry → Option Nick → Option Nick
  listed now q [] old = old
  listed now q (e ∷ words) old =
      listed now q words (if same e.nick q then some (object now e) else old)

  -- A channel takes as many nicks as the words need.
  pub record HasRoom (u : Settings) (count : ℕ) (c : Channel) : Type 0 where
    pub valid : IsValid c.nicks
    pub keeps : c.keep_nicklist ≡ true
    pub few : c.nicks.length_cache + count ≤ u.max_nicks + 1

  add_user-object :
      (u : Settings) (e : Entry) (count : ℕ) (c : Channel)
      → u.limit < 2 ^ u.doublings
      → u.lean_mode ≤ 1
      → HasRoom u (suc count) c
      → (d : Channel) × (add_user u.lean_mode u.max_nicks u.limit
            (suc u.doublings)
            true
            u.now
            e.nick
            (marked e.marks)
            c
          ≡ some d)
        × HasRoom u count d
        × ((q : Text)
            → get (some q) d.nicks
              ≡ (if same e.nick q then some (object u.now e) else get (some q) c.nicks))
  unfolding add_user Hashtable.get_length
  add_user-object u e count c h lean room =
      let r = remove_key-Writes false e.nick c.nicks room.valid in
      let keeping : (ltb 1 u.lean_mode || not c.keep_nicklist) ≡ false =
        ground (arith, lean, room.keeps) in
      let few : c.nicks.length_cache ≤ u.max_nicks = omega (arith, room.few) in
      let (t, run, a, wide) =
        add_key-Writes u.limit u.doublings e.nick (object u.now e) (remove_key false e.nick c.nicks)
          r.valid (omega (arith, h, mul-le-mul_right (2 ^ u.doublings) r.valid.roomy)) in
      (
        record c { nicks = t },
        rw
            (
              add_user,
              keeping,
              le→ltb u.max_nicks c.nicks.length_cache few,
              set_prefixes-object u.now e,
              run,
            )
            refl,
        record {
          valid = a.valid;
          keeps = room.keeps;
          few = omega (arith, a.length, r.length, room.few);
        },
        λ q. ground (arith, a.reads q, r.reads q),
      )

  -- The value of PREFIX for the modes of nicks and their prefixes.
  module _ (modes shown : Text) (clean : NoParen modes) where
    name_round-object :
        (u : Settings) (p : Text) (e : Entry) (c d : Channel)
        → c_string p ≡ word e
        → IsWord (word e)
        → IsEntry shown e
        → add_user u.lean_mode u.max_nicks u.limit
            (suc u.doublings)
            true
            u.now
            e.nick
            (marked e.marks)
            c
          ≡ some d
        → name_round u (some (prefix_value modes shown)) (some p) c ≡ some (ok d)
    unfolding name_round next_step add_name
    name_round-object u p e c d shows h i run =
        let prefixes : Option Text = some (prefix_value modes shown) in
        ap (λ o. next_step (some o) (λ bytes. add_name u prefixes (c_string bytes) c))
          (ap (λ z. str_trim 32 (z ++ 0 ∷ [])) shows ∙ str_trim-word (word e) h)
        ∙ ap (λ z. add_name u prefixes z c) (c_string-word (word e) h)
        ∙ rw
            (
              add_name,
              past_prefixes-word modes shown e.marks e.nick clean i.0 i.1,
              modes_of-word modes shown e.marks e.nick clean i.0 i.1,
              run,
            )
            refl

    names_loop-listed :
        (u : Settings) (ps : List (Option Text)) (words : List Entry) (c : Channel)
        → map text_at ps ≡ map (λ e. some (word e)) words
        → All (λ e. IsWord (word e) × IsEntry shown e) words
        → u.limit < 2 ^ u.doublings
        → u.lean_mode ≤ 1
        → HasRoom u (length words) c
        → (d : Channel) × (names_loop u (some (prefix_value modes shown)) ps c ≡ some (ok d))
          × IsValid d.nicks
          × ((q : Text) → get (some q) d.nicks ≡ listed u.now q words (get (some q) c.nicks))
    unfolding names_loop listed text_at next_step
    names_loop-listed u [] [] c e p h lean room = (c, refl, room.valid, λ q. refl)
    names_loop-listed u [] (w ∷ words) c e p h lean room = absurd cc
    names_loop-listed u (o ∷ ps) [] c e p h lean room = absurd cc
    names_loop-listed u (none ∷ ps) (w ∷ words) c e p h lean room = absurd cc
    names_loop-listed u (some b ∷ ps) (w ∷ words) c e p h lean room =
        let shows : c_string b ≡ word w = cc in
        let rest : map text_at ps ≡ map (λ a. some (word a)) words = cc in
        let (b_channel, added, more_room, reads) =
          add_user-object u w (length words) c h lean room in
        let (d, run, v, later) = names_loop-listed u ps words b_channel rest p.1 h lean more_room in
        (
          d,
          rw (names_loop, name_round-object u b w c b_channel shows p.0.0 p.0.1 added) run,
          v,
          λ q. later q ∙ ap (listed u.now q words) (reads q),
        )

    arguments-words : (words : List Text) → arguments words none ≡ words
    unfolding arguments
    arguments-words [] = refl
    arguments-words (w ∷ words) = ap (λ z. w ∷ z) (arguments-words words)

    map-word :
        (words : List Entry) → map (λ a. some a) (map word words) ≡ map (λ e. some (word e)) words
    map-word [] = refl
    map-word (w ∷ words) = ap (λ z. some (word w) ∷ z) (map-word words)

    All-IsWord :
        (words : List Entry)
        → All (λ e. IsWord (word e) × IsEntry shown e) words
        → All IsWord (map word words)
    All-IsWord [] p = tt
    All-IsWord (w ∷ words) p = (p.0.0, All-IsWord words p.1)

    add_names-listed :
        (u : Settings) (w : Entry) (words : List Entry) (c : Channel)
        → All (λ e. IsWord (word e) × IsEntry shown e) (w ∷ words)
        → u.limit < 2 ^ u.doublings
        → u.lean_mode ≤ 1
        → HasRoom u (suc (length words)) c
        → (d : Channel) × (add_names u
              (some (prefix_value modes shown))
              (word w ++ more (map word words) none)
              c
            ≡ some (ok d))
          × IsValid d.nicks
          × ((q : Text) → get (some q) d.nicks ≡ listed u.now q (w ∷ words) (get (some q) c.nicks))
    unfolding add_names next_step
    add_names-listed u w words c p fuel lean room =
        let (args, ps, cut, split, shows) =
          arg_to_array-arg_tokenize (word w) (map word words) none p.0.0 (All-IsWord words p.1)
            tt in
        let (d, run, v, reads) =
          names_loop-listed u ps (w ∷ words) c
            (shows
              ∙ ap (map (λ a. some a)) (arguments-words (map word (w ∷ words)))
              ∙ map-word (w ∷ words))
            p fuel lean room in
        (d, rw (add_names, cut, split) run, v, reads)

    -- A line 353 for a channel of the connection, with a nick list that is kept and has room for the words of the line, one space between two of them,
    -- with the server's PREFIX, memory, and enough fuel for the tables, reads no byte that it may not and returns. A word is the prefixes of a nick and the nick, which does not begin with a prefix.
    -- On the channel a nick reads the new object of the last word that is for it, with the prefixes of that word and no other attribute, or what it read before where there is none. The nick table is valid, and every other channel is as before.
    pub on_names-listed :
        (u : Settings) (name : Text) (w : Entry) (words : List Entry) (c : Channel) (s : Session)
        → IsValid s.channels
        → get_channel name s ≡ some c
        → All (λ e. IsWord (word e) × IsEntry shown e) (w ∷ words)
        → u.limit < 2 ^ u.doublings
        → u.lean_mode ≤ 1
        → HasRoom u (suc (length words)) c
        → (d : Channel) × (t : Session) × (on_names u
              (some (prefix_value modes shown))
              name
              (word w ++ more (map word words) none)
              s
            ≡ some (ok t))
          × IsValid t.channels
          × IsValid d.nicks
          × ((q : Text) → get (some q) d.nicks ≡ listed u.now q (w ∷ words) (get (some q) c.nicks))
          × ((other : Text)
              → get_channel other t ≡ (if same name other then some d else get_channel other s))
    unfolding on_names get_channel next_step
    on_names-listed u name w words c s v at p fuel lean room =
        let (d, run, valid, reads) = add_names-listed u w words c p fuel lean room in
        let a = put-Writes name d c s.channels v at in
        (
          d,
          record s { channels = put name d s.channels },
          rw (on_names, at, run) refl,
          a.valid,
          valid,
          reads,
          a.reads,
        )
