-- ===== src/Session/Lines/Naming.antt =====
-- The lines 353 and 366 keep the tables of CIRCConnection of src/IRCConnection.cpp valid.
use shroudbnc.Base.{
  ℕ, ◌^◌, ◌<◌, ◌≡◌, refl, subst, List, [], ◌∷◌, ◌++◌, Option, none, some, Outcome, ok, err, fault,
  Option-cases, inl, inr,
}
use shroudbnc.Hashtable.Key.{KeyRule, Text}
use shroudbnc.Hashtable.{get}
use shroudbnc.Hashtable.View.{IsValid}
use shroudbnc.Tokens.{c_string, arg_tokenize}
use shroudbnc.Tokens.Trim.{str_trim}
use shroudbnc.Channel.{Channel, set_has_names}
use shroudbnc.Session.{Session, get_channel}
use shroudbnc.Session.Lines.{Settings, put}
use shroudbnc.Session.Lines.Rooms.{IsRooms, put-IsRooms, add_user-IsValid}
use shroudbnc.Session.Lines.Kept.{at_channel-IsRooms}
use shroudbnc.Session.Lines.Names.{
  past_prefixes, modes_of, next_step, add_name, name_round, names_loop, add_names, on_names,
  on_end_of_names,
}

module _ {A B : Type 0} where
  next_step-ok :
      (o : Option (Outcome A)) (f : A → Option (Outcome B)) (b : B)
      → next_step o f ≡ some (ok b)
      → (a : A) × (o ≡ some (ok a)) × (f a ≡ some (ok b))
  unfolding next_step
  next_step-ok none f b e = absurd cc
  next_step-ok (some (ok a)) f b e = (a, refl, e)
  next_step-ok (some (err x)) f b e = absurd cc
  next_step-ok (some fault) f b e = absurd cc

module _ ⦃rule : KeyRule⦄ where
  same_channel : (c d : Channel) → some (ok c) ≡ some (ok d) → IsValid c.nicks → IsValid d.nicks
  same_channel c d e v = let there : c ≡ d = cc in subst (λ (o : Channel). IsValid o.nicks) there v

  add_name-IsValid :
      (u : Settings) (prefixes : Option Text) (name : Text) (c d : Channel)
      → u.limit < 2 ^ u.doublings
      → IsValid c.nicks
      → add_name u prefixes name c ≡ some (ok d)
      → IsValid d.nicks
  unfolding add_name
  add_name-IsValid u prefixes name c d h v e =
      let (b, run, valid) =
        add_user-IsValid u.lean_mode u.max_nicks u.limit u.doublings u.now
          (past_prefixes prefixes name) (modes_of prefixes name) c v h in
      let made : add_name u prefixes name c ≡ some (ok b) = rw (add_name, run) refl in
      let agree : some (ok b) ≡ some (ok d) = cc in same_channel b d agree valid

  names_loop-IsValid :
      (u : Settings) (prefixes : Option Text) (ps : List (Option Text)) (c d : Channel)
      → u.limit < 2 ^ u.doublings
      → IsValid c.nicks
      → names_loop u prefixes ps c ≡ some (ok d)
      → IsValid d.nicks
  unfolding names_loop name_round next_step
  names_loop-IsValid u prefixes [] c d h v e = same_channel c d e v
  names_loop-IsValid u prefixes (none ∷ ps) c d h v e = absurd cc
  names_loop-IsValid u prefixes (some p ∷ ps) c d h v e =
      let (b, run, later) =
        next_step-ok (name_round u prefixes (some p) c) (λ x. names_loop u prefixes ps x) d e in
      let (bytes, trimmed, added) =
        next_step-ok (some (str_trim 32 (c_string p ++ 0 ∷ [])))
          (λ x. add_name u prefixes (c_string x) c) b run in
      names_loop-IsValid u prefixes ps b d h
        (add_name-IsValid u prefixes (c_string bytes) c b h v added) later

  add_names-IsValid :
      (u : Settings) (prefixes : Option Text) (text : Text) (c d : Channel)
      → u.limit < 2 ^ u.doublings
      → IsValid c.nicks
      → add_names u prefixes text c ≡ some (ok d)
      → IsValid d.nicks
  unfolding add_names arg_tokenize
  add_names-IsValid u prefixes text c d h v e =
      let (ps, split, run) = next_step-ok _ (λ x. names_loop u prefixes x c) d e in
      names_loop-IsValid u prefixes ps c d h v run

  pub on_names-IsRooms :
      (most : ℕ) (u : Settings) (prefixes : Option Text) (name text : Text) (s t : Session)
      → u.limit < 2 ^ u.doublings
      → IsRooms most s.channels
      → on_names u prefixes name text s ≡ some (ok t)
      → IsRooms most t.channels
  unfolding on_names get_channel
  on_names-IsRooms most u prefixes name text s t h r e =
      elim (Option-cases (get (some name) s.channels)) [
        | inl gone ↦
            let run : on_names u prefixes name text s ≡ some (ok s) = rw (on_names, gone) refl in
            let there : s ≡ t = cc in subst (λ (o : Session). IsRooms most o.channels) there r
        | inr (c, at) ↦
            let (d, run, done) =
              next_step-ok (add_names u prefixes text c)
                (λ d. some (ok (record s { channels = put name d s.channels }))) t
                (subst (λ o. o ≡ some (ok t)) (rw (on_names, at) refl) e) in
            let there : record s { channels = put name d s.channels } ≡ t = cc in
            subst (λ (o : Session). IsRooms most o.channels) there
              (put-IsRooms most name c d s.channels r at
                (add_names-IsValid u prefixes text c d h (r.nicks name c at) run))
      ]

  pub on_end_of_names-IsRooms :
      (most : ℕ) (name : Text) (s : Session)
      → IsRooms most s.channels
      → IsRooms most (on_end_of_names name s).channels
  unfolding on_end_of_names set_has_names
  on_end_of_names-IsRooms most name s r = at_channel-IsRooms most name _ s (λ c v. v) r
