-- ===== src/Session/Lines/Kept.antt =====
-- Each line of the server keeps the tables of CIRCConnection of src/IRCConnection.cpp valid and the channels few.
use shroudbnc.Base.{
  ℕ, ◌+◌, ◌^◌, ◌<◌, ◌≡◌, refl, [], ◌∷◌, ◌++◌, none, some, Bool, true, false, if◌then◌else◌,
  Option-cases, Bool-cases, inl, inr,
}
use shroudbnc.Hashtable.Key.{KeyRule, Text}
use shroudbnc.Hashtable.{get}
use shroudbnc.Hashtable.View.{IsValid}
use shroudbnc.Hashtable.Writes.{remove_key-Writes}
use shroudbnc.Channel.{Channel, remove_user, set_topic, set_topic_nick, set_topic_stamp}
use shroudbnc.Session.{Session, nick_from_hostmask, is_me, get_channel, remove_channel}
use shroudbnc.Session.Lines.{
  Settings, put, update_host_helper, at_channel, enter, join, on_join, on_part, on_kick, on_topic,
}
use shroudbnc.Session.Lines.Rooms.{
  IsRooms, put-IsRooms, remove_key-IsRooms, update_host_helper-IsRooms, add_user-IsValid,
  add_channel-IsRooms,
}

module _ ⦃rule : KeyRule⦄ where
  enter-IsRooms :
      (u : Settings) (name : Text) (s : Session)
      → u.limit < 2 ^ u.doublings
      → IsRooms (u.quota + 1) s.channels
      → (t : Session) × (enter u name s ≡ some t) × IsRooms (u.quota + 1) t.channels
  unfolding enter
  enter-IsRooms u name s h r =
      let (t, made, run, rooms) =
        add_channel-IsRooms u.quota u.limit u.doublings u.now name s r h in
      elim (Bool-cases u.client) [
        | inl client ↦ (t, rw (enter, run, client) refl, rooms)
        | inr alone ↦ (
          record t { sent = t.sent ++ (77 ∷ 79 ∷ 68 ∷ 69 ∷ 32 ∷ name) ∷ [] },
          rw (enter, run, alone) refl,
          rooms,
        )
      ]

  join-IsRooms :
      (u : Settings) (reply name : Text) (s : Session)
      → u.limit < 2 ^ u.doublings
      → IsRooms (u.quota + 1) s.channels
      → (t : Session) × (join u reply name s ≡ some t) × IsRooms (u.quota + 1) t.channels
  unfolding join get_channel
  join-IsRooms u reply name s h r = elim (Option-cases (get (some name) s.channels)) [
    | inl gone ↦ (
      update_host_helper u.lean_mode reply s,
      rw (join, gone) refl,
      update_host_helper-IsRooms (u.quota + 1) u.lean_mode reply s r,
    )
    | inr (c, at) ↦ elim (Option-cases (nick_from_hostmask reply)) [
      | inl unnamed ↦ (s, rw (join, at, unnamed) refl, r)
      | inr (nick, named) ↦
          let (d, run, v) =
            add_user-IsValid u.lean_mode u.max_nicks u.limit u.doublings u.now nick none c
              (r.nicks name c at) h in
          let t : Session = record s { channels = put name d s.channels } in
          (
            update_host_helper u.lean_mode reply t,
            rw (join, at, named, run) refl,
            update_host_helper-IsRooms (u.quota + 1) u.lean_mode reply t
                (put-IsRooms (u.quota + 1) name c d s.channels r at v),
          )
    ]
  ]

  pub on_join-IsRooms :
      (u : Settings) (reply name : Text) (s : Session)
      → u.limit < 2 ^ u.doublings
      → IsRooms (u.quota + 1) s.channels
      → (t : Session) × (on_join u reply name s ≡ some t) × IsRooms (u.quota + 1) t.channels
  unfolding on_join
  on_join-IsRooms u reply name s h r = elim (Bool-cases (is_me (nick_from_hostmask reply) s)) [
    | inl mine ↦
        let (b, entered, rooms) = enter-IsRooms u name s h r in
        let (t, run, final) = join-IsRooms u reply name b h rooms in
        (t, rw (on_join, mine, entered) run, final)
    | inr other ↦
        let (t, run, final) = join-IsRooms u reply name s h r in (t, rw (on_join, other) run, final)
  ]

  pub at_channel-IsRooms :
      (most : ℕ) (name : Text) (change : Channel → Channel) (s : Session)
      → ((c : Channel) → IsValid c.nicks → IsValid (change c).nicks)
      → IsRooms most s.channels
      → IsRooms most (at_channel name change s).channels
  unfolding at_channel get_channel
  at_channel-IsRooms most name change s keeps r = elim (Option-cases (get (some name) s.channels)) [
    | inl gone ↦ rw (at_channel, gone) r
    | inr (c, at) ↦
        rw (at_channel, at)
          (put-IsRooms most name c (change c) s.channels r at (keeps c (r.nicks name c at)))
  ]

  remove_user-IsValid :
      (nick : Text) (c : Channel) → IsValid c.nicks → IsValid (remove_user nick c).nicks
  unfolding remove_user
  remove_user-IsValid nick c v = (remove_key-Writes false nick c.nicks v).valid

  pub on_part-IsRooms :
      (most : ℕ) (u : Settings) (reply name : Text) (s : Session)
      → IsRooms most s.channels
      → IsRooms most (on_part u reply name s).channels
  unfolding on_part remove_channel get_channel
  on_part-IsRooms most u reply name s r = elim (Bool-cases (is_me (nick_from_hostmask reply) s)) [
    | inl mine ↦
        rw (on_part, mine)
          (update_host_helper-IsRooms most u.lean_mode reply (remove_channel name s)
            (remove_key-IsRooms most name s.channels r))
    | inr other ↦ elim (Option-cases (get (some name) s.channels)) [
      | inl gone ↦ rw (on_part, other, gone) (update_host_helper-IsRooms most u.lean_mode reply s r)
      | inr (c, at) ↦ elim (Option-cases (nick_from_hostmask reply)) [
        | inl unnamed ↦ rw (on_part, other, at, unnamed) r
        | inr (nick, named) ↦
            rw (on_part, other, at, named)
              (update_host_helper-IsRooms most u.lean_mode reply
                (record s { channels = put name (remove_user nick c) s.channels })
                (put-IsRooms most name c (remove_user nick c) s.channels r at
                  (remove_user-IsValid nick c (r.nicks name c at))))
      ]
    ]
  ]

  pub on_kick-IsRooms :
      (most : ℕ) (u : Settings) (reply name victim : Text) (s : Session)
      → IsRooms most s.channels
      → IsRooms most (on_kick u reply name victim s).channels
  unfolding on_kick remove_channel
  on_kick-IsRooms most u reply name victim s r =
      update_host_helper-IsRooms most u.lean_mode reply _ (kicked (is_me (some victim) s))
    where
      kicked :
          (b : Bool)
          → IsRooms most
              (if b then remove_channel name s else at_channel name (remove_user victim) s).channels
      kicked true = remove_key-IsRooms most name s.channels r
      kicked false =
          at_channel-IsRooms most name (remove_user victim) s (remove_user-IsValid victim) r

  pub on_topic-IsRooms :
      (most : ℕ) (u : Settings) (reply name topic : Text) (s : Session)
      → IsRooms most s.channels
      → IsRooms most (on_topic u reply name topic s).channels
  unfolding on_topic set_topic set_topic_nick set_topic_stamp
  on_topic-IsRooms most u reply name topic s r =
      update_host_helper-IsRooms most u.lean_mode reply _
        (at_channel-IsRooms most name _ s (λ c v. v) r)
