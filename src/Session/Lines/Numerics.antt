-- ===== src/Session/Lines/Numerics.antt =====
-- What the lines 329, 331, 332 and 333, about the age and the topic of a channel, do in ParseLineArgV of
-- src/IRCConnection.cpp.
use shroudbnc.Base.{ℕ, true}
use shroudbnc.Hashtable.Key.{KeyRule, Text}
use shroudbnc.Channel.{set_topic, set_topic_nick, set_topic_stamp, set_no_topic}
use shroudbnc.Session.{Session}
use shroudbnc.Session.Lines.{at_channel}
use shroudbnc.Session.Lines.Rooms.{IsRooms}
use shroudbnc.Session.Lines.Kept.{at_channel-IsRooms}

module _ ⦃rule : KeyRule⦄ where
  -- The branch for 329; `time` is what atoi gives.
  unfoldable pub on_creation_time : ℕ → Text → Session → Session
  on_creation_time time name s = at_channel name (λ c. record c { creation = time }) s

  -- The branch for 332, with memory.
  unfoldable pub on_topic_text : Text → Text → Session → Session
  on_topic_text topic name s = at_channel name (set_topic true topic) s

  -- The branch for 333, likewise.
  unfoldable pub on_topic_nick : Text → ℕ → Text → Session → Session
  on_topic_nick nick time name s =
      at_channel name (λ c. set_topic_stamp time (set_topic_nick true nick c)) s

  -- The branch for 331.
  unfoldable pub on_no_topic : Text → Session → Session
  on_no_topic name s = at_channel name set_no_topic s

  pub on_creation_time-IsRooms :
      (most time : ℕ) (name : Text) (s : Session)
      → IsRooms most s.channels
      → IsRooms most (on_creation_time time name s).channels
  unfolding on_creation_time
  on_creation_time-IsRooms most time name s r = at_channel-IsRooms most name _ s (λ c v. v) r

  pub on_topic_text-IsRooms :
      (most : ℕ) (topic name : Text) (s : Session)
      → IsRooms most s.channels
      → IsRooms most (on_topic_text topic name s).channels
  unfolding on_topic_text set_topic
  on_topic_text-IsRooms most topic name s r = at_channel-IsRooms most name _ s (λ c v. v) r

  pub on_topic_nick-IsRooms :
      (most : ℕ) (nick : Text) (time : ℕ) (name : Text) (s : Session)
      → IsRooms most s.channels
      → IsRooms most (on_topic_nick nick time name s).channels
  unfolding on_topic_nick set_topic_nick set_topic_stamp
  on_topic_nick-IsRooms most nick time name s r = at_channel-IsRooms most name _ s (λ c v. v) r

  pub on_no_topic-IsRooms :
      (most : ℕ) (name : Text) (s : Session)
      → IsRooms most s.channels
      → IsRooms most (on_no_topic name s).channels
  unfolding on_no_topic set_no_topic
  on_no_topic-IsRooms most name s r = at_channel-IsRooms most name _ s (λ c v. v) r
