-- ===== src/Relay/Feed.antt =====
-- relay/src/lib.rs, handle_socket: a subscription of a connection, that of `pubsub_task` or one to the
-- presence of a user.
use invisible_backend.Prelude.{
  [], ◌∷◌, true, false, if◌then◌else◌, ◌==◌, List, String, Bool, ℕ, ◌+◌, string_eq,
}

-- A subscription: not yet made; made, with what the channel had been sent before; over.
pub data Stage : Type 0 where
  starting : Stage
  listening : List String → Stage
  ended : Stage

-- a task that subscribes to a channel and forwards its texts: `pubsub_task`, and one for each user
-- whose presence is watched
pub record Feed : Type 0 where
  pub channel : String
  pub stage : Stage
  pub forwarded : List String

abbrev pub has_ended : Stage → Bool
has_ended ended = true
has_ended _ = false

abbrev pub new_feed : String → Feed
new_feed channel = record { channel = channel; stage = starting; forwarded = [] }

-- how many subscriptions to a channel there are among these
abbrev pub own_stage : Stage → ℕ
own_stage (listening _) = 1
own_stage _ = 0

abbrev pub own_feed : Feed → String → ℕ
own_feed f c = if f.channel == c then own_stage f.stage else 0

abbrev pub own : List Feed → String → ℕ
own [] c = 0
own (f ∷ fs) c = own_feed f c + own fs c
