-- ===== src/Relay/Tasks.antt =====
-- relay/src/lib.rs, handle_socket: the tasks of one connection, which run side by side, and the other
-- users of the services (the relation `Others`). A task is as far as its last `await`.
pub mod Standing
pub mod Order
pub mod Counted
pub mod Arrived
pub mod Missed
pub mod Ended
pub mod Leaked
use invisible_backend.Relay.Feed.{starting, listening, ended, Feed, new_feed, own, has_ended}
use invisible_backend.Relay.{Codec, Services, user_channel}
use invisible_backend.Relay.Receiving.{Pc, connecting, reading, stopped, advance, begin}
use invisible_backend.Relay.Session.{Opening, open_session, close_session}
use invisible_backend.Prelude.{
  [], ◌∷◌, none, some, true, false, map, ◌≡◌, ◌++◌, List, String, Bool, ◌+◌, not, ◌≤◌, ◌||◌,
  string_eq, ◌<◌,
}

-- tokio::select! waits for a task to end, then the connection is removed, then the handler returns.
pub data Main : Type 0 where
  waiting : Main
  closing : Main
  closed : Main

abbrev pub is_over : Main → Bool
is_over waiting = false
is_over _ = true

abbrev pub is_connecting : Pc → Bool
is_connecting connecting = true
is_connecting _ = false

abbrev pub is_stopped : Pc → Bool
is_stopped stopped = true
is_stopped _ = false

module _ (codec : Codec) (svc : Services) where
  -- `wire` is what the socket took, `outbox` what was handed to `tx` and the socket has not taken: once
  -- `sending` is over nobody takes it. `receipts` are the tasks that publish one, and wait to run.
  pub record Connection : Type 0 where
    pub services : svc.State
    pub outbox : List String
    pub wire : List String
    pub sending : Bool
    pub feed : Feed
    pub pc : Pc
    pub connected : Bool
    pub watches : List Feed
    pub receipts : List (String × String)
    pub main : Main

  -- when the sending task and `pubsub_task` have been spawned
  unfoldable pub spawn_tasks : String → Opening codec svc → Connection
  spawn_tasks me o = record {
    services = o.services;
    outbox = o.outbox;
    wire = [];
    sending = true;
    feed = new_feed (user_channel me);
    pc = connecting;
    connected = false;
    watches = [];
    receipts = o.spawned;
    main = waiting;
  }

  -- a connection, from the state of the services that it finds
  abbrev pub opened : String → String → svc.State → Connection
  opened me conn s = spawn_tasks me (open_session codec svc me conn s)

  -- what a forwarding task has to do with
  pub record Listener : Type 0 where
    pub services : svc.State
    pub outbox : List String
    pub feed : Feed

  -- get_async_pubsub and subscribe, or the end of the task where one of them fails; then each payload of
  -- the stream goes to `tx`, until the stream ends.
  pub data Forward (l : Listener) : Listener → Type 0 where
    no_connection :
        l.feed.stage ≡ starting → Forward l (record l { feed = record l.feed { stage = ended } })
    subscribes :
        l.feed.stage ≡ starting
        → (svc.subscribe l.feed.channel l.services).0 ≡ some tt
        → Forward l (record l {
          services = (svc.subscribe l.feed.channel l.services).1;
          feed = record l.feed { stage = listening (svc.sent l.services l.feed.channel) };
        })
    not_subscribed :
        l.feed.stage ≡ starting
        → (svc.subscribe l.feed.channel l.services).0 ≡ none
        → Forward l (record l {
          services = (svc.subscribe l.feed.channel l.services).1;
          feed = record l.feed { stage = ended };
        })
    forwards :
        (before : List String) (payload : String) (rest : List String)
        → l.feed.stage ≡ listening before
        → svc.sent l.services l.feed.channel ≡ (before ++ l.feed.forwarded) ++ payload ∷ rest
        → Forward l (record l {
          outbox = l.outbox ++ payload ∷ [];
          feed = record l.feed { forwarded = l.feed.forwarded ++ payload ∷ [] };
        })
    stream_ends :
        (before : List String)
        → l.feed.stage ≡ listening before
        → Forward l (record l { feed = record l.feed { stage = ended } })

  abbrev pub listener : Connection → Feed → Listener
  listener s f = record { services = s.services; outbox = s.outbox; feed = f }

  -- a step of the receiving task that calls a service; each presence that it asks for makes a task
  unfoldable pub work : String → Connection → Connection
  work me s =
      let (pc, c) =
        advance codec svc s.connected me s.pc
          (record { services = s.services; outbox = s.outbox; watching = [] }) in
      record s {
        services = c.services;
        outbox = c.outbox;
        pc = pc;
        watches = s.watches ++ map new_feed c.watching;
      }

  -- what tokio::select! waits for
  unfoldable pub some_ended : Connection → Bool
  some_ended s = not s.sending || has_ended s.feed.stage || is_stopped s.pc

  module _ (Others : svc.State → svc.State → Type 0) (me conn : String) where
    pub data Step (s : Connection) : Connection → Type 0 where
      -- get_multiplexed_async_connection, and the receiving task is spawned
      connects :
          (answered : Bool)
          → s.pc ≡ connecting
          → Step s (record s { pc = reading; connected = answered })
      hears :
          (text : String)
          → s.pc ≡ reading
          → Step s (record s { pc = begin me (codec.parse_incoming text) })
      -- the stream of frames ends, or breaks
      hangs_up : s.pc ≡ reading → Step s (record s { pc = stopped })
      works : Step s (work me s)
      sends :
          (text : String) (rest : List String)
          → s.sending ≡ true
          → s.outbox ≡ text ∷ rest
          → Step s (record s { outbox = rest; wire = s.wire ++ text ∷ [] })
      -- sender.send fails
      breaks :
          (text : String) (rest : List String)
          → s.sending ≡ true
          → s.outbox ≡ text ∷ rest
          → Step s (record s { sending = false })
      listens :
          {l : Listener}
          → Forward (listener s s.feed) l
          → Step s (record s { services = l.services; outbox = l.outbox; feed = l.feed })
      watches_presence :
          (xs : List Feed) (w : Feed) (ys : List Feed) {l : Listener}
          → s.watches ≡ xs ++ w ∷ ys
          → Forward (listener s w) l
          → Step s
              (record s { services = l.services; outbox = l.outbox; watches = xs ++ l.feed ∷ ys })
      publishes_receipt :
          (xs : List (String × String)) (channel json : String) (ys : List (String × String))
          → s.receipts ≡ xs ++ (channel, json) ∷ ys
          → Step s (record s {
            services = (svc.publish_message channel json s.services).1;
            receipts = xs ++ ys;
          })
      selects :
          s.main ≡ waiting
          → is_connecting s.pc ≡ false
          → some_ended s ≡ true
          → Step s (record s { main = closing })
      -- abort() takes effect at the task's next await
      aborts_sending : is_over s.main ≡ true → Step s (record s { sending = false })
      aborts_receiving : is_over s.main ≡ true → Step s (record s { pc = stopped })
      aborts_listening :
          is_over s.main ≡ true → Step s (record s { feed = record s.feed { stage = ended } })
      closes :
          s.main ≡ closing
          → Step s
              (record s { services = close_session codec svc me conn s.services; main = closed })
      -- Redis drops a subscription that is over, of this connection or another: one more than the
      -- subscriptions that this connection still has.
      drops :
          (channel : String)
          → own (s.feed ∷ s.watches) channel < svc.subscribers s.services channel
          → Step s (record s { services = svc.unsubscribe channel s.services })
      -- Redis counts this connection's subscriptions among the subscribers for as long as they last.
      others :
          (t : svc.State)
          → Others s.services t
          → ((c : String) → own (s.feed ∷ s.watches) c ≤ svc.subscribers t c)
          → Step s (record s { services = t })

    -- what a connection may come to from here
    pub data Reach (s : Connection) : Connection → Type 0 where
      here : Reach s s
      next : {t u : Connection} → Reach s t → Step t u → Reach s u
