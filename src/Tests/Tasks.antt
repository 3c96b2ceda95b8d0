-- ===== src/Tests/Tasks.antt =====
-- relay/src/lib.rs: the tasks of Bob's connection, with the services in memory, and Alice's greeting.
use invisible_backend.Relay.Feed.{own, listening, ended}
use invisible_backend.Tests.Routing.{greeting}
use invisible_backend.Models.{IncomingMessage, DatabaseEvent}
use invisible_backend.Relay.Tasks.{
  Connection, opened, subscribes, listens, connects, hangs_up, selects, aborts_listening, drops,
  others, forwards, Reach, here, next, some_ended, spawn_tasks, closed, closing,
}
use invisible_backend.Relay.Receiving.{logging, stopped}
use invisible_backend.Prelude.{
  [], ◌∷◌, none, some, true, false, refl, ◌≡◌, ◌++◌, In, ◌≤◌, List, String, ◌⊎◌, arith,
}
use invisible_backend.Relay.Memory.{Memory, plain_codec, memory, memory-Growth, memory-Laws}
use invisible_backend.Relay.{presence_channel, user_channel}
use invisible_backend.Relay.Tasks.Order.{InOrder}
use invisible_backend.Relay.Route.{db_event, log_event, plan, Client, receive}
use invisible_backend.Relay.Later.{IsGrown, IsKept}
use invisible_backend.Relay.Tasks.Arrived.{receive-arrives}
use invisible_backend.Relay.Session.{announce, flush, open_session}
use invisible_backend.Relay.Tasks.Ended.{Reach-EndsFirst, IsCut, logged-IsCut}
use invisible_backend.Relay.Tasks.Leaked.{presence-leaks}
use invisible_backend.Relay.Tasks.Order.Since.{Reach-InOrder, IsSince, IsListening}
use invisible_backend.Relay.Tasks.Missed.{receive-waits}

abbrev quiet : Memory
quiet = record { channels = λ c. []; listeners = λ c. 0; queues = λ u. []; stream = [] }

abbrev Bobs : Type 0
Bobs = Connection plain_codec memory

abbrev bob : Bobs
bob = opened plain_codec memory "bob" "c2" quiet

abbrev BobsReach : Bobs → Bobs → Type 0
BobsReach = Reach plain_codec memory (IsGrown memory) "bob" "c2"

abbrev growing : (s t : Memory) → IsGrown memory s t → IsGrown memory s t
growing s t h = h

-- Bob's connection has subscribed.
abbrev subscribed : Bobs
subscribed = record bob {
  services = (memory.subscribe "user:bob" bob.services).1;
  feed = record bob.feed { stage = listening (memory.sent bob.services "user:bob") };
}

subscribed-reached : BobsReach bob subscribed
unfolding spawn_tasks user_channel
subscribed-reached = next here (listens (subscribes refl refl))

-- Somebody else publishes on Bob's channel, and his task takes the text.
abbrev told : Bobs
told = record subscribed {
  services = (memory.publish_message "user:bob" "hello" subscribed.services).1;
}

abbrev forwarded : Bobs
forwarded = record told {
  outbox = told.outbox ++ "hello" ∷ [];
  feed = record told.feed { forwarded = "hello" ∷ [] };
}

forwarded-reached : BobsReach bob forwarded
unfolding spawn_tasks user_channel open_session flush announce presence_channel
forwarded-reached =
    next
      (next subscribed-reached (
        others told.services
          (memory-Growth.later_publish "user:bob" "hello" subscribed.services).sent
          (λ c. ground arith)))
      (listens (forwards [] "hello" [] refl refl))

-- Bob hangs up, his tasks are stopped, and Redis drops the subscription.
abbrev unsubscribed : Bobs
unsubscribed = record subscribed {
  services = memory.unsubscribe "user:bob" subscribed.services;
  feed = record subscribed.feed { stage = ended };
  pc = stopped;
  connected = true;
  main = closing;
}

unsubscribed-reached : BobsReach subscribed unsubscribed
unfolding spawn_tasks user_channel some_ended
unsubscribed-reached =
    next
      (next (next (next (next here (connects true refl)) (hangs_up refl)) (selects refl refl refl))
        (aborts_listening refl))
      (drops "user:bob" (omega arith))

nobody_listens : memory.subscribers unsubscribed.services "user:bob" ≡ 0
unfolding spawn_tasks open_session flush announce
nobody_listens = refl

-- Alice's receiving task, on the same services
abbrev alices : Memory → Client plain_codec memory
alices s = record { services = s; outbox = []; watching = [] }

abbrev greets : Memory → Memory
greets s = (receive plain_codec memory true "alice" "greeting" (alices s)).services

Reach-InOrder_example :
    InOrder plain_codec memory "bob"
      (open_session plain_codec memory "bob" "c2" quiet).outbox
      forwarded
    × (((forwarded.feed.forwarded ≡ [])
          × ¬ IsListening plain_codec memory (IsGrown memory) "bob" "c2" forwarded)
        ⊎ IsSince plain_codec memory (IsGrown memory) "bob" "c2" bob forwarded)
Reach-InOrder_example =
    Reach-InOrder plain_codec memory memory-Growth (IsGrown memory) growing "bob" "c2" quiet
      forwarded-reached

receive-arrives_example :
    (u : Bobs) × BobsReach (record subscribed { services = greets subscribed.services }) u
    × In "text:alice:m1:hello" u.wire
unfolding spawn_tasks open_session flush announce presence_channel plan log_event user_channel
receive-arrives_example =
    receive-arrives plain_codec memory memory-Growth (IsGrown memory) "bob" "c2" memory-Laws growing
      quiet [] true "alice" "greeting" "text:alice:m1:hello" (alices subscribed.services)
      (IncomingMessage.text "bob" "m1" "hello") greeting 1 subscribed-reached refl refl refl refl
      refl refl refl refl

abbrev Keeps : Memory → Memory → Type 0
Keeps = IsKept memory

receive-waits_example :
    (memory.sent (greets bob.services) "user:bob" ≡ [])
    × ((u : Bobs)
        → Reach plain_codec memory Keeps "bob" "c2"
            (record bob { services = greets bob.services })
            u
        → (more : List String) × (memory.stored u.services "bob"
            ≡ ([] ++ "text:alice:m1:hello" ∷ []) ++ more))
unfolding spawn_tasks open_session flush announce plan log_event user_channel presence_channel
receive-waits_example =
    receive-waits plain_codec memory memory-Growth Keeps (λ s t h. h) "bob" "c2" memory-Laws bob
      true "alice" "greeting" "text:alice:m1:hello" "text:alice:m1:hello" (alices bob.services)
      (IncomingMessage.text "bob" "m1" "hello") greeting 0 refl refl refl refl refl refl refl refl
      refl refl

-- Bob hangs up.
abbrev hung_up : Bobs
hung_up = record bob { pc = stopped; connected = true; main = closing }

Reach-EndsFirst_example : some_ended plain_codec memory hung_up ≡ true
unfolding spawn_tasks some_ended
Reach-EndsFirst_example =
    Reach-EndsFirst plain_codec memory Keeps "bob" "c2" quiet
      (next (next (next here (connects true refl)) (hangs_up refl)) (selects refl refl refl)) refl

-- Alice's socket has broken while her receiving task is about to log the greeting.
abbrev breaking : Connection plain_codec memory
breaking = record (opened plain_codec memory "alice" "c1" quiet) {
  pc = logging greeting;
  connected = true;
  sending = false;
}

logged-IsCut_example :
    (t : Bobs) × Reach plain_codec memory Keeps "alice" "c1" breaking t
    × IsCut plain_codec memory Keeps "alice" "c1" "text:alice:bob:m1" breaking t
unfolding spawn_tasks some_ended db_event
logged-IsCut_example =
    logged-IsCut plain_codec memory Keeps "alice" "c1" memory-Laws breaking greeting
      (DatabaseEvent.new_message "m1" "alice" "bob" "text" (some "hello") none none none)
      "text:alice:bob:m1" refl refl refl refl refl refl refl

presence-leaks_example :
    (t : Bobs) × BobsReach bob t
    × (t.main ≡ closed)
    × (t.sending ≡ false)
    × (t.pc ≡ stopped)
    × (t.feed.stage ≡ ended)
    × (own t.watches "presence:alice" ≡ 2)
    × (2 ≤ memory.subscribers t.services "presence:alice")
unfolding presence_channel
presence-leaks_example =
    presence-leaks plain_codec memory (IsGrown memory) "bob" "c2" "alice" "watch" refl (λ c s. refl)
      memory-Growth 2 quiet
