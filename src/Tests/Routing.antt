-- ===== src/Tests/Routing.antt =====
-- relay/src/lib.rs with the services in memory.
use invisible_backend.Prelude.{◌≡◌, refl, some, ◌==◌, string_eq, [], true, if◌then◌else◌, String}
use invisible_backend.Models.{IncomingMessage, OutgoingMessage, DatabaseEvent}
use invisible_backend.Relay.Memory.{
  Memory, memory, memory-Laws, memory-IsUp, plain_codec, plain_codec-IsTotal,
}
use invisible_backend.Relay.Route.{Plan, plan, Client, receive, db_event}
use invisible_backend.Relay.Route.Received.{IsRouted, logged, receive-IsRouted}
use invisible_backend.Relay.Route.Sender.{claimed_sender, author, addressee, plan-claimed_sender}

-- Both users have a connection.
abbrev both_here : Memory
both_here = record {
  channels = λ c. [];
  listeners = λ c. if c == "user:bob" then 1 else if c == "user:alice" then 1 else 0;
  queues = λ u. [];
  stream = [];
}

abbrev client : Client plain_codec memory
client = record { services = both_here; outbox = []; watching = [] }

abbrev pub greeting : Plan
greeting = record {
  requires_receipt = true;
  store_offline = true;
  to = "bob";
  id = "m1";
  outgoing = OutgoingMessage.text "alice" "m1" "hello";
}

receive-IsRouted_example :
    let s' = (receive plain_codec memory true "alice" "greeting" client).services in
    IsRouted plain_codec memory plain_codec-IsTotal memory-Laws memory-IsUp "alice" greeting
      both_here s'
    × (s'.stream
        ≡ logged plain_codec memory plain_codec-IsTotal memory-Laws memory-IsUp true "alice"
            greeting)
unfolding plan
receive-IsRouted_example =
    receive-IsRouted plain_codec memory plain_codec-IsTotal memory-Laws memory-IsUp true "alice"
      "greeting" client (IncomingMessage.text "bob" "m1" "hello") greeting refl refl

plan-claimed_sender_example :
    (claimed_sender greeting.outgoing ≡ some "alice")
    × ((e : DatabaseEvent)
        → db_event "alice" "bob" greeting.outgoing ≡ some e
        → (author e ≡ "alice") × ((to : String) → addressee e ≡ some to → to ≡ "bob"))
unfolding plan
plan-claimed_sender_example =
    plan-claimed_sender "alice" (IncomingMessage.text "bob" "m1" "hello") greeting refl
