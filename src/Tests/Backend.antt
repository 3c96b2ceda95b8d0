-- ===== src/Tests/Backend.antt =====
-- The services of the relay, with payloads that all read as one greeting.
use invisible_backend.Repository.PubSub.{publish_message}
use invisible_backend.Relay.Backend.{xadd}
use invisible_backend.Relay.{user_channel, presence_channel}
use invisible_backend.Repository.Offline.{
  save_offline_message, insert_offline, fetch_and_delete_offline_messages, decode_rows,
  delete_offline, oldest_first, select_offline, take_offline,
}
use invisible_backend.Postgres.{query, transaction, ◌>>=◌}
use invisible_backend.Repository.Presence.{add_connection, sadd, scard, presence_key}
use invisible_backend.Relay.Route.{plan, act, deliver, after_publish, save_for_later}
use invisible_backend.Relay.Session.{announce}
use invisible_backend.Prelude.{
  some, if◌then◌else◌, ◌==◌, String, ℕ, Option, nat_eq, [], none, true, refl, ◌≡◌, ◌+◌, string_eq,
  All, ◌⊎◌, arith, ◌∷◌, In,
}
use invisible_backend.Relay.{Laws}
use invisible_backend.Relay.Backend.{backend, backend-Laws, Backend}
use invisible_backend.Models.{IncomingMessage, OutgoingMessage, DatabaseEvent}
use invisible_backend.Postgres.{err, DbError}
use invisible_backend.Relay.Route.{plan, db_event, Plan, log_event, Client, receive}
use invisible_backend.Api.Worker.Loop.{Loop, step, sort_ids}
use invisible_backend.Tests.{sample, parse_uuid}
use invisible_backend.Relay.Memory.{plain_codec, plain_codec-IsTotal}
use invisible_backend.Api.Worker.Kept.{brings}
use invisible_backend.Api.Worker.Rows.{Recorded}
use invisible_backend.Api.Worker.{process_events_batch}
use invisible_backend.Relay.Backend.Logged.{log_event-step}
use invisible_backend.Relay.Route.Kept.{Fate, receive-Fate}
use invisible_backend.Relay.Backend.Growing.{backend-Growth}
use invisible_backend.Relay.Session.{open_session}
use invisible_backend.Relay.Backend.Waited.{open_session-receive}
use invisible_backend.Relay.Later.{IsKept-refl}

abbrev from_value : String → Option OutgoingMessage
from_value payload = some (OutgoingMessage.text "bob" "m1" payload)

abbrev entry_id : ℕ → String
entry_id i = if i == 0 then "1-0" else "2-0"

backend-Laws_example : Laws (backend from_value entry_id)
backend-Laws_example = backend-Laws from_value entry_id

abbrev greeting : Plan
greeting = record {
  requires_receipt = true;
  store_offline = true;
  to = "bob";
  id = "m1";
  outgoing = OutgoingMessage.text "alice" "m1" "hello";
}

abbrev event : DatabaseEvent
event = DatabaseEvent.new_message "m1" "alice" "bob" "text" (some "hello") none none none

abbrev from_str : String → Option DatabaseEvent
from_str json = if json == "text:alice:bob:m1" then some event else none

abbrev new_v4 : ℕ → ℕ
new_v4 i = 900 + i

abbrev services : Backend
services = record {
  world = sample;
  redis = record { sets = λ k. []; outages = [] };
  pubsub = record { sent = λ c. []; subscribers = λ c. 0; outages = [] };
  stream = record { pending = []; fresh = []; group = true; outages = [] };
  entries = 0;
}

-- the worker, after the greeting was logged
abbrev worker : Loop
worker = record {
  backoff = 1;
  read_id = some ">";
  stream =
      (log_event plain_codec (backend from_value entry_id) true "alice" greeting services).stream;
  world = sample;
}

log_event-step_example :
    let m' = step from_str parse_uuid new_v4 worker in
    (m'.stream.pending ≡ [])
    × (m'.stream.fresh ≡ [])
    × (All
          (Recorded (sort_ids from_str worker.stream.fresh).events worker.world.db m'.world.db)
          (brings event)
        ⊎ ((m'.world.db ≡ sample.db)
            × ((failure : DbError) × ((process_events_batch parse_uuid new_v4
                    (sort_ids from_str worker.stream.fresh).events
                    sample).0
                  ≡ err failure))))
unfolding db_event
log_event-step_example =
    log_event-step plain_codec from_value entry_id from_str parse_uuid new_v4 "alice" greeting event
      "text:alice:bob:m1" services worker refl refl refl refl (omega arith) refl refl

-- Redis is gone for the PUBLISH.
abbrev cut_off : Backend
cut_off = record services { pubsub = record services.pubsub { outages = true ∷ [] } }

abbrev at_relay : Client plain_codec (backend from_value entry_id)
at_relay = record { services = cut_off; outbox = []; watching = [] }

receive-Fate_example :
    Fate plain_codec
      (backend from_value entry_id)
      (backend-Growth from_value entry_id)
      (backend-Laws from_value entry_id)
      "text:alice:m1:hello"
      "text:alice:m1:hello"
      greeting
      (log_event plain_codec (backend from_value entry_id) true "alice" greeting cut_off)
      cut_off
      (receive plain_codec (backend from_value entry_id) true "alice" "greeting" at_relay).services
unfolding plan
receive-Fate_example =
    receive-Fate plain_codec (backend from_value entry_id) (backend-Growth from_value entry_id)
      (backend-Laws from_value entry_id) true "alice" "greeting" "text:alice:m1:hello"
      "text:alice:m1:hello" at_relay (IncomingMessage.text "bob" "m1" "hello") greeting refl refl
      refl refl refl

-- The greeting, as it is read back from the store.
abbrev read_back : String → Option OutgoingMessage
read_back payload = if payload == "text:alice:m1:hello" then some greeting.outgoing else none

abbrev stored_greeting : Backend
stored_greeting =
    (receive plain_codec (backend read_back entry_id) true "alice" "greeting"
      (record { services = services; outbox = []; watching = [] })).services

open_session-receive_example :
    In "text:alice:m1:hello"
      (open_session plain_codec (backend read_back entry_id) "bob" "c2" stored_greeting).outbox
unfolding plan publish_message log_event xadd save_offline_message query insert_offline receive act
    deliver after_publish fetch_and_delete_offline_messages transaction announce add_connection sadd
    scard ◌>>=◌ db_event save_for_later user_channel presence_channel decode_rows delete_offline
    oldest_first select_offline take_offline presence_key
open_session-receive_example =
    open_session-receive read_back entry_id plain_codec plain_codec-IsTotal true "alice" "greeting"
      "c2" "text:alice:m1:hello" "text:alice:m1:hello"
      (record { services = services; outbox = []; watching = [] })
      (IncomingMessage.text "bob" "m1" "hello") greeting 0 stored_greeting (greeting.outgoing ∷ [])
      refl refl refl refl refl refl refl refl refl
      (IsKept-refl (backend read_back entry_id) stored_greeting) (refl, tt) refl
