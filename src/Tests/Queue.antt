-- ===== src/Tests/Queue.antt =====
-- shared/src/repository.rs on a queue with a payload that cannot be read.
use invisible_backend.Prelude.{
  ℕ, String, [], ◌∷◌, Option, none, some, ◌==◌, string_eq, if◌then◌else◌, ◌≡◌, refl,
}
use invisible_backend.Models.{OutgoingMessage}
use invisible_backend.Postgres.{World, query, ◌>>=◌, ok, transaction}
use invisible_backend.Postgres.Schema.{OfflineMessage}
use invisible_backend.Repository.Offline.{
  fetch_and_delete_offline_messages, take_offline, select_offline, delete_offline, decode_rows,
  oldest_first,
}
use invisible_backend.Repository.Offline.Taken.{Fetched, fetch_and_delete_offline_messages-Fetched}
use invisible_backend.Tests.{sample, sample_db}

abbrev from_value : String → Option OutgoingMessage
from_value p =
    if p == "hello"
    then some (OutgoingMessage.text "bob" "m1" "hello")
    else if p == "typing"
    then some (OutgoingMessage.typing "bob")
    else none

abbrev waiting : ℕ → String → String → ℕ → OfflineMessage
waiting id user payload at = record { id = id; to_user = user; payload = payload; created_at = at }

abbrev queued : World
queued = record sample {
  db = record sample_db {
    offline_messages =
        waiting 1 "alice" "hello" 6
        ∷ waiting 2 "alice" "broken" 2
        ∷ waiting 3 "bob" "hello" 1
        ∷ waiting 4 "alice" "typing" 5
        ∷ [];
  };
}

fetch_and_delete_offline_messages-Fetched_example :
    let (r, w') = fetch_and_delete_offline_messages from_value "alice" queued in
    Fetched from_value "alice" r queued.db w'.db
fetch_and_delete_offline_messages-Fetched_example =
    fetch_and_delete_offline_messages-Fetched from_value "alice" queued
      (refl, (refl, (refl, (refl, tt))))

-- Alice gets her two readable messages, the older one first; the broken one and Bob's stay.
fetch_of_alice :
    let (r, w') = fetch_and_delete_offline_messages from_value "alice" queued in
    (r ≡ ok (OutgoingMessage.typing "bob" ∷ OutgoingMessage.text "bob" "m1" "hello" ∷ []))
    × (w'.db.offline_messages ≡ waiting 2 "alice" "broken" 2 ∷ waiting 3 "bob" "hello" 1 ∷ [])
unfolding fetch_and_delete_offline_messages take_offline select_offline delete_offline decode_rows
    oldest_first transaction query ◌>>=◌
fetch_of_alice = (refl, refl)
