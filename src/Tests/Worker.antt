-- ===== src/Tests/Worker.antt =====
-- api/src/worker.rs on the sample data.
use invisible_backend.Postgres.Schema.{has_user, has_message}
use invisible_backend.Prelude.{◌≡◌, refl, some, none, All, [], ◌∷◌, List, ℕ, ◌+◌, map}
use invisible_backend.Models.{DatabaseEvent}
use invisible_backend.Postgres.{transaction, World, ok}
use invisible_backend.Api.Worker.{
  process_events_batch, save_batch, collect, insert_messages, insert_message, save_encrypted,
  save_receipts, ciphertexts_data, insert_ciphertexts, insert_ciphertext, select_senders, mark_all,
  save_read_state,
}
use invisible_backend.Api.Worker.History.{
  process_events_batch-AddsMessages, process_events_batch_idempotent,
}
use invisible_backend.Api.Worker.Kept.{brings}
use invisible_backend.Api.Worker.Rows.{Recorded, AddsRows, IsRow, process_events_batch-HasMessages}
use invisible_backend.Api.Worker.Stored.{AddsMessages}
use invisible_backend.Tests.{sample, parse_uuid}
use invisible_backend.Prelude.Int.{pos}

abbrev events : List DatabaseEvent
events =
    DatabaseEvent.new_message "m1" "alice" "bob" "text" (some "hello") none none none
    ∷ DatabaseEvent.new_encrypted_message "m2" "bob" "alice"
        (record { device_id = "one"; signal_type = pos 1; ciphertext = "c" } ∷ [])
    ∷ DatabaseEvent.read_receipt "m1" "bob"
    ∷ []

abbrev fresh : ℕ → ℕ
fresh i = 900 + i

abbrev stored : World
stored = (process_events_batch parse_uuid fresh events sample).1

process_events_batch-HasMessages_example :
    All (λ e. All (Recorded events sample.db stored.db) (brings e)) events
    × AddsRows (IsRow events) sample.db stored.db
unfolding process_events_batch save_batch collect insert_messages insert_message save_encrypted
    save_receipts ciphertexts_data insert_ciphertexts insert_ciphertext select_senders mark_all
    save_read_state transaction has_message has_user
process_events_batch-HasMessages_example =
    process_events_batch-HasMessages parse_uuid fresh events sample refl

process_events_batch-AddsMessages_example : AddsMessages sample.db stored.db
process_events_batch-AddsMessages_example =
    process_events_batch-AddsMessages parse_uuid fresh events sample

-- other UUIDs than the first run has made up
abbrev later : ℕ → ℕ
later i = 950 + i

process_events_batch_idempotent_example :
    (process_events_batch parse_uuid later events stored).1.db.messages ≡ stored.db.messages
unfolding process_events_batch save_batch collect insert_messages insert_message save_encrypted
    save_receipts ciphertexts_data insert_ciphertexts insert_ciphertext select_senders mark_all
    save_read_state transaction has_message has_user
process_events_batch_idempotent_example =
    process_events_batch_idempotent parse_uuid fresh later events sample stored refl refl

-- The second run commits too, and stores the ciphertext a second time.
stored_twice :
    ((process_events_batch parse_uuid later events stored).0 ≡ ok tt)
    × (map
          (λ c. c.id)
          (process_events_batch parse_uuid later events stored).1.db.message_ciphertexts
        ≡ 900 ∷ 950 ∷ [])
unfolding process_events_batch save_batch collect insert_messages insert_message save_encrypted
    save_receipts ciphertexts_data insert_ciphertexts insert_ciphertext select_senders mark_all
    save_read_state transaction has_message has_user
stored_twice = (refl, refl)
