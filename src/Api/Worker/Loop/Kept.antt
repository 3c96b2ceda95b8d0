-- ===== src/Api/Worker/Loop/Kept.antt =====
-- api/src/worker.rs: what becomes of the events of one reply.
use invisible_backend.Prelude.{[], ◌∷◌, inl, inr, ◌≡◌, String, Option, ℕ, List, All, ◌⊎◌, ap}
use invisible_backend.Postgres.{err, World, DbError}
use invisible_backend.Models.{DatabaseEvent}
use invisible_backend.Postgres.Schema.{Uuid}
use invisible_backend.Api.Worker.Loop.{
  process_key, Stream, StreamId, save_events, stream_name, sort_ids, ack_unparseable,
}
use invisible_backend.Api.Worker.History.{process_events_batch-undone}
use invisible_backend.Api.Worker.Rows.{process_events_batch-HasMessages, Recorded}
use invisible_backend.Api.Worker.Kept.{brings}
use invisible_backend.Api.Worker.Loop.Acked.{unread, process_key-pending}
use invisible_backend.Api.Worker.{process_events_batch}
use invisible_backend.Postgres.Rules.{Result-cases}

module _ (from_str : String → Option DatabaseEvent) (parse_uuid : String → Option Uuid)
    (new_v4 : ℕ → Uuid) where
  -- The history has a row for the message of each event, if it brings one.
  abbrev pub AreStored : List DatabaseEvent → World → World → Type 0
  AreStored es w w' = All (λ e. All (Recorded es w.db w'.db) (brings e)) es

  save_events-Outcome :
      (es : List DatabaseEvent) (ids : List String) (s : Stream) (w : World)
      → AreStored es w (save_events from_str parse_uuid new_v4 es ids s w).1
        ⊎ (((save_events from_str parse_uuid new_v4 es ids s w).1.db ≡ w.db)
            × ((failure : DbError) × ((process_events_batch parse_uuid new_v4 es w).0
                  ≡ err failure)))
  save_events-Outcome [] ids s w = inl tt
  save_events-Outcome (e ∷ es) ids s w =
      elim (Result-cases (process_events_batch parse_uuid new_v4 (e ∷ es) w).0) [
        | inl (u, done) ↦ inl (process_events_batch-HasMessages parse_uuid new_v4 (e ∷ es) w done).0
        | inr (failure, failed) ↦ inr (
          process_events_batch-undone parse_uuid new_v4 (e ∷ es) w failure failed,
          (failure, failed),
        )
      ]

  -- Where Redis answers, an entry that a reply brings is no longer pending, and no other entry leaves;
  -- if its event parses and brings a message, the history has a row for it: one with its id that was
  -- there before, or a new one that says what an event of the reply with its id says; or else the batch
  -- failed, no table has changed and the event is in neither. Read receipts are not spoken of.
  pub process_key-Outcome :
      (ids : List StreamId) (s : Stream) (w : World)
      → s.outages ≡ []
      → ((process_key from_str parse_uuid new_v4
            (record { key = stream_name; ids = ids })
            s
            w).0.pending
          ≡ unread ids s.pending)
        × (AreStored
              (sort_ids from_str ids).events
              w
              (process_key from_str parse_uuid new_v4
                (record { key = stream_name; ids = ids })
                s
                w).1
            ⊎ (((process_key from_str parse_uuid new_v4
                    (record { key = stream_name; ids = ids })
                    s
                    w).1.db
                  ≡ w.db)
                × ((failure : DbError) × ((process_events_batch parse_uuid new_v4
                        (sort_ids from_str ids).events
                        w).0
                      ≡ err failure))))
  unfolding process_key
  process_key-Outcome ids s w calm = (
    ap (λ t. t.pending) (process_key-pending from_str parse_uuid new_v4 ids s w calm),
    save_events-Outcome (sort_ids from_str ids).events (sort_ids from_str ids).parseable_ids
        (ack_unparseable (sort_ids from_str ids).unparseable_ids s) w,
  )
