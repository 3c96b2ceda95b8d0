-- ===== src/Api/MarkRead/Typed.antt =====
-- api/src/lib.rs, mark_read_handler over the VARCHAR columns of the migrations.
use invisible_backend.Api.{text, Reply, database_error}
use invisible_backend.Postgres.{ok, err, query, ◌>>=◌, World, or_default, Sql, type_mismatch}
use invisible_backend.Prelude.{
  none, some, ◌≡◌, String, Option, arith, [], ◌∷◌, inl, inr, refl, List, ◌⊎◌, retain, Option-cases,
}
use invisible_backend.Api.Messages.{Columns, IsTyped, is_later}
use invisible_backend.Postgres.Schema.{Uuid, Message, Database}
use invisible_backend.Api.MarkRead.{
  mark_one, mark_latest, select_latest, mark_read_handler, latest_id,
}
use invisible_backend.Postgres.Ordered.{order_by}
use invisible_backend.Models.{Claims}
use invisible_backend.Api.ReadStates.{is_sent}

-- The answer to every request, where sqlx and PostgreSQL keep UUID and VARCHAR apart.
abbrev pub typed_reply : (String → Option Uuid) → Option String → Reply (Unit {0})
typed_reply parse_uuid none = text 200 "No messages to mark as read"
typed_reply parse_uuid (some message_id) = elim (parse_uuid message_id) [
  | none ↦ text 400 "Invalid message ID format"
  | some id ↦ text 500 "Database error"
]

module _ (columns : Columns) (typed : IsTyped columns) (uuid_cell : Uuid → String)
    (user peer : String) where
  latest_id-typed :
      (ms : List Message) (db : Database)
      → (latest_id columns db ms ≡ ok (none, db)) ⊎ (latest_id columns db ms ≡ err type_mismatch)
  latest_id-typed [] db = inl refl
  latest_id-typed (m ∷ ms) db = inr (ground (arith, typed.no_decoding m.id))

  latest_none :
      (s : Sql (Option Uuid)) (w : World)
      → (s w.db ≡ ok (none, w.db)) ⊎ (s w.db ≡ err type_mismatch)
      → ((or_default none (query (database_error {A = Unit {0}}) s w)).0 ≡ ok none)
        × ((or_default none (query (database_error {A = Unit {0}}) s w)).1.db ≡ w.db)
  unfolding query
  latest_none s w (inl found) = ground arith
  latest_none s w (inr refused) = ground arith

  mark_one-typed :
      (id : Uuid) (w : World)
      → ((mark_one columns uuid_cell user peer id w).0 ≡ err (text 500 "Database error"))
        × ((mark_one columns uuid_cell user peer id w).1.db ≡ w.db)
  unfolding mark_one query ◌>>=◌
  mark_one-typed id w = ground (arith, typed.no_operator id)

  mark_latest-typed :
      (w : World)
      → ((mark_latest columns uuid_cell user peer w).0
          ≡ ok (text 200 "No messages to mark as read"))
        × ((mark_latest columns uuid_cell user peer w).1.db ≡ w.db)
  unfolding mark_latest ◌>>=◌ select_latest
  mark_latest-typed w =
      let (nothing_read, same) =
        latest_none (select_latest columns peer user) w
          (latest_id-typed (order_by is_later (retain (is_sent peer user) w.db.messages)) w.db) in
      ground arith

-- Where sqlx and PostgreSQL keep UUID and VARCHAR apart, no request marks anything: one for a message
-- is refused, and one for all messages is told that there are none, whatever the tables hold.
pub mark_read_handler-IsTyped :
    (columns : Columns) (uuid_cell : Uuid → String) (parse_uuid : String → Option Uuid)
    (user : Claims) (peer : String) (message_id : Option String) (w : World)
    → IsTyped columns
    → ((mark_read_handler columns uuid_cell parse_uuid user peer message_id w).0
        ≡ typed_reply parse_uuid message_id)
      × ((mark_read_handler columns uuid_cell parse_uuid user peer message_id w).1.db ≡ w.db)
unfolding mark_read_handler
mark_read_handler-IsTyped columns uuid_cell parse_uuid user peer none w typed =
    let latest = mark_latest-typed columns typed uuid_cell user.sub peer w in ground arith
mark_read_handler-IsTyped columns uuid_cell parse_uuid user peer (some message_id) w typed =
    elim (Option-cases (parse_uuid message_id)) [
      | inl unread ↦ ground arith
      | inr (id, parsed) ↦
          let one = mark_one-typed columns typed uuid_cell user.sub peer id w in ground arith
    ]
