-- ===== src/Api/MarkRead.antt =====
-- api/src/lib.rs: mark_read_handler, which notes that a user has read one message of a peer, or all of
-- them. The upsert of a read state is the one of the history worker.
pub mod Typed
use invisible_backend.Prelude.{
  [], ◌∷◌, none, some, if◌then◌else◌, ◌==◌, map, Option, String, ℕ, Bool, find, string_eq, List,
  retain,
}
use invisible_backend.Postgres.{
  ok, err, pure, throw, Sql, type_mismatch, or_default, query, World, Result, DbError,
}
use invisible_backend.Postgres.Schema.{Message, Uuid, Database}
use invisible_backend.Api.Messages.{Columns, is_later, with_db}
use invisible_backend.Api.{Handler, database_error, Reply, respond}
use invisible_backend.Postgres.Ordered.{order_by}
use invisible_backend.Models.{Claims}
use invisible_backend.Api.ReadStates.{is_sent, some_of}
use invisible_backend.Api.{text}
use invisible_backend.Postgres.{◌>>=◌, ◌>>◌, pure, throw, Exec, DbError}
use invisible_backend.Api.Worker.{save_read_state}

abbrev pub message_sender : Option Message → Option String
message_sender none = none
message_sender (some m) = some m.sender_username

-- UPDATE messages SET read_at = NOW() WHERE … AND read_at IS NULL, on one row
abbrev pub mark_null : Option ℕ → ℕ → Message → Message
mark_null none now m = record m { read_at = some now }
mark_null (some at) now m = m

abbrev pub read_now : (Message → Bool) → ℕ → Message → Message
read_now p now m = if p m then mark_null m.read_at now m else m

unfoldable pub set_read : (Message → Bool) → Sql (Unit {0})
set_read p db = ok (tt, record db { messages = map (read_now p db.now) db.messages })

abbrev pub set_read_at : Option String → Sql (Unit {0})
set_read_at none db = err type_mismatch
set_read_at (some id) db = set_read (λ m. m.id == id) db

abbrev pub check_sender : String → Option String → Exec (Reply (Unit {0})) (Unit {0})
check_sender peer none = throw (text 404 "Message not found")
check_sender peer (some sender) =
    if sender == peer then pure tt else throw (text 400 "Message is not from this peer")

-- `.execute(&state.db).await.ok()`
abbrev pub put_up_with : Sql (Unit {0}) → Exec (Reply (Unit {0})) (Unit {0})
put_up_with s w = or_default tt (query database_error s w)

abbrev pub select_sender_at : Option String → Sql (Option String)
select_sender_at none db = err type_mismatch
select_sender_at (some id) db = ok (message_sender (find (λ m. m.id == id) db.messages), db)

module _ (columns : Columns) where
  abbrev pub latest_id : Database → List Message → Result DbError (Option Uuid × Database)
  latest_id db [] = ok (none, db)
  latest_id db (m ∷ ms) = with_db db (some_of (columns.decode_uuid m.id))

  -- SELECT id FROM messages WHERE … ORDER BY created_at DESC LIMIT 1
  unfoldable pub select_latest : String → String → Sql (Option Uuid)
  select_latest peer username db =
      latest_id db (order_by is_later (retain (is_sent peer username) db.messages))

-- `uuid_cell` is what PostgreSQL stores for a UUID in a VARCHAR column.
module _ (columns : Columns) (uuid_cell : Uuid → String) where
  -- a message id that is a UUID
  unfoldable pub mark_one : String → String → Uuid → Handler (Unit {0})
  mark_one username peer id = do
    sender ← query database_error (select_sender_at (columns.uuid_operand id))
    check_sender peer sender
    query database_error (save_read_state username peer (uuid_cell id))
    put_up_with (set_read_at (columns.uuid_operand id))
    pure (text 200 "Marked as read")

  abbrev pub mark_up_to : String → String → Option Uuid → Handler (Unit {0})
  mark_up_to username peer none = pure (text 200 "No messages to mark as read")
  mark_up_to username peer (some id) = do
    query database_error (save_read_state username peer (uuid_cell id))
    put_up_with (set_read (is_sent peer username))
    pure (text 200 "Marked all as read")

  -- no message id
  unfoldable pub mark_latest : String → String → Handler (Unit {0})
  mark_latest username peer = do
    last_msg ← λ w. or_default none (query database_error (select_latest columns peer username) w)
    mark_up_to username peer last_msg

  module _ (parse_uuid : String → Option Uuid) where
    abbrev pub mark_parsed : String → String → Option Uuid → Handler (Unit {0})
    mark_parsed username peer none = throw (text 400 "Invalid message ID format")
    mark_parsed username peer (some id) = mark_one username peer id

    abbrev pub mark_asked : String → String → Option String → Handler (Unit {0})
    mark_asked username peer none = mark_latest username peer
    mark_asked username peer (some message_id) = mark_parsed username peer (parse_uuid message_id)

    unfoldable pub mark_read_handler :
        Claims → String → Option String → World → Reply (Unit {0}) × World
    mark_read_handler user peer message_id = respond (mark_asked user.sub peer message_id)
