-- ===== src/Api/Messages.antt =====
-- api/src/lib.rs: messages_handler, a page of the history between two users. The columns messages.id
-- and dialog_read_states.last_read_message_id are VARCHAR, and the handlers read them as UUIDs and
-- compare them with UUIDs; what sqlx and PostgreSQL make of that is the parameter `columns`.
pub mod Page
pub mod Typed
use invisible_backend.Prelude.{
  ℕ, String, Bool, ◌&&◌, ◌||◌, List, [], ◌∷◌, map, Option, none, some, retain, leb, ◌==◌, string_eq,
  ◌≡◌,
}
use invisible_backend.Prelude.Int.{ℤ, pos, min_ℤ}
use invisible_backend.Models.{Claims}
use invisible_backend.Api.{Reply, json, database_error}
use invisible_backend.Postgres.{
  World, DbError, Result, ok, err, Sql, query, same_error, type_mismatch,
}
use invisible_backend.Postgres.Ordered.{order_by, limited}
use invisible_backend.Postgres.Schema.{Database, Uuid, Message}

-- What a VARCHAR cell is read as, where a UUID is asked for; what a UUID is as an operand beside a
-- VARCHAR column, where there is such an operator; and the order of texts.
pub record Columns : Type 0 where
  pub decode_uuid : String → Option Uuid
  pub uuid_operand : Uuid → Option String
  pub is_greater : String → String → Bool

-- sqlx reads a UUID only from a UUID column, and PostgreSQL compares a VARCHAR with no UUID.
pub record IsTyped (columns : Columns) : Type 0 where
  pub no_decoding : (cell : String) → columns.decode_uuid cell ≡ none
  pub no_operator : (id : Uuid) → columns.uuid_operand id ≡ none

pub record MessagesQuery : Type 0 where
  pub after : Option String
  pub limit : Option ℤ

pub record MessageResponse : Type 0 where
  pub id : String
  pub from : String
  pub content : Option String
  pub message_type : String
  pub created_at : ℕ

pub record MessageRow : Type 0 where
  pub id : Uuid
  pub sender_username : String
  pub content : Option String
  pub message_type : String
  pub created_at : ℕ

-- ORDER BY created_at ASC, and DESC
abbrev pub is_earlier : Message → Message → Bool
is_earlier m n = leb m.created_at n.created_at

abbrev pub is_later : Message → Message → Bool
is_later m n = leb n.created_at m.created_at

-- (sender_username = $1 AND recipient_username = $2) OR (sender_username = $2 AND recipient_username = $1)
abbrev pub is_between : String → String → Message → Bool
is_between a b m =
    (m.sender_username == a && m.recipient_username == b)
    || (m.sender_username == b && m.recipient_username == a)

-- `params.limit.unwrap_or(50).min(100)`
abbrev pub limit_or_default : Option ℤ → ℤ
limit_or_default none = min_ℤ (pos 50) (pos 100)
limit_or_default (some limit) = min_ℤ limit (pos 100)

abbrev pub with_db : {A : Type 0} → Database → Option A → Result DbError (A × Database)
with_db db none = err type_mismatch
with_db db (some a) = ok (a, db)

abbrev pub on_rows :
    {A : Type 0}
    → Database
    → (List Message → Option A)
    → Result DbError (List Message)
    → Result DbError (A × Database)
on_rows db f (err e) = err e
on_rows db f (ok rows) = with_db db (f rows)

abbrev pub cons : {A : Type 0} → Option A → Option (List A) → Option (List A)
cons (some a) (some rest) = some (a ∷ rest)
cons _ _ = none

-- `params.after.as_ref().and_then(|id| Uuid::parse_str(id).ok())`
abbrev pub after_id : (String → Option Uuid) → Option String → Option Uuid
after_id parse_uuid none = none
after_id parse_uuid (some id) = parse_uuid id

module _ (format_uuid : Uuid → String) where
  abbrev pub message_response : MessageRow → MessageResponse
  message_response r = record {
    id = format_uuid r.id;
    from = r.sender_username;
    content = r.content;
    message_type = r.message_type;
    created_at = r.created_at;
  }

  abbrev pub reply_messages : Result DbError (List MessageRow) → Reply (List MessageResponse)
  reply_messages (ok rows) = json 200 (map message_response rows)
  reply_messages (err e) = database_error e

module _ (columns : Columns) where
  abbrev pub read_row : Message → Option Uuid → Option MessageRow
  read_row m none = none
  read_row m (some id) = some (record {
    id = id;
    sender_username = m.sender_username;
    content = m.content;
    message_type = m.message_type;
    created_at = m.created_at;
  })

  -- `fetch_all` fails where a row does
  unfoldable pub read_rows : List Message → Option (List MessageRow)
  read_rows [] = some []
  read_rows (m ∷ ms) = cons (read_row m (columns.decode_uuid m.id)) (read_rows ms)

  abbrev pub select_after_operand : String → String → Option String → ℤ → Sql (List MessageRow)
  select_after_operand peer username none limit db = err type_mismatch
  select_after_operand peer username (some after) limit db = on_rows db read_rows (
      limited limit (
        order_by is_earlier
          (retain (λ m. is_between peer username m && columns.is_greater m.id after) db.messages)))

  abbrev pub select_messages : String → String → Option Uuid → ℤ → Sql (List MessageRow)
  select_messages peer username (some after) limit db =
      select_after_operand peer username (columns.uuid_operand after) limit db
  select_messages peer username none limit db =
      on_rows db read_rows
        (limited limit (order_by is_later (retain (is_between peer username) db.messages)))

  module _ (format_uuid : Uuid → String) where
    module _ (parse_uuid : String → Option Uuid) where
      unfoldable pub messages_handler :
          Claims → String → MessagesQuery → World → Reply (List MessageResponse) × World
      messages_handler user peer params w =
          let (r, w') =
            query same_error
              (select_messages peer user.sub (after_id parse_uuid params.after)
                (limit_or_default params.limit))
              w in
          (reply_messages format_uuid r, w')
