-- ===== src/Api/Dialogs.antt =====
-- api/src/lib.rs: dialogs_handler, the peers of a user with the last message of each. The statement is
-- read as it is written: the last message of each pair of users, the messages not yet read beside it,
-- and the whole ordered by time.
pub mod Pairs
pub mod Listed
pub mod Typed
use invisible_backend.Prelude.{
  [], ◌∷◌, none, some, if◌then◌else◌, ◌==◌, map, ◌&&◌, String, List, ℕ, Option, Bool, retain, count,
  string_eq, ◌||◌, not, ltb, find,
}
use invisible_backend.Postgres.{
  ok, err, Result, Sql, DbError, type_mismatch, World, query, same_error, integer_out_of_range,
}
use invisible_backend.Prelude.Int.{pos, ℤ}
use invisible_backend.Postgres.Schema.{Message, Uuid, Database, ReadState}
use invisible_backend.Api.Messages.{Columns, is_between, is_later}
use invisible_backend.Postgres.Ordered.{order_by}
use invisible_backend.Api.ReadStates.{is_sent, text_of, is_state}
use invisible_backend.Models.{Claims}
use invisible_backend.Api.{Reply, json, database_error}

pub record DialogResponse : Type 0 where
  pub peer : String
  pub last_message_id : Option String
  pub last_message_content : Option String
  pub last_message_time : Option ℕ
  pub unread_count : ℤ

pub record DialogRow : Type 0 where
  pub peer : String
  pub last_message_id : Option Uuid
  pub last_message_content : Option String
  pub last_message_time : Option ℕ
  pub last_read_message_id : Option Uuid
  pub unread_count : Option ℤ

-- CASE WHEN sender_username = $1 THEN recipient_username ELSE sender_username END
abbrev pub peer_of : String → Message → String
peer_of username m =
    if m.sender_username == username then m.recipient_username else m.sender_username

-- WHERE sender_username = $1 OR recipient_username = $1
abbrev pub involves : String → Message → Bool
involves username m = m.sender_username == username || m.recipient_username == username

-- the same LEAST and the same GREATEST of sender and recipient
abbrev pub same_pair : Message → Message → Bool
same_pair m n = is_between m.sender_username m.recipient_username n

-- DISTINCT ON, over rows in its order: the first row of each pair
unfoldable pub distinct_on : List Message → List Message
distinct_on [] = []
distinct_on (m ∷ ms) = m ∷ retain (λ n. not (same_pair m n)) (distinct_on ms)

-- dialogs_with_last_message
unfoldable pub last_messages : String → Database → List Message
last_messages username db = distinct_on (order_by is_later (retain (involves username) db.messages))

-- COALESCE(…, 0)::integer
abbrev pub as_integer : ℕ → Result DbError ℤ
as_integer n = if ltb 2147483647 n then err integer_out_of_range else ok (pos n)

abbrev pub cell_of : Option ReadState → Option String
cell_of none = none
cell_of (some s) = some s.last_read_message_id

abbrev pub build_row :
    String
    → Message
    → Result DbError (Option Uuid)
    → Result DbError (Option Uuid)
    → Result DbError ℤ
    → Result DbError DialogRow
build_row username m (ok last) (ok last_read) (ok unread) = ok (record {
  peer = peer_of username m;
  last_message_id = last;
  last_message_content = m.content;
  last_message_time = some m.created_at;
  last_read_message_id = last_read;
  unread_count = some unread;
})
build_row username m (err e) _ _ = err e
build_row username m (ok last) (err e) _ = err e
build_row username m (ok last) (ok last_read) (err e) = err e

abbrev pub add_row :
    Result DbError DialogRow → Result DbError (List DialogRow) → Result DbError (List DialogRow)
add_row (ok row) (ok rows) = ok (row ∷ rows)
add_row (ok row) (err e) = err e
add_row (err e) _ = err e

abbrev pub beside :
    Database → Result DbError (List DialogRow) → Result DbError (List DialogRow × Database)
beside db (ok rows) = ok (rows, db)
beside db (err e) = err e

-- `r.unread_count.unwrap_or(0)`
abbrev pub unread_or_zero : Option ℤ → ℤ
unread_or_zero none = pos 0
unread_or_zero (some n) = n

module _ (format_uuid : Uuid → String) where
  abbrev pub dialog_response : DialogRow → DialogResponse
  dialog_response r = record {
    peer = r.peer;
    last_message_id = text_of format_uuid r.last_message_id;
    last_message_content = r.last_message_content;
    last_message_time = r.last_message_time;
    unread_count = unread_or_zero r.unread_count;
  }

  abbrev pub reply_dialogs : Result DbError (List DialogRow) → Reply (List DialogResponse)
  reply_dialogs (ok rows) = json 200 (map dialog_response rows)
  reply_dialogs (err e) = database_error e

module _ (columns : Columns) where
  -- the CASE of unread_counts
  abbrev pub unread_from : String → String → Option String → List Message → ℕ
  unread_from peer username none ms = count (is_sent peer username) ms
  unread_from peer username (some last_read) ms =
      count (λ m. is_sent peer username m && columns.is_greater m.id last_read) ms

  -- a column that may be NULL
  abbrev pub decode_nullable : Option String → Result DbError (Option Uuid)
  decode_nullable none = ok none
  decode_nullable (some cell) = elim (columns.decode_uuid cell) [
    | none ↦ err type_mismatch
    | some id ↦ ok (some id)
  ]

  abbrev pub dialog_row : String → Database → Message → Result DbError DialogRow
  dialog_row username db m =
      let peer = peer_of username m in
      let cell = cell_of (find (is_state username peer) db.dialog_read_states) in
      build_row username m (decode_nullable (some m.id)) (decode_nullable cell)
        (as_integer (unread_from peer username cell db.messages))

  unfoldable pub dialog_rows : String → Database → List Message → Result DbError (List DialogRow)
  dialog_rows username db [] = ok []
  dialog_rows username db (m ∷ ms) = add_row (dialog_row username db m) (dialog_rows username db ms)

  -- ORDER BY last_message_time DESC
  unfoldable pub select_dialogs : String → Sql (List DialogRow)
  select_dialogs username db =
      beside db (dialog_rows username db (order_by is_later (last_messages username db)))

  module _ (format_uuid : Uuid → String) where
    unfoldable pub dialogs_handler : Claims → World → Reply (List DialogResponse) × World
    dialogs_handler user w =
        let (r, w') = query same_error (select_dialogs user.sub) w in
        (reply_dialogs format_uuid r, w')
