-- ===== src/Api/ReadStates.antt =====
-- api/src/lib.rs: get_read_state_handler, how far a user has read the messages of a peer.
pub mod Typed
use Prim.Native.Nat.{◌%◌}
use invisible_backend.Prelude.{
  none, some, if◌then◌else◌, ◌==◌, ◌&&◌, String, Option, ℕ, Bool, count, find, string_eq, ltb, ◌-◌,
}
use invisible_backend.Postgres.{
  ok, err, Result, World, Sql, DbError, type_mismatch, query, same_error,
}
use invisible_backend.Prelude.Int.{pos, negsuc, ℤ}
use invisible_backend.Postgres.Schema.{Uuid, Message, ReadState, Database}
use invisible_backend.Api.Messages.{Columns, with_db}
use invisible_backend.Models.{Claims}
use invisible_backend.Api.{Reply, database_error, json}

pub record ReadStateResponse : Type 0 where
  pub peer : String
  pub last_read_message_id : Option String
  pub unread_count : ℤ
  pub updated_at : Option ℕ

pub record ReadStateRow : Type 0 where
  pub last_read_message_id : Option Uuid
  pub unread_count : Option ℤ
  pub updated_at : Option ℕ

-- `unread as i32`
unfoldable pub as_i32 : ℕ → ℤ
as_i32 n =
    let low = n % 4294967296 in if ltb low 2147483648 then pos low else negsuc (4294967295 - low)

-- sender_username = $1 AND recipient_username = $2
abbrev pub is_sent : String → String → Message → Bool
is_sent sender recipient m = m.sender_username == sender && m.recipient_username == recipient

-- `.unwrap_or(a)`
abbrev pub unwrap_or : {E A : Type 0} → A → Result E A × World → A × World
unwrap_or a (ok b, w) = (b, w)
unwrap_or a (err e, w) = (a, w)

abbrev pub some_of : {A : Type 0} → Option A → Option (Option A)
some_of none = none
some_of (some a) = some (some a)

-- SELECT COUNT(*) FROM messages WHERE sender_username = $1 AND recipient_username = $2
unfoldable pub count_from : String → String → Sql ℕ
count_from peer username db = ok (count (is_sent peer username) db.messages, db)

abbrev pub is_state : String → String → ReadState → Bool
is_state user peer s = s.user_username == user && s.peer_username == peer

abbrev pub last_read_of : Option ReadStateRow → Option Uuid
last_read_of none = none
last_read_of (some row) = row.last_read_message_id

abbrev pub updated_at_of : Option ReadStateRow → Option ℕ
updated_at_of none = none
updated_at_of (some row) = row.updated_at

abbrev pub text_of : (Uuid → String) → Option Uuid → Option String
text_of format_uuid none = none
text_of format_uuid (some id) = some (format_uuid id)

module _ (columns : Columns) where
  abbrev pub state_row : ReadState → Option Uuid → Option ReadStateRow
  state_row s none = none
  state_row s (some last_read) = some (record {
    last_read_message_id = some last_read;
    unread_count = some s.unread_count;
    updated_at = some s.updated_at;
  })

  abbrev pub found_state :
      Database → Option ReadState → Result DbError (Option ReadStateRow × Database)
  found_state db none = ok (none, db)
  found_state db (some s) =
      with_db db (some_of (state_row s (columns.decode_uuid s.last_read_message_id)))

  -- SELECT … FROM dialog_read_states WHERE user_username = $1 AND peer_username = $2
  unfoldable pub select_read_state : String → String → Sql (Option ReadStateRow)
  select_read_state username peer db =
      found_state db (find (is_state username peer) db.dialog_read_states)

  abbrev pub count_beyond : String → String → Option String → Sql ℕ
  count_beyond peer username none db = err type_mismatch
  count_beyond peer username (some last_read) db =
      ok (count (λ m. is_sent peer username m && columns.is_greater m.id last_read) db.messages, db)

  -- the same with AND id > $3
  unfoldable pub count_after : String → String → Uuid → Sql ℕ
  count_after peer username last_read = count_beyond peer username (columns.uuid_operand last_read)

  abbrev pub unread_sql : String → String → Option Uuid → Sql ℕ
  unread_sql peer username none = count_from peer username
  unread_sql peer username (some last_read) = count_after peer username last_read

  abbrev pub reply_read_state :
      (Uuid → String)
      → String
      → String
      → Result DbError (Option ReadStateRow)
      → World
      → Reply ReadStateResponse × World
  reply_read_state format_uuid username peer (err e) w = (database_error e, w)
  reply_read_state format_uuid username peer (ok row) w =
      let (unread, w') =
        unwrap_or 0 (query same_error (unread_sql peer username (last_read_of row)) w) in
      (
        json 200 (record {
          peer = peer;
          last_read_message_id = text_of format_uuid (last_read_of row);
          unread_count = as_i32 unread;
          updated_at = updated_at_of row;
        }),
        w',
      )

  unfoldable pub get_read_state_handler :
      (Uuid → String) → Claims → String → World → Reply ReadStateResponse × World
  get_read_state_handler format_uuid user peer w =
      let (r, w') = query same_error (select_read_state user.sub peer) w in
      reply_read_state format_uuid user.sub peer r w'
