-- ===== src/Repository/Offline.antt =====
-- shared/src/repository.rs, PgOfflineMessageRepository: the messages that wait for a user. The parser of
-- a stored payload is the parameter `from_value`.
pub mod Rows
pub mod Taken
use invisible_backend.Prelude.{
  ℕ, String, List, [], ◌∷◌, ◌++◌, Option, none, some, ◌+◌, ◌==◌, nat_eq, string_eq, any, not,
  retain, leb, if◌then◌else◌,
}
use invisible_backend.Models.{OutgoingMessage}
use invisible_backend.Postgres.{
  DbError, ok, Sql, Exec, query, ◌>>=◌, ◌>>◌, pure, transaction, same_error, unless_empty,
}
use invisible_backend.Postgres.Schema.{OfflineMessage}

-- INSERT INTO offline_messages (to_user, payload) VALUES ($1, $2)
unfoldable pub insert_offline : String → String → Sql (Unit {0})
insert_offline to_user payload db = ok (
  tt,
  record db {
    offline_messages =
        db.offline_messages
        ++ record { id = db.next_id; to_user = to_user; payload = payload; created_at = db.now }
          ∷ [];
    next_id = db.next_id + 1;
  },
)

unfoldable pub save_offline_message : String → String → Exec DbError (Unit {0})
save_offline_message to_user payload = query same_error (insert_offline to_user payload)

-- ORDER BY created_at ASC
abbrev pub insert_oldest : OfflineMessage → List OfflineMessage → List OfflineMessage
insert_oldest m [] = m ∷ []
insert_oldest m (n ∷ ns) =
    if leb m.created_at n.created_at then m ∷ n ∷ ns else n ∷ insert_oldest m ns

unfoldable pub oldest_first : List OfflineMessage → List OfflineMessage
oldest_first [] = []
oldest_first (m ∷ ms) = insert_oldest m (oldest_first ms)

-- SELECT id, payload FROM offline_messages WHERE to_user = $1 ORDER BY created_at ASC
unfoldable pub select_offline : String → Sql (List OfflineMessage)
select_offline user_id db =
    ok (oldest_first (retain (λ m. m.to_user == user_id) db.offline_messages), db)

-- DELETE FROM offline_messages WHERE id = ANY($1)
unfoldable pub delete_offline : List ℕ → Sql (Unit {0})
delete_offline ids db = ok (
  tt,
  record db {
    offline_messages = retain (λ m. not (any (λ id. id == m.id) ids)) db.offline_messages;
  },
)

module _ (from_value : String → Option OutgoingMessage) where
  -- `decoded` and `ids_to_delete` after `for row in messages`
  unfoldable pub decode_rows : List OfflineMessage → List OutgoingMessage × List ℕ
  decode_rows [] = ([], [])
  decode_rows (row ∷ rows) =
      let (decoded, ids_to_delete) = decode_rows rows in
      elim (from_value row.payload) [
        | none ↦ (decoded, ids_to_delete)
        | some msg ↦ (msg ∷ decoded, row.id ∷ ids_to_delete)
      ]

  unfoldable pub take_offline : String → Exec DbError (List OutgoingMessage)
  take_offline user_id = do
    rows ← query same_error (select_offline user_id)
    let (decoded, ids_to_delete) = decode_rows rows
    unless_empty ids_to_delete (query same_error (delete_offline ids_to_delete))
    pure decoded

  unfoldable pub fetch_and_delete_offline_messages : String → Exec DbError (List OutgoingMessage)
  fetch_and_delete_offline_messages user_id = transaction same_error (take_offline user_id)
