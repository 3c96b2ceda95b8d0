-- ===== src/Api/Worker.antt =====
-- api/src/worker.rs, process_events_batch: a batch of history events becomes rows in one transaction.
-- A UUID is read by the parameter `parse_uuid`; `new_v4 i` is the i-th UUID that the batch makes up.
mod Collected
pub mod Stored
pub mod Kept
pub mod History
pub mod Rows
pub mod Loop
unfoldable pub use Collected.*
use invisible_backend.Prelude.{
  ℕ, suc, ◌+◌, String, ◌&&◌, List, [], ◌∷◌, ◌++◌, map, Option, none, some, any, find, retain, ◌==◌,
  string_eq, nat_eq, if◌then◌else◌,
}
use invisible_backend.Prelude.Int.{pos}
use invisible_backend.Models.{DeviceCiphertext, DatabaseEvent}
use invisible_backend.Postgres.{
  DbError, Result, ok, err, Sql, Exec, query, ◌>>=◌, ◌>>◌, pure, transaction, unique_violation,
  foreign_key_violation, same_error, unless_empty,
}
use invisible_backend.Postgres.Schema.{
  Database, Uuid, Message, MessageCiphertext, ReadState, has_user, has_message,
}
use invisible_backend.Postgres.Tables.{upsert, pair_eq}

-- one row of INSERT INTO messages … ON CONFLICT (id) DO NOTHING
unfoldable pub insert_message : NewMessage → Database → Result DbError Database
insert_message m db =
    if has_message db m.id
    then ok db
    else if has_user db m.sender && has_user db m.recipient
    then ok (record db { messages = db.messages ++ message_row m db.now ∷ [] })
    else err foreign_key_violation

abbrev pub and_then {ℓ} :
    {A B : Type ℓ} → Result DbError A → (A → Result DbError B) → Result DbError B
and_then (ok a) f = f a
and_then (err e) f = err e

unfoldable pub insert_messages : List NewMessage → Sql (Unit {0})
insert_messages [] db = ok (tt, db)
insert_messages (m ∷ ms) db = and_then (insert_message m db) (insert_messages ms)

-- one row of INSERT INTO message_ciphertexts
unfoldable pub insert_ciphertext : MessageCiphertext → Database → Result DbError Database
insert_ciphertext c db =
    if any (λ d. d.id == c.id) db.message_ciphertexts
    then err unique_violation
    else if has_message db c.message_id
    then ok (record db { message_ciphertexts = db.message_ciphertexts ++ c ∷ [] })
    else err foreign_key_violation

unfoldable pub insert_ciphertexts : List MessageCiphertext → Sql (Unit {0})
insert_ciphertexts [] db = ok (tt, db)
insert_ciphertexts (c ∷ cs) db = and_then (insert_ciphertext c db) (insert_ciphertexts cs)

-- SELECT id, sender_username FROM messages WHERE id = ANY($1), as the map that the batch collects
unfoldable pub select_senders : List String → Sql (List (String × String))
select_senders ids db = ok (
  map (λ m. (m.id, m.sender_username)) (retain (λ m. any (λ id. id == m.id) ids) db.messages),
  db,
)

abbrev pub state_owner : ReadState → String × String
state_owner s = (s.user_username, s.peer_username)

abbrev pub read_state_row : String → String → String → ℕ → ReadState
read_state_row user peer message_id now = record {
  user_username = user;
  peer_username = peer;
  last_read_message_id = message_id;
  unread_count = pos 0;
  updated_at = now;
}

-- INSERT INTO dialog_read_states … ON CONFLICT (user_username, peer_username) DO UPDATE
unfoldable pub save_read_state : String → String → String → Sql (Unit {0})
save_read_state user peer message_id db =
    if has_user db user && has_user db peer
    then ok (
      tt,
      record db {
        dialog_read_states =
            upsert state_owner (read_state_row user peer message_id db.now) db.dialog_read_states;
      },
    )
    else err foreign_key_violation

abbrev pub sender_of : String → List (String × String) → Option (String × String)
sender_of id = find (λ m. m.0 == id)

abbrev pub mark_found : Receipt → Option (String × String) → Exec DbError (Unit {0})
mark_found r none = pure tt
mark_found r (some m) = query same_error (save_read_state r.reader m.1 r.message_id)

-- `for (message_id, reader) in read_receipts`
unfoldable pub mark_all : List (String × String) → List Receipt → Exec DbError (Unit {0})
mark_all senders [] = pure tt
mark_all senders (r ∷ rs) = do mark_found r (sender_of r.message_id senders); mark_all senders rs

unfoldable pub save_receipts : List Receipt → Exec DbError (Unit {0})
save_receipts rs = unless_empty rs (do
  senders ← query same_error (select_senders (map (λ r. r.message_id) rs))
  mark_all senders rs)

module _ (parse_uuid : String → Option Uuid) (new_v4 : ℕ → Uuid) where
  -- the ciphertexts of one message whose device id is a UUID; `i` counts the UUIDs made up so far
  abbrev pub ciphertexts_of : String → ℕ → List DeviceCiphertext → List MessageCiphertext × ℕ
  ciphertexts_of id i [] = ([], i)
  ciphertexts_of id i (ct ∷ cts) = elim (parse_uuid ct.device_id) [
    | none ↦ ciphertexts_of id i cts
    | some device ↦
        let (rest, j) = ciphertexts_of id (suc i) cts in
        (
          record {
            id = new_v4 i;
            message_id = id;
            device_id = device;
            ciphertext = ct.ciphertext;
            signal_type = ct.signal_type;
          }
              ∷ rest,
          j,
        )
  ]

  unfoldable pub ciphertexts_data : ℕ → List EncryptedMessage → List MessageCiphertext
  ciphertexts_data i [] = []
  ciphertexts_data i (m ∷ ms) =
      let (here, j) = ciphertexts_of m.id i m.ciphertexts in here ++ ciphertexts_data j ms

  unfoldable pub save_encrypted : List EncryptedMessage → Exec DbError (Unit {0})
  save_encrypted ms = unless_empty ms (do
    query same_error (insert_messages (map as_message ms))
    unless_empty (ciphertexts_data 0 ms)
        (query same_error (insert_ciphertexts (ciphertexts_data 0 ms))))

  -- between `begin` and `commit`
  unfoldable pub save_batch : Batch → Exec DbError (Unit {0})
  save_batch b = do
    unless_empty b.new_messages (query same_error (insert_messages b.new_messages))
    save_encrypted b.encrypted_messages
    save_receipts b.read_receipts

  unfoldable pub process_events_batch : List DatabaseEvent → Exec DbError (Unit {0})
  process_events_batch events = transaction same_error (save_batch (collect events))
