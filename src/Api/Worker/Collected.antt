-- ===== src/Api/Worker/Collected.antt =====
-- api/src/worker.rs, process_events_batch: what a batch collects from its events, before the transaction.
-- the tuples that the batch collects
use invisible_backend.Prelude.{[], ◌∷◌, none, String, List, ℕ, Option}
use invisible_backend.Models.{DatabaseEvent, DeviceCiphertext}
use invisible_backend.Postgres.Schema.{Message}

pub record NewMessage : Type 0 where
  pub id : String
  pub sender : String
  pub recipient : String
  pub message_type : String
  pub content : Option String
  pub file_name : Option String
  pub mime_type : Option String
  pub file_url : Option String

pub record EncryptedMessage : Type 0 where
  pub id : String
  pub sender : String
  pub recipient : String
  pub ciphertexts : List DeviceCiphertext

pub record Receipt : Type 0 where
  pub message_id : String
  pub reader : String

pub record Batch : Type 0 where
  pub new_messages : List NewMessage
  pub encrypted_messages : List EncryptedMessage
  pub read_receipts : List Receipt

-- one round of `for event in events`, from the back
abbrev pub add_event : DatabaseEvent → Batch → Batch
add_event
      (DatabaseEvent.new_message id sender recipient message_type content file_name mime_type
        file_url)
      b =
    record b {
      new_messages =
          record {
            id = id;
            sender = sender;
            recipient = recipient;
            message_type = message_type;
            content = content;
            file_name = file_name;
            mime_type = mime_type;
            file_url = file_url;
          }
          ∷ b.new_messages;
    }
add_event (DatabaseEvent.new_encrypted_message id sender recipient ciphertexts) b = record b {
  encrypted_messages =
      record { id = id; sender = sender; recipient = recipient; ciphertexts = ciphertexts }
      ∷ b.encrypted_messages;
}
add_event (DatabaseEvent.read_receipt message_id reader) b = record b {
  read_receipts = record { message_id = message_id; reader = reader } ∷ b.read_receipts;
}

unfoldable pub collect : List DatabaseEvent → Batch
collect [] = record { new_messages = []; encrypted_messages = []; read_receipts = [] }
collect (e ∷ es) = add_event e (collect es)

-- the values bound for an encrypted message
abbrev pub as_message : EncryptedMessage → NewMessage
as_message m = record {
  id = m.id;
  sender = m.sender;
  recipient = m.recipient;
  message_type = "encrypted";
  content = none;
  file_name = none;
  mime_type = none;
  file_url = none;
}

abbrev pub message_row : NewMessage → ℕ → Message
message_row m now = record {
  id = m.id;
  sender_username = m.sender;
  recipient_username = m.recipient;
  message_type = m.message_type;
  content = m.content;
  file_name = m.file_name;
  mime_type = m.mime_type;
  file_url = m.file_url;
  created_at = now;
  read_at = none;
}
