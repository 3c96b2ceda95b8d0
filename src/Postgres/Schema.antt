-- ===== src/Postgres/Schema.antt =====
-- migrations/*.sql: the tables that the services use, with their columns. A UUID and a time stamp are
-- numbers; `now` is the clock behind CURRENT_TIMESTAMP, and `next_id` numbers the rows whose key
-- the server makes up (SERIAL, gen_random_uuid()).
use invisible_backend.Prelude.{ℕ, String, Bool, Option, List, [], ◌==◌, nat_eq, string_eq, any}
use invisible_backend.Prelude.Int.{ℤ}

abbrev pub Uuid : Type 0
Uuid = ℕ

pub record User : Type 0 where
  pub username : String
  pub password_hash : String

pub record Session : Type 0 where
  pub id : Uuid
  pub user_username : String
  pub device_name : Option String
  pub device_model : Option String
  pub platform : Option String
  pub hwid : Option String
  pub refresh_token : String
  pub created_at : ℕ
  pub last_accessed_at : ℕ
  pub is_valid : Bool

pub record OfflineMessage : Type 0 where
  pub id : ℕ
  pub to_user : String
  pub payload : String
  pub created_at : ℕ

pub record Message : Type 0 where
  pub id : String
  pub sender_username : String
  pub recipient_username : String
  pub message_type : String
  pub content : Option String
  pub file_name : Option String
  pub mime_type : Option String
  pub file_url : Option String
  pub created_at : ℕ
  pub read_at : Option ℕ

pub record MessageCiphertext : Type 0 where
  pub id : Uuid
  pub message_id : String
  pub device_id : Uuid
  pub ciphertext : String
  pub signal_type : ℤ

pub record IdentityKey : Type 0 where
  pub user_username : String
  pub device_id : Uuid
  pub registration_id : ℤ
  pub identity_key : String

pub record SignedPreKey : Type 0 where
  pub user_username : String
  pub device_id : Uuid
  pub key_id : ℤ
  pub public_key : String
  pub signature : String

pub record OneTimeKey : Type 0 where
  pub id : ℕ
  pub user_username : String
  pub device_id : Uuid
  pub key_id : ℤ
  pub public_key : String
  pub consumed : Bool

pub record ReadState : Type 0 where
  pub user_username : String
  pub peer_username : String
  pub last_read_message_id : String
  pub unread_count : ℤ
  pub updated_at : ℕ

pub record KeyBackup : Type 0 where
  pub user_username : String
  pub encrypted_vault : String
  pub salt : String
  pub mac : String
  pub updated_at : ℕ

pub record Database : Type 0 where
  pub users : List User
  pub sessions : List Session
  pub offline_messages : List OfflineMessage
  pub messages : List Message
  pub message_ciphertexts : List MessageCiphertext
  pub device_identity_keys : List IdentityKey
  pub device_signed_pre_keys : List SignedPreKey
  pub device_one_time_keys : List OneTimeKey
  pub dialog_read_states : List ReadState
  pub user_key_backups : List KeyBackup
  pub now : ℕ
  pub next_id : ℕ

-- a row of `users` that a foreign key can point to
unfoldable pub has_user : Database → String → Bool
has_user db name = any (λ u. u.username == name) db.users

-- a row of `sessions` that a foreign key can point to
unfoldable pub has_session : Database → Uuid → Bool
has_session db id = any (λ s. s.id == id) db.sessions

-- a row of `messages` that a foreign key can point to
unfoldable pub has_message : Database → String → Bool
has_message db id = any (λ m. m.id == id) db.messages

abbrev pub empty_database : Database
empty_database = record {
  users = [];
  sessions = [];
  offline_messages = [];
  messages = [];
  message_ciphertexts = [];
  device_identity_keys = [];
  device_signed_pre_keys = [];
  device_one_time_keys = [];
  dialog_read_states = [];
  user_key_backups = [];
  now = 0;
  next_id = 0;
}
