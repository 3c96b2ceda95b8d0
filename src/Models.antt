-- ===== src/Models.antt =====
-- shared/src/models.rs: the claims of a token and the messages that clients, relay and worker
-- exchange. The spelling of a message as JSON is a parameter (Codec of Relay).
use invisible_backend.Prelude.{ℕ, String, Bool, Option, List}
use invisible_backend.Prelude.Int.{ℤ}

-- exp counts seconds since the epoch
pub record Claims : Type 0 where
  pub sub : String
  pub session_id : String
  pub exp : ℕ

pub record DeviceInfo : Type 0 where
  pub device_name : String
  pub device_model : String
  pub platform : String
  pub hwid : String

pub record DeviceCiphertext : Type 0 where
  pub device_id : String
  pub signal_type : ℤ
  pub ciphertext : String

pub data IncomingMessage : Type 0 where
  encrypted : (to id : String) (ciphertexts : List DeviceCiphertext) → IncomingMessage
  text : (to id content : String) → IncomingMessage
  file : (to id file_name mime_type file_url : String) → IncomingMessage
  typing : (to : String) → IncomingMessage
  watch_presence : (user_ids : List String) → IncomingMessage
  read_receipt : (to message_id : String) → IncomingMessage

pub data OutgoingMessage : Type 0 where
  encrypted : (from id : String) (ciphertexts : List DeviceCiphertext) → OutgoingMessage
  text : (from id content : String) → OutgoingMessage
  file : (from id file_name mime_type file_url : String) → OutgoingMessage
  typing : (from : String) → OutgoingMessage
  delivery_receipt : (to message_id : String) → OutgoingMessage
  read_receipt : (from message_id : String) → OutgoingMessage
  presence_update : (user_id : String) (is_online : Bool) → OutgoingMessage

pub data DatabaseEvent : Type 0 where
  new_encrypted_message :
      (id sender recipient : String) (ciphertexts : List DeviceCiphertext) → DatabaseEvent
  new_message :
      (id sender recipient message_type : String)
      (content file_name mime_type file_url : Option String)
      → DatabaseEvent
  read_receipt : (message_id reader : String) → DatabaseEvent
