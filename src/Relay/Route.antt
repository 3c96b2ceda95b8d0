-- ===== src/Relay/Route.antt =====
-- relay/src/lib.rs, handle_socket: what the receiving task does with one text from the client.
pub mod Delivery
pub mod Received
pub mod Kept
pub mod Stored
pub mod Sender
use invisible_backend.Prelude.{
  ℕ, String, Bool, true, false, List, [], ◌∷◌, ◌++◌, Option, none, some, ltb, if◌then◌else◌,
}
use invisible_backend.Models.{IncomingMessage, OutgoingMessage, DatabaseEvent}
use invisible_backend.Relay.{Codec, Services, user_channel, presence_channel}

-- the tuple that the match on the parsed message gives
pub record Plan : Type 0 where
  pub requires_receipt : Bool
  pub store_offline : Bool
  pub to : String
  pub id : String
  pub outgoing : OutgoingMessage

pub data Parsed : Type 0 where
  planned : Plan → Parsed
  watch : List String → Parsed

unfoldable pub plan : String → IncomingMessage → Parsed
plan me (IncomingMessage.encrypted to id cs) = planned (record {
  requires_receipt = true;
  store_offline = true;
  to = to;
  id = id;
  outgoing = OutgoingMessage.encrypted me id cs;
})
plan me (IncomingMessage.text to id content) = planned (record {
  requires_receipt = true;
  store_offline = true;
  to = to;
  id = id;
  outgoing = OutgoingMessage.text me id content;
})
plan me (IncomingMessage.file to id file_name mime_type file_url) = planned (record {
  requires_receipt = true;
  store_offline = true;
  to = to;
  id = id;
  outgoing = OutgoingMessage.file me id file_name mime_type file_url;
})
plan me (IncomingMessage.read_receipt to message_id) = planned (record {
  requires_receipt = false;
  store_offline = true;
  to = to;
  id = "";
  outgoing = OutgoingMessage.read_receipt me message_id;
})
plan me (IncomingMessage.typing to) = planned (record {
  requires_receipt = false;
  store_offline = false;
  to = to;
  id = "";
  outgoing = OutgoingMessage.typing me;
})
plan me (IncomingMessage.watch_presence user_ids) = watch user_ids

-- `db_event`: what goes to the history
unfoldable pub db_event : String → String → OutgoingMessage → Option DatabaseEvent
db_event me to (OutgoingMessage.encrypted from id cs) =
    some (DatabaseEvent.new_encrypted_message id from to cs)
db_event me to (OutgoingMessage.text from id content) =
    some (DatabaseEvent.new_message id from to "text" (some content) none none none)
db_event me to (OutgoingMessage.file from id file_name mime_type file_url) = some (
    DatabaseEvent.new_message id from to "file" none (some file_name) (some mime_type)
      (some file_url))
db_event me to (OutgoingMessage.read_receipt from message_id) =
    some (DatabaseEvent.read_receipt message_id me)
db_event me to _ = none

abbrev pub bind_opt {ℓ} : {A B : Type ℓ} → Option A → (A → Option B) → Option B
bind_opt none f = none
bind_opt (some a) f = f a

abbrev pub count_of : Option ℕ → ℕ
count_of none = 0
count_of (some n) = n

module _ (codec : Codec) (svc : Services) where
  -- what the task writes to: the services, the queue of texts for this client (`tx_recv`), and the
  -- presence channels that it has subscribed to
  pub record Client : Type 0 where
    pub services : svc.State
    pub outbox : List String
    pub watching : List String

  unfoldable pub log_event : Bool → String → Plan → svc.State → svc.State
  unfolding db_event
  log_event false me p s = s
  log_event true me p s = elim (bind_opt (db_event me p.to p.outgoing) codec.event_string) [
    | none ↦ s
    | some json ↦ (svc.xadd json s).1
  ]

  -- the delivery receipt to the sender
  unfoldable pub send_receipt : String → Plan → svc.State → svc.State
  send_receipt me p s = elim (codec.outgoing_string (OutgoingMessage.delivery_receipt p.to p.id)) [
    | none ↦ s
    | some receipt ↦ (svc.publish_message (user_channel me) receipt s).1
  ]

  unfoldable pub save_for_later : Plan → svc.State → svc.State
  save_for_later p s = elim (codec.outgoing_value p.outgoing) [
    | none ↦ s
    | some payload ↦ (svc.save_offline_message p.to payload s).1
  ]

  unfoldable pub after_publish : String → Plan → ℕ → svc.State → svc.State
  unfolding send_receipt save_for_later
  after_publish me p receivers s =
      if ltb 0 receivers
      then (if p.requires_receipt then send_receipt me p s else s)
      else (if p.store_offline then save_for_later p s else s)

  unfoldable pub deliver : String → Plan → svc.State → svc.State
  deliver me p s = elim (codec.outgoing_string p.outgoing) [
    | none ↦ s
    | some json ↦
        let (receivers, s') = svc.publish_message (user_channel p.to) json s in
        after_publish me p (count_of receivers) s'
  ]

  -- `for uid in user_ids`: the present state goes to the client, and its changes are subscribed to
  unfoldable pub watch_presence : List String → Client → Client
  watch_presence [] c = c
  watch_presence (uid ∷ uids) c =
      let (answer, s) = svc.is_online uid c.services in
      let online : Bool = elim answer [ none ↦ false | some b ↦ b ] in
      let note : List String =
        elim (codec.outgoing_string (OutgoingMessage.presence_update uid online)) [
          | none ↦ c.outbox
          | some json ↦ c.outbox ++ json ∷ []
        ] in
      watch_presence uids
        (record { services = s; outbox = note; watching = c.watching ++ presence_channel uid ∷ [] })

  unfoldable pub act : Bool → String → Parsed → Client → Client
  act connected me (watch uids) c = watch_presence uids c
  act connected me (planned p) c = record c {
    services = deliver me p (log_event connected me p c.services);
  }

  -- one turn of `while let Some(Ok(msg)) = receiver.next().await`; `connected` tells whether the
  -- task has a Redis connection for the history
  unfoldable pub receive : Bool → String → String → Client → Client
  receive connected me text c = elim (codec.parse_incoming text) [
    | none ↦ c
    | some m ↦ act connected me (plan me m) c
  ]
