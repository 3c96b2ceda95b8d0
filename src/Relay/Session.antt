-- ===== src/Relay/Session.antt =====
-- relay/src/lib.rs, handle_socket: what happens before and after the tasks of a connection.
pub mod Announce
use invisible_backend.Prelude.{String, Bool, true, false, List, [], ◌∷◌, ◌++◌, Option, none, some}
use invisible_backend.Models.{OutgoingMessage}
use invisible_backend.Relay.{Codec, Services, user_channel, presence_channel}

-- `receipt_info`
abbrev pub receipt_info : OutgoingMessage → Option (String × String)
receipt_info (OutgoingMessage.text from id _) = some (from, id)
receipt_info (OutgoingMessage.encrypted from id _) = some (from, id)
receipt_info (OutgoingMessage.file from id _ _ _) = some (from, id)
receipt_info _ = none

-- the end of an `Option` or a `Result` that the code only looks into
abbrev pub or_none {ℓ} : {A : Type ℓ} → Option (List A) → List A
or_none none = []
or_none (some xs) = xs

-- `if let Ok(json) = …`
abbrev pub one_if_some {ℓ} : {A : Type ℓ} → Option A → List A
one_if_some none = []
one_if_some (some a) = a ∷ []

module _ (codec : Codec) (svc : Services) where
  -- the texts queued for the client, and the channel and text of each task that publishes a receipt
  pub record Opening : Type 0 where
    pub services : svc.State
    pub outbox : List String
    pub spawned : List (String × String)

  -- a change of presence, where the repository answers `true`
  unfoldable pub announce : String → Bool → Option Bool × svc.State → svc.State
  announce user_id is_online (none, s) = s
  announce user_id is_online (some false, s) = s
  announce user_id is_online (some true, s) =
      elim (codec.outgoing_string (OutgoingMessage.presence_update user_id is_online)) [
        | none ↦ s
        | some json ↦ (svc.publish_message (presence_channel user_id) json s).1
      ]

  unfoldable pub receipt_task : String → Option (String × String) → List (String × String)
  receipt_task user_id none = []
  receipt_task user_id (some (from, id)) =
      elim (codec.outgoing_string (OutgoingMessage.delivery_receipt user_id id)) [
        | none ↦ []
        | some receipt_json ↦ (user_channel from, receipt_json) ∷ []
      ]

  -- `for msg in pending_messages`
  unfoldable pub flush : String → List OutgoingMessage → Opening → Opening
  flush user_id [] o = o
  flush user_id (msg ∷ rest) o = flush user_id rest (record {
    services = o.services;
    outbox = o.outbox ++ one_if_some (codec.outgoing_string msg);
    spawned = o.spawned ++ receipt_task user_id (receipt_info msg);
  })

  -- up to the tasks
  unfoldable pub open_session : String → String → svc.State → Opening
  open_session user_id conn_id s =
      let s₁ = announce user_id true (svc.add_connection user_id conn_id s) in
      let (answer, s₂) = svc.fetch_and_delete_offline_messages user_id s₁ in
      flush user_id (or_none answer) (record { services = s₂; outbox = []; spawned = [] })

  -- after the tasks
  unfoldable pub close_session : String → String → svc.State → svc.State
  close_session user_id conn_id s = announce user_id false (svc.remove_connection user_id conn_id s)
