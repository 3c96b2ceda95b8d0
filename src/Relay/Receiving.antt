-- ===== src/Relay/Receiving.antt =====
-- relay/src/lib.rs, handle_socket: the receiving task, one call of a service at a time. The task may be
-- stopped, and the other tasks go on, at each `await` between two of these steps.
pub mod Whole
use invisible_backend.Relay.{Codec, Services, user_channel}
use invisible_backend.Relay.Route.{
  Plan, Parsed, planned, watch, plan, Client, log_event, send_receipt, save_for_later,
  watch_presence, count_of,
}
use invisible_backend.Prelude.{
  [], ◌∷◌, suc, zero, none, some, if◌then◌else◌, List, String, ℕ, Bool, Option, ltb,
}
use invisible_backend.Models.{IncomingMessage}

-- Where the task is: it waits for its connection to Redis (`redis_conn_for_events`), for a text, or
-- for the reply of a call; or it has ended.
pub data Pc : Type 0 where
  connecting : Pc
  reading : Pc
  logging : Plan → Pc
  publishing : Plan → Pc
  confirming : Plan → Pc
  saving : Plan → Pc
  asking : List String → Pc
  stopped : Pc

-- what the task does first about a text
abbrev pub first_call : Parsed → Pc
first_call (planned p) = logging p
first_call (watch uids) = asking uids

abbrev pub begin : String → Option IncomingMessage → Pc
begin me none = reading
begin me (some m) = first_call (plan me m)

-- after PUBLISH: `if receivers > 0 { if requires_receipt … } else if store_offline …`
abbrev pub after_receivers : Plan → ℕ → Pc
after_receivers p receivers =
    if ltb 0 receivers
    then (if p.requires_receipt then confirming p else reading)
    else (if p.store_offline then saving p else reading)

module _ (codec : Codec) (svc : Services) where
  -- the call that the task makes next, and where it is afterwards
  unfoldable pub advance : Bool → String → Pc → Client codec svc → Pc × Client codec svc
  advance connected me (logging p) c =
      (publishing p, record c { services = log_event codec svc connected me p c.services })
  advance connected me (publishing p) c = elim (codec.outgoing_string p.outgoing) [
    | none ↦ (reading, c)
    | some json ↦
        let (receivers, s) = svc.publish_message (user_channel p.to) json c.services in
        (after_receivers p (count_of receivers), record c { services = s })
  ]
  advance connected me (confirming p) c =
      (reading, record c { services = send_receipt codec svc me p c.services })
  advance connected me (saving p) c =
      (reading, record c { services = save_for_later codec svc p c.services })
  advance connected me (asking []) c = (reading, c)
  advance connected me (asking (uid ∷ uids)) c =
      (asking uids, watch_presence codec svc (uid ∷ []) c)
  advance connected me pc c = (pc, c)

  -- so many calls, one after the other
  unfoldable pub advances : ℕ → Bool → String → Pc × Client codec svc → Pc × Client codec svc
  advances zero connected me (pc, c) = (pc, c)
  advances (suc n) connected me (pc, c) = advances n connected me (advance connected me pc c)
