-- ===== src/Relay/Tasks/Standing.antt =====
-- relay/src/lib.rs, handle_socket: what each step of a connection's tasks leaves standing in the services,
-- whether its calls succeed or fail.
use invisible_backend.Relay.Route.{
  watch_presence, log_event, send_receipt, save_for_later, Client, Plan, bind_opt, db_event,
  after_publish,
}
use invisible_backend.Relay.Receiving.{
  advance, asking, logging, publishing, confirming, saving, connecting, reading, stopped, Pc,
}
use invisible_backend.Relay.Session.{announce, close_session}
use invisible_backend.Prelude.{
  [], ◌∷◌, inl, inr, none, some, true, false, String, Bool, Option-cases, subst, Option, arith, ℕ,
  Bool-cases, ltb,
}
use invisible_backend.Relay.{Services, Codec, user_channel, presence_channel}
use invisible_backend.Relay.Later.{
  IsLater, IsLater-refl, IsLater-trans, Growth, IsKept, IsKept-refl, IsKept-trans,
}
use invisible_backend.Models.{OutgoingMessage}

module _ (svc : Services) where
  -- nothing that was sent or stored is gone, and no subscriber
  pub record Stands (s s' : svc.State) : Type 0 where
    pub later : IsLater svc s s'
    pub kept : IsKept svc s s'

  pub Stands-refl : (s : svc.State) → Stands s s
  Stands-refl s = record { later = IsLater-refl svc s; kept = IsKept-refl svc s }

  pub Stands-trans : {a b c : svc.State} → Stands a b → Stands b c → Stands a c
  Stands-trans f g = record {
    later = IsLater-trans svc f.later g.later;
    kept = IsKept-trans svc f.kept g.kept;
  }

  module _ (growth : Growth svc) where
    pub publish-Stands : (c m : String) (s : svc.State) → Stands s (svc.publish_message c m s).1
    publish-Stands c m s = record {
      later = growth.later_publish c m s;
      kept = growth.kept_publish c m s;
    }

    pub subscribe-Stands : (c : String) (s : svc.State) → Stands s (svc.subscribe c s).1
    subscribe-Stands c s = record {
      later = growth.later_subscribe c s;
      kept = growth.kept_subscribe c s;
    }

    online-Stands : (u : String) (s : svc.State) → Stands s (svc.is_online u s).1
    online-Stands u s = record { later = growth.later_online u s; kept = growth.kept_online u s }

    remove-Stands : (u c : String) (s : svc.State) → Stands s (svc.remove_connection u c s).1
    remove-Stands u c s = record {
      later = growth.later_remove u c s;
      kept = growth.kept_remove u c s;
    }

    save-Stands : (to p : String) (s : svc.State) → Stands s (svc.save_offline_message to p s).1
    save-Stands to p s = record { later = growth.later_save to p s; kept = growth.kept_save to p s }

    xadd-Stands : (e : String) (s : svc.State) → Stands s (svc.xadd e s).1
    xadd-Stands e s = record { later = growth.later_xadd e s; kept = growth.kept_xadd e s }

    module _ (codec : Codec) where
      pub log_event-Stands :
          (connected : Bool) (me : String) (p : Plan) (s : svc.State)
          → Stands s (log_event codec svc connected me p s)
      unfolding log_event
      log_event-Stands false me p s = Stands-refl s
      log_event-Stands true me p s =
          elim (Option-cases (bind_opt (db_event me p.to p.outgoing) codec.event_string)) [
            | inl e ↦ subst (Stands s) (ground arith) (Stands-refl s)
            | inr (json, e) ↦ subst (Stands s) (ground arith) (xadd-Stands json s)
          ]

      pub send_receipt-Stands :
          (me : String) (p : Plan) (s : svc.State) → Stands s (send_receipt codec svc me p s)
      unfolding send_receipt
      send_receipt-Stands me p s =
          elim (Option-cases (codec.outgoing_string (OutgoingMessage.delivery_receipt p.to p.id))) [
            | inl e ↦ subst (Stands s) (ground arith) (Stands-refl s)
            | inr (json, e) ↦
                subst (Stands s) (ground arith) (publish-Stands (user_channel me) json s)
          ]

      pub save_for_later-Stands :
          (p : Plan) (s : svc.State) → Stands s (save_for_later codec svc p s)
      unfolding save_for_later
      save_for_later-Stands p s = elim (Option-cases (codec.outgoing_value p.outgoing)) [
        | inl e ↦ subst (Stands s) (ground arith) (Stands-refl s)
        | inr (json, e) ↦ subst (Stands s) (ground arith) (save-Stands p.to json s)
      ]

      pub announce-Stands :
          (me : String) (online : Bool) (answer : Option Bool) (s : svc.State)
          → Stands s (announce codec svc me online (answer, s))
      unfolding announce
      announce-Stands me online none s = Stands-refl s
      announce-Stands me online (some false) s = Stands-refl s
      announce-Stands me online (some true) s =
          elim (Option-cases (codec.outgoing_string (OutgoingMessage.presence_update me online))) [
            | inl e ↦ subst (Stands s) (ground arith) (Stands-refl s)
            | inr (json, e) ↦
                subst (Stands s) (ground arith) (publish-Stands (presence_channel me) json s)
          ]

      pub close_session-Stands :
          (me conn : String) (s : svc.State) → Stands s (close_session codec svc me conn s)
      unfolding close_session
      close_session-Stands me conn s =
          Stands-trans (remove-Stands me conn s) (announce-Stands me false _ _)

      publishing-Stands :
          (connected : Bool) (me : String) (p : Plan) (c : Client codec svc)
          → Stands c.services (advance codec svc connected me (publishing p) c).1.services
      unfolding advance
      publishing-Stands connected me p c = elim (Option-cases (codec.outgoing_string p.outgoing)) [
        | inl e ↦ subst (Stands c.services) (ground arith) (Stands-refl c.services)
        | inr (json, e) ↦
            subst (Stands c.services) (ground arith)
              (publish-Stands (user_channel p.to) json c.services)
      ]

      pub advance-Stands :
          (connected : Bool) (me : String) (pc : Pc) (c : Client codec svc)
          → Stands c.services (advance codec svc connected me pc c).1.services
      unfolding advance watch_presence
      advance-Stands connected me connecting c = Stands-refl c.services
      advance-Stands connected me reading c = Stands-refl c.services
      advance-Stands connected me stopped c = Stands-refl c.services
      advance-Stands connected me (logging p) c = log_event-Stands connected me p c.services
      advance-Stands connected me (publishing p) c = publishing-Stands connected me p c
      advance-Stands connected me (confirming p) c = send_receipt-Stands me p c.services
      advance-Stands connected me (saving p) c = save_for_later-Stands p c.services
      advance-Stands connected me (asking []) c = Stands-refl c.services
      advance-Stands connected me (asking (uid ∷ uids)) c = online-Stands uid c.services

      pub after_publish-Stands :
          (me : String) (p : Plan) (receivers : ℕ) (s : svc.State)
          → Stands s (after_publish codec svc me p receivers s)
      unfolding after_publish
      after_publish-Stands me p receivers s = elim (Bool-cases (ltb 0 receivers)) [
        | inl some_one ↦ elim (Bool-cases p.requires_receipt) [
          | inl asked ↦ subst (Stands s) (ground arith) (send_receipt-Stands me p s)
          | inr not_asked ↦ subst (Stands s) (ground arith) (Stands-refl s)
        ]
        | inr no_one ↦ elim (Bool-cases p.store_offline) [
          | inl kept ↦ subst (Stands s) (ground arith) (save_for_later-Stands p s)
          | inr dropped ↦ subst (Stands s) (ground arith) (Stands-refl s)
        ]
      ]
