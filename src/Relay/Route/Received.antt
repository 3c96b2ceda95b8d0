-- ===== src/Relay/Route/Received.antt =====
-- relay/src/lib.rs: one text from the client, from its arrival to the queues and the history.
use invisible_backend.Models.{IncomingMessage, OutgoingMessage, DatabaseEvent}
use invisible_backend.Relay.{Codec, IsTotal, Services, Laws, IsUp, user_channel}
use invisible_backend.Relay.Route.{
  Plan, planned, plan, Client, act, receive, deliver, log_event, db_event,
}
use invisible_backend.Relay.Route.Delivery.{
  IsDelivered, IsStored, deliver-IsDelivered, deliver-IsStored, deliver-published, deliver-saved,
  payload, published,
}
use invisible_backend.Prelude.{
  [], ◌∷◌, none, some, true, false, refl, if◌then◌else◌, ◌≡◌, ◌++◌, Option, Bool, List, sym, String,
  append-nil, ◌<◌, ◌⊎◌, inl, inr, ℕ, Option-cases, subst, arith, ◌∙◌, ap,
}

count_cases : (n : ℕ) → (n ≡ 0) ⊎ (0 < n)
count_cases n = omega arith

module _ (codec : Codec) (svc : Services) (total : IsTotal codec) (laws : Laws svc)
    (up : IsUp svc) where
  abbrev pub spelled : Option DatabaseEvent → List String
  spelled none = []
  spelled (some e) = (total.event_total e).0 ∷ []

  abbrev json : OutgoingMessage → String
  json m = (total.string_total m).0

  -- what the history gets of a message
  abbrev pub logged : Bool → String → Plan → List String
  logged connected me p = if connected then spelled (db_event me p.to p.outgoing) else []

  -- Logging an event shows in the stream alone.
  record IsLogged (new : List String) (s s' : svc.State) : Type 0 where
    events : svc.events s' ≡ svc.events s ++ new
    sent : (j : String) → svc.sent s' j ≡ svc.sent s j
    stored : (u : String) → svc.stored s' u ≡ svc.stored s u
    subscribers : (j : String) → svc.subscribers s' j ≡ svc.subscribers s j

  IsLogged-refl : (s : svc.State) → IsLogged [] s s
  IsLogged-refl s = record {
    events = sym (append-nil (svc.events s));
    sent = λ j. refl;
    stored = λ u. refl;
    subscribers = λ j. refl;
  }

  xadd-IsLogged : (e : String) (s : svc.State) → IsLogged (e ∷ []) s (svc.xadd e s).1
  xadd-IsLogged e s = record {
    events = laws.events-xadd e s (up.xadd_up e s);
    sent = λ j. laws.sent-xadd e j s;
    stored = λ u. laws.stored-xadd e u s;
    subscribers = λ j. laws.subscribers-xadd e j s;
  }

  log_event-IsLogged :
      (connected : Bool) (me : String) (p : Plan) (s : svc.State)
      → IsLogged (logged connected me p) s (log_event codec svc connected me p s)
  unfolding log_event
  log_event-IsLogged false me p s = IsLogged-refl s
  log_event-IsLogged true me p s = elim (Option-cases (db_event me p.to p.outgoing)) [
    | inl e ↦
        subst (λ x. IsLogged (spelled x) s (log_event codec svc true me p s)) (sym e)
          (subst (IsLogged [] s) (ground arith) (IsLogged-refl s))
    | inr (event, e) ↦
        let (json, spells) = total.event_total event in
        subst (λ x. IsLogged (spelled x) s (log_event codec svc true me p s)) (sym e)
          (subst (IsLogged (spelled (some event)) s) (ground arith) (xadd-IsLogged json s))
  ]

  events-deliver :
      (me : String) (p : Plan) (s : svc.State)
      → svc.events (deliver codec svc me p s) ≡ svc.events s
  events-deliver me p s =
      let t = published codec svc total laws up (user_channel p.to) p.outgoing s in
      let first = laws.events-publish (user_channel p.to) (json p.outgoing) s in
      elim (count_cases (svc.subscribers s (user_channel p.to))) [
        | inl nobody ↦
            rw (deliver-saved codec svc total laws up me p s nobody)
              (ground (arith, laws.events-save p.to (payload codec svc total laws up p.outgoing) t))
        | inr here ↦ rw (deliver-published codec svc total laws up me p s here) (
            ground (
              arith,
              laws.events-publish (user_channel me)
                  (json (OutgoingMessage.delivery_receipt p.to p.id)) t,
            ))
      ]

  -- Where a message goes: to the recipient's subscribers if there are any, and to the store if not.
  abbrev pub IsRouted : String → Plan → svc.State → svc.State → Type 0
  IsRouted me p s s' =
      ((0 < svc.subscribers s (user_channel p.to)) × IsDelivered codec svc total laws up me p s s')
      ⊎ ((svc.subscribers s (user_channel p.to) ≡ 0) × IsStored codec svc total laws up p s s')

  deliver-IsRouted :
      (me : String) (p : Plan) (s : svc.State) → IsRouted me p s (deliver codec svc me p s)
  deliver-IsRouted me p s = elim (count_cases (svc.subscribers s (user_channel p.to))) [
    | inl nobody ↦ inr (nobody, deliver-IsStored codec svc total laws up me p s nobody)
    | inr here ↦ inl (here, deliver-IsDelivered codec svc total laws up me p s here)
  ]

  IsRouted-after_log :
      (me : String) (p : Plan) (new : List String) (s t s' : svc.State)
      → IsLogged new s t
      → IsRouted me p t s'
      → IsRouted me p s s'
  IsRouted-after_log me p new s t s' l (inl (here, d)) = inl (
    subst (λ n. 0 < n) (l.subscribers (user_channel p.to)) here,
    record {
      sent = λ j. ground (arith, d.sent j, l.sent j, l.subscribers (user_channel me));
      stored = λ u. d.stored u ∙ l.stored u;
    },
  )
  IsRouted-after_log me p new s t s' l (inr (nobody, d)) = inr (
    sym (l.subscribers (user_channel p.to)) ∙ nobody,
    record {
      sent = λ j. d.sent j ∙ l.sent j;
      stored = λ u. ground (arith, d.stored u, l.stored u);
    },
  )

  -- A message that names a recipient is either sent to that user's subscribers, with a receipt to the
  -- sender where its kind asks for one, or, where there is no subscriber, stored for that user if its
  -- kind is kept; and its event, if it has one, is added to the history.
  pub receive-IsRouted :
      (connected : Bool) (me text : String) (c : Client codec svc) (m : IncomingMessage) (p : Plan)
      → codec.parse_incoming text ≡ some m
      → plan me m ≡ planned p
      → let s' = (receive codec svc connected me text c).services in
        IsRouted me p c.services s'
        × (svc.events s' ≡ svc.events c.services ++ logged connected me p)
  unfolding receive act
  receive-IsRouted connected me text c m p parsed planned_as =
      let s = c.services in
      let t = log_event codec svc connected me p s in
      let l = log_event-IsLogged connected me p s in
      let r = IsRouted-after_log me p (logged connected me p) s t _ l (deliver-IsRouted me p t) in
      let whole : deliver codec svc me p t ≡ (receive codec svc connected me text c).services =
        ground arith in
      (
        subst (IsRouted me p s) whole r,
        ap svc.events (sym whole) ∙ events-deliver me p t ∙ l.events,
      )
