-- ===== src/Relay/Tasks/Arrived.antt =====
-- relay/src/lib.rs, handle_socket: a message on its way from another client's receiving task, over the
-- channel of its recipient, to the recipient's socket.
use invisible_backend.Relay.Feed.{listening}
use invisible_backend.Relay.Tasks.{
  forwards, Step, sends, listens, Reach, here, next, Connection, opened, spawn_tasks,
}
use invisible_backend.Relay.Tasks.Standing.{Stands, log_event-Stands, after_publish-Stands}
use invisible_backend.Relay.Route.{
  Plan, planned, plan, Client, receive, act, deliver, after_publish, log_event,
}
use invisible_backend.Prelude.{
  [], ◌∷◌, some, true, refl, ◌≡◌, ◌++◌, String, ℕ, List, Bool, ◌<◌, sym, ◌∙◌, append-nil, subst,
  arith, append_assoc, ==_refl, ap, In, string_eq, ap₂, In-right, In-middle,
}
use invisible_backend.Relay.{Codec, Services, Laws, user_channel}
use invisible_backend.Relay.Later.{Growth, IsGrown, IsSent}
use invisible_backend.Models.{IncomingMessage}
use invisible_backend.Relay.Tasks.Counted.{Reach-Counted}
use invisible_backend.Relay.Tasks.Order.Since.{Reach-InOrder}
use invisible_backend.Relay.Tasks.Order.{Follows}

module _ (codec : Codec) (svc : Services) (growth : Growth svc) where
  module _ (laws : Laws svc) where
    pub published-IsSent :
        (c json : String) (s t v : svc.State) (n : ℕ)
        → Stands svc s t
        → (svc.publish_message c json t).0 ≡ some n
        → Stands svc (svc.publish_message c json t).1 v
        → 0 < n
        → IsSent svc json c s v
    published-IsSent c json s t v n first answered second someone =
        let (more, e₁) = first.later.sent c in
        let (rest, e₂) = second.later.sent c in
        let u = (svc.publish_message c json t).1 in
        let at : svc.sent u c ≡ svc.sent t c ++ json ∷ [] =
          ground (arith, laws.sent-publish c json c t n answered, ==_refl c) in
        (
          more,
          rest,
          e₂
              ∙ ap (λ l. l ++ rest) (at ∙ ap (λ l. l ++ json ∷ []) e₁)
              ∙ append_assoc (svc.sent s c ++ more) (json ∷ []) rest
              ∙ append_assoc (svc.sent s c) more (json ∷ rest),
        )

    receive-IsSent :
        (connected : Bool) (you text json : String) (c : Client codec svc) (m : IncomingMessage)
        (p : Plan) (n : ℕ)
        → codec.parse_incoming text ≡ some m
        → plan you m ≡ planned p
        → codec.outgoing_string p.outgoing ≡ some json
        → (svc.publish_message
            (user_channel p.to)
            json
            (log_event codec svc connected you p c.services)).0
          ≡ some n
        → 0 < svc.subscribers c.services (user_channel p.to)
        → IsSent svc json
            (user_channel p.to)
            c.services
            (receive codec svc connected you text c).services
    unfolding receive act deliver
    receive-IsSent connected you text json c m p n parsed planned_as spelled answered listened =
        let t = log_event codec svc connected you p c.services in
        let u = (svc.publish_message (user_channel p.to) json t).1 in
        let log_stands = log_event-Stands svc growth codec connected you p c.services in
        let whole : after_publish codec svc you p n u
            ≡ (receive codec svc connected you text c).services =
          ground arith in
        subst (IsSent svc json (user_channel p.to) c.services) whole (
          published-IsSent (user_channel p.to) json c.services t _ n log_stands answered
            (after_publish-Stands svc growth codec you p n u)
            (omega (
              arith,
              laws.count-publish (user_channel p.to) json t n answered,
              log_stands.later.subscribers (user_channel p.to),
              listened,
            )))

  module _ (Others : svc.State → svc.State → Type 0) (me conn : String) where
    abbrev Reached : Connection codec svc → Connection codec svc → Type 0
    Reached s t = Reach codec svc Others me conn s t

    then :
        {s t u : Connection codec svc}
        → Step codec svc Others me conn s t
        → Reached t u
        → Reached s u
    then st here = next here st
    then st (next r last) = next (then st r) last

    -- The sending task takes what is queued.
    flushes :
        (s : Connection codec svc) (q : List String)
        → s.sending ≡ true
        → s.outbox ≡ q
        → (u : Connection codec svc) × Reached s u × (u.wire ≡ s.wire ++ q)
    flushes s [] going e = (s, here, sym (append-nil s.wire))
    flushes s (y ∷ ys) going e =
        let (u, r, whole) =
          flushes (record s { outbox = ys; wire = s.wire ++ y ∷ [] }) ys going refl in
        (u, then (sends y ys going e) r, whole ∙ append_assoc s.wire (y ∷ []) ys)

    -- The task of the user's channel forwards what is unread, and then the sending task takes it.
    drains :
        (s : Connection codec svc) (before unread : List String)
        → s.sending ≡ true
        → s.feed.stage ≡ listening before
        → svc.sent s.services s.feed.channel ≡ (before ++ s.feed.forwarded) ++ unread
        → (u : Connection codec svc) × Reached s u × (u.wire ≡ (s.wire ++ s.outbox) ++ unread)
    drains s before [] going at e =
        let (u, r, whole) = flushes s s.outbox going refl in
        (u, r, whole ∙ sym (append-nil (s.wire ++ s.outbox)))
    drains s before (y ∷ ys) going at e =
        let s' : Connection codec svc = record s {
          outbox = s.outbox ++ y ∷ [];
          feed = record s.feed { forwarded = s.feed.forwarded ++ y ∷ [] };
        } in
        let (u, r, whole) = drains s' before ys going at (
          e
          ∙ sym (append_assoc (before ++ s.feed.forwarded) (y ∷ []) ys)
          ∙ ap (λ l. l ++ ys) (append_assoc before s.feed.forwarded (y ∷ []))) in
        (
          u,
          then (listens (forwards before y ys at e)) r,
          whole
              ∙ ap (λ l. l ++ ys) (sym (append_assoc s.wire s.outbox (y ∷ [])))
              ∙ append_assoc (s.wire ++ s.outbox) (y ∷ []) ys,
        )

    abbrev start : svc.State → Connection codec svc
    start s = opened codec svc me conn s

    -- Redis counts a subscription that has been made.
    listened :
        (s₀ : svc.State) {s : Connection codec svc} (before : List String)
        → Reached (start s₀) s
        → s.feed.channel ≡ user_channel me
        → s.feed.stage ≡ listening before
        → 0 < svc.subscribers s.services (user_channel me)
    unfolding spawn_tasks
    listened s₀ {s} before r named at =
        let counted = Reach-Counted codec svc growth Others me conn r (λ c. ground arith) in
        ground (arith, counted (user_channel me), ==_refl (user_channel me))

    -- Another client's message for a user whose connection has subscribed, once PUBLISH has answered, gets
    -- to the user's socket: whatever has happened since the connection opened, with other users that only
    -- add to what the channels were sent, and whatever else the handling of the message meets, there is a
    -- run of the connection's tasks after which the socket has taken it, as long as the socket works.
    pub receive-arrives :
        (laws : Laws svc) (later : (s t : svc.State) → Others s t → IsGrown svc s t)
        (s₀ : svc.State) {s : Connection codec svc} (before : List String) (connected : Bool)
        (you text json : String) (c : Client codec svc) (m : IncomingMessage) (p : Plan) (n : ℕ)
        → Reached (start s₀) s
        → s.sending ≡ true
        → s.feed.stage ≡ listening before
        → c.services ≡ s.services
        → codec.parse_incoming text ≡ some m
        → plan you m ≡ planned p
        → p.to ≡ me
        → codec.outgoing_string p.outgoing ≡ some json
        → (svc.publish_message
            (user_channel p.to)
            json
            (log_event codec svc connected you p c.services)).0
          ≡ some n
        → let t = (receive codec svc connected you text c).services in
          (u : Connection codec svc) × Reached (record s { services = t }) u × In json u.wire
    receive-arrives laws later s₀ {s} before connected you text json c m p n r going at same parsed
          planned_as to_me spelled answered =
        let o = (Reach-InOrder codec svc growth Others later me conn s₀ r).0 in
        let t = (receive codec svc connected you text c).services in
        let line : user_channel p.to ≡ s.feed.channel = ap user_channel to_me ∙ sym o.channel in
        let listening_now = listened s₀ before r o.channel at in
        let (more, rest, added) =
          receive-IsSent laws connected you text json c m p n parsed planned_as spelled answered
            (ground arith) in
        let (unread, known) =
          subst (λ g. Follows codec svc g (svc.sent s.services s.feed.channel) s.feed.forwarded) at
            o.follows in
        let news = unread ++ (more ++ json ∷ rest) in
        let (u, way, whole) =
          drains (record s { services = t }) before news going at
            (ap (svc.sent t) (sym line)
              ∙ added
              ∙ ap (λ l. l ++ (more ++ json ∷ rest)) (ap₂ svc.sent same line ∙ known)
              ∙ append_assoc (before ++ s.feed.forwarded) unread (more ++ json ∷ rest)) in
        (
          u,
          way,
          subst (In json) (sym whole) (
              In-right json (s.wire ++ s.outbox) news
                (In-right json unread (more ++ json ∷ rest) (In-middle json more rest))),
        )
