-- ===== src/Relay/Tasks/Missed.antt =====
-- relay/src/lib.rs, handle_socket: a message that comes between the fetch of the waiting messages and the
-- subscription to the user's channel.
use invisible_backend.Relay.Tasks.{
  no_connection, subscribes, not_subscribed, forwards, stream_ends, Step, connects, hears, hangs_up,
  works, sends, breaks, listens, watches_presence, publishes_receipt, selects, aborts_sending,
  aborts_receiving, aborts_listening, closes, drops, others, Reach, here, next, Connection, work,
  Listener, Forward,
}
use invisible_backend.Relay.Route.{Plan, planned, plan, Client, receive, log_event}
use invisible_backend.Prelude.{
  [], ◌∷◌, some, true, ◌≡◌, ◌++◌, String, ℕ, Bool, List, ◌∙◌, ap, sym, string_eq, ap₂,
}
use invisible_backend.Relay.{Codec, Services, Laws, user_channel}
use invisible_backend.Relay.Later.{Growth, IsKept, IsKept-refl, IsKept-trans}
use invisible_backend.Relay.Tasks.Standing.{advance-Stands, close_session-Stands}
use invisible_backend.Models.{IncomingMessage}
use invisible_backend.Relay.Route.Stored.{receive-saved}

module _ (codec : Codec) (svc : Services) (growth : Growth svc) where
  Forward-IsKept :
      (l : Listener codec svc) {l' : Listener codec svc}
      → Forward codec svc l l'
      → IsKept svc l.services l'.services
  Forward-IsKept l (no_connection starts) = IsKept-refl svc l.services
  Forward-IsKept l (subscribes starts answered) = growth.kept_subscribe l.feed.channel l.services
  Forward-IsKept l (not_subscribed starts failed) = growth.kept_subscribe l.feed.channel l.services
  Forward-IsKept l (forwards before y unread at sent) = IsKept-refl svc l.services
  Forward-IsKept l (stream_ends before at) = IsKept-refl svc l.services

  module _ (Others : svc.State → svc.State → Type 0)
      (kept : (s t : svc.State) → Others s t → IsKept svc s t) (me conn : String) where
    Step-IsKept :
        {s t : Connection codec svc}
        → Step codec svc Others me conn s t
        → IsKept svc s.services t.services
    unfolding work
    Step-IsKept {s} (connects answered h) = IsKept-refl svc s.services
    Step-IsKept {s} (hears text h) = IsKept-refl svc s.services
    Step-IsKept {s} (hangs_up h) = IsKept-refl svc s.services
    Step-IsKept {s} works = (advance-Stands svc growth codec s.connected me s.pc _).kept
    Step-IsKept {s} (sends text rest h e) = IsKept-refl svc s.services
    Step-IsKept {s} (breaks text rest h e) = IsKept-refl svc s.services
    Step-IsKept (listens f) = Forward-IsKept _ f
    Step-IsKept (watches_presence xs w ys e f) = Forward-IsKept _ f
    Step-IsKept {s} (publishes_receipt xs channel json ys h) =
        growth.kept_publish channel json s.services
    Step-IsKept {s} (selects h started done) = IsKept-refl svc s.services
    Step-IsKept {s} (aborts_sending h) = IsKept-refl svc s.services
    Step-IsKept {s} (aborts_receiving h) = IsKept-refl svc s.services
    Step-IsKept {s} (aborts_listening h) = IsKept-refl svc s.services
    Step-IsKept {s} (closes h) = (close_session-Stands svc growth codec me conn s.services).kept
    Step-IsKept {s} (drops channel more) = growth.kept_unsubscribe channel s.services
    Step-IsKept {s} (others t h counted) = kept s.services t h

    Reach-IsKept :
        {s t : Connection codec svc}
        → Reach codec svc Others me conn s t
        → IsKept svc s.services t.services
    Reach-IsKept {s} here = IsKept-refl svc s.services
    Reach-IsKept (next r st) = IsKept-trans svc (Reach-IsKept r) (Step-IsKept st)

    module _ (laws : Laws svc) where
      -- A message that the user is sent while nobody has subscribed to the user's channel, as after the
      -- fetch of the waiting messages and before the subscription, is stored where its kind is kept and
      -- PUBLISH and the INSERT answer. The channel does not get it, and whatever steps the connection
      -- takes from there to its end, with other users that take nothing out of the store, it is in the
      -- store: the connection does not fetch again.
      pub receive-waits :
          (s : Connection codec svc) (connected : Bool) (you text json payload : String)
          (c : Client codec svc) (m : IncomingMessage) (p : Plan) (n : ℕ)
          → svc.subscribers s.services (user_channel p.to) ≡ 0
          → c.services ≡ s.services
          → codec.parse_incoming text ≡ some m
          → plan you m ≡ planned p
          → p.to ≡ me
          → p.store_offline ≡ true
          → codec.outgoing_string p.outgoing ≡ some json
          → codec.outgoing_value p.outgoing ≡ some payload
          → let t₁ = log_event codec svc connected you p c.services in
            let t₂ = (svc.publish_message (user_channel p.to) json t₁).1 in
            let t = (receive codec svc connected you text c).services in
            (svc.publish_message (user_channel p.to) json t₁).0 ≡ some n
            → (svc.save_offline_message p.to payload t₂).0 ≡ some tt
            → (svc.sent t (user_channel me) ≡ svc.sent s.services (user_channel me))
              × ((u : Connection codec svc)
                  → Reach codec svc Others me conn (record s { services = t }) u
                  → (more : List String) × (svc.stored u.services me
                      ≡ (svc.stored s.services me ++ payload ∷ []) ++ more))
      receive-waits s connected you text json payload c m p n nobody same parsed planned_as to_me
            keeps spelled valued answered inserted =
          let (sent, stored) =
            receive-saved codec svc laws connected you text json payload c m p n
              (ap (λ x. svc.subscribers x (user_channel p.to)) same ∙ nobody) parsed planned_as
              keeps spelled valued answered inserted in
          let t = (receive codec svc connected you text c).services in
          (
            ap (λ x. svc.sent t (user_channel x)) (sym to_me)
                ∙ sent
                ∙ ap₂ svc.sent same (ap user_channel to_me),
            λ u r.
                let (more, e) = (Reach-IsKept r).stored me in
                (
                  more,
                  e
                      ∙ ap (λ l. l ++ more)
                          (ap (svc.stored t) (sym to_me)
                            ∙ stored
                            ∙ ap (λ l. l ++ payload ∷ []) (ap₂ svc.stored same to_me)),
                ),
          )
