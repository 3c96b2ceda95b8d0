-- ===== src/Relay/Tasks/Order/Moves.antt =====
-- relay/src/lib.rs, handle_socket: what each step of a connection's tasks is to the subscription of
-- `pubsub_task`.
use invisible_backend.Relay.Feed.{starting, listening, ended, Feed}
use invisible_backend.Relay.Tasks.{
  no_connection, subscribes, not_subscribed, forwards, stream_ends, Step, connects, hears, hangs_up,
  works, sends, breaks, listens, watches_presence, publishes_receipt, selects, aborts_sending,
  aborts_receiving, aborts_listening, closes, drops, others, Connection, work, Listener, Forward,
}
use invisible_backend.Prelude.{[], ◌∷◌, refl, ◌≡◌, ◌++◌, List, String, sym, append-nil}
use invisible_backend.Relay.{Codec, Services}
use invisible_backend.Relay.Later.{Growth, IsGrown, unsubscribe-IsGrown}
use invisible_backend.Relay.Tasks.Standing.{close_session-Stands, advance-Stands}

module _ (codec : Codec) (svc : Services) where
  -- What a step is to `pubsub_task`, with the state of the services: nothing, its SUBSCRIBE, a text that
  -- it takes, or its end.
  pub data Moves (s t : svc.State) (f f' : Feed) : Type 0 where
    stays : IsGrown svc s t → f' ≡ f → Moves s t f f'
    opens :
        f.stage ≡ starting
        → svc.sent t f.channel ≡ svc.sent s f.channel
        → f' ≡ record f { stage = listening (svc.sent s f.channel) }
        → Moves s t f f'
    takes :
        (before : List String) (y : String) (unread : List String)
        → f.stage ≡ listening before
        → svc.sent s f.channel ≡ (before ++ f.forwarded) ++ y ∷ unread
        → svc.sent t f.channel ≡ svc.sent s f.channel
        → f' ≡ record f { forwarded = f.forwarded ++ y ∷ [] }
        → Moves s t f f'
    ends : IsGrown svc s t → f' ≡ record f { stage = ended } → Moves s t f f'

  same-IsGrown : (s : svc.State) → IsGrown svc s s
  same-IsGrown s j = ([], sym (append-nil _))

  Forward-Moves :
      (growth : Growth svc) (l : Listener codec svc) {l' : Listener codec svc}
      → Forward codec svc l l'
      → Moves l.services l'.services l.feed l'.feed
  Forward-Moves growth l (no_connection starts) = ends (same-IsGrown l.services) refl
  Forward-Moves growth l (subscribes starts answered) =
      opens starts (growth.sent_subscribe l.feed.channel l.feed.channel l.services) refl
  Forward-Moves growth l (not_subscribed starts failed) =
      ends (growth.later_subscribe l.feed.channel l.services).sent refl
  Forward-Moves growth l (forwards before y unread at sent) =
      takes before y unread at sent refl refl
  Forward-Moves growth l (stream_ends before at) = ends (same-IsGrown l.services) refl

  Forward-IsGrown :
      (growth : Growth svc) (l : Listener codec svc) {l' : Listener codec svc}
      → Forward codec svc l l'
      → IsGrown svc l.services l'.services
  Forward-IsGrown growth l (no_connection starts) = same-IsGrown l.services
  Forward-IsGrown growth l (subscribes starts answered) =
      (growth.later_subscribe l.feed.channel l.services).sent
  Forward-IsGrown growth l (not_subscribed starts failed) =
      (growth.later_subscribe l.feed.channel l.services).sent
  Forward-IsGrown growth l (forwards before y unread at sent) = same-IsGrown l.services
  Forward-IsGrown growth l (stream_ends before at) = same-IsGrown l.services

  module _ (growth : Growth svc) (Others : svc.State → svc.State → Type 0)
      (later : (s t : svc.State) → Others s t → IsGrown svc s t) (me conn : String) where
    pub Step-Moves :
        {s t : Connection codec svc}
        → Step codec svc Others me conn s t
        → Moves s.services t.services s.feed t.feed
    unfolding work
    Step-Moves {s} (connects answered h) = stays (same-IsGrown s.services) refl
    Step-Moves {s} (hears text h) = stays (same-IsGrown s.services) refl
    Step-Moves {s} (hangs_up h) = stays (same-IsGrown s.services) refl
    Step-Moves {s} works =
        stays
          (advance-Stands svc growth codec s.connected me s.pc
            (record { services = s.services; outbox = s.outbox; watching = [] })).later.sent
          refl
    Step-Moves {s} (sends text rest h e) = stays (same-IsGrown s.services) refl
    Step-Moves {s} (breaks text rest h e) = stays (same-IsGrown s.services) refl
    Step-Moves {s} (listens f) = Forward-Moves growth _ f
    Step-Moves {s} (watches_presence xs w ys e f) = stays (Forward-IsGrown growth _ f) refl
    Step-Moves {s} (publishes_receipt xs channel json ys h) =
        stays (growth.later_publish channel json s.services).sent refl
    Step-Moves {s} (selects h started done) = stays (same-IsGrown s.services) refl
    Step-Moves {s} (aborts_sending h) = stays (same-IsGrown s.services) refl
    Step-Moves {s} (aborts_receiving h) = stays (same-IsGrown s.services) refl
    Step-Moves {s} (aborts_listening h) = ends (same-IsGrown s.services) refl
    Step-Moves {s} (closes h) =
        stays (close_session-Stands svc growth codec me conn s.services).later.sent refl
    Step-Moves {s} (drops channel more) =
        stays (unsubscribe-IsGrown svc growth channel s.services) refl
    Step-Moves {s} (others t h counted) = stays (later s.services t h) refl
