-- ===== src/Relay/Tasks/Ended.antt =====
-- relay/src/lib.rs, handle_socket: how the tasks of a connection end, and what is cut off when they do.
use invisible_backend.Relay.Feed.{has_ended}
use invisible_backend.Relay.Tasks.{
  no_connection, subscribes, not_subscribed, forwards, stream_ends, Step, connects, hears, hangs_up,
  works, sends, breaks, listens, watches_presence, publishes_receipt, selects, aborts_sending,
  aborts_receiving, aborts_listening, closes, drops, others, Reach, here, next, Connection, work,
  opened, spawn_tasks, some_ended, is_over, is_stopped, waiting, closing, Listener, Forward,
}
use invisible_backend.Relay.Receiving.{advance, logging, stopped, Pc}
use invisible_backend.Prelude.{[], ◌∷◌, some, true, refl, ◌≡◌, ◌++◌, Bool, String, arith, ap, ◌∙◌}
use invisible_backend.Relay.{Codec, Services, Laws}
use invisible_backend.Relay.Route.{log_event, Client, Plan, db_event}
use invisible_backend.Models.{DatabaseEvent}

module _ (codec : Codec) (svc : Services) where
  advance-stopped :
      (connected : Bool) (me : String) (pc : Pc) (c : Client codec svc)
      → is_stopped pc ≡ true
      → is_stopped (advance codec svc connected me pc c).0 ≡ true
  unfolding advance
  advance-stopped connected me pc c h = ground arith

  Forward-ended :
      (l : Listener codec svc) {l' : Listener codec svc}
      → Forward codec svc l l'
      → has_ended l.feed.stage ≡ true
      → has_ended l'.feed.stage ≡ true
  Forward-ended l (no_connection starts) h = refl
  Forward-ended l (subscribes starts answered) h = ground arith
  Forward-ended l (not_subscribed starts failed) h = refl
  Forward-ended l (forwards before y unread at sent) h = h
  Forward-ended l (stream_ends before at) h = refl

  abbrev EndsFirst : Connection codec svc → Type 0
  EndsFirst s = is_over s.main ≡ true → some_ended codec svc s ≡ true

  module _ (Others : svc.State → svc.State → Type 0) (me conn : String) where
    Step-EndsFirst :
        {s t : Connection codec svc} → Step codec svc Others me conn s t → EndsFirst s → EndsFirst t
    unfolding some_ended work
    Step-EndsFirst (connects answered h) o = λ over. ground (arith, o over)
    Step-EndsFirst (hears text h) o = λ over. ground (arith, o over)
    Step-EndsFirst (hangs_up h) o = λ over. ground arith
    Step-EndsFirst {s} works o = λ over. ground (
      arith,
      o over,
      advance-stopped s.connected me s.pc
          (record { services = s.services; outbox = s.outbox; watching = [] }),
    )
    Step-EndsFirst (sends text rest h e) o = o
    Step-EndsFirst (breaks text rest h e) o = λ over. refl
    Step-EndsFirst (listens f) o = λ over. ground (arith, o over, Forward-ended _ f)
    Step-EndsFirst (watches_presence xs w ys e f) o = o
    Step-EndsFirst (publishes_receipt xs channel json ys h) o = o
    Step-EndsFirst (selects h started done) o = λ over. done
    Step-EndsFirst (aborts_sending h) o = λ over. refl
    Step-EndsFirst (aborts_receiving h) o = λ over. ground arith
    Step-EndsFirst (aborts_listening h) o = λ over. ground arith
    Step-EndsFirst (closes h) o = λ over. o (ground arith)
    Step-EndsFirst (drops channel more) o = o
    Step-EndsFirst (others t h counted) o = o

    Reach-keeps :
        {s t : Connection codec svc}
        → Reach codec svc Others me conn s t
        → EndsFirst s
        → EndsFirst t
    Reach-keeps here o = o
    Reach-keeps (next r st) o = Step-EndsFirst st (Reach-keeps r o)

    -- The handler removes a connection, or is about to, only after its sending task, its receiving task
    -- or the task of its channel has ended: while all three go, the user counts as connected.
    pub Reach-EndsFirst :
        (s : svc.State) {t : Connection codec svc}
        → Reach codec svc Others me conn (opened codec svc me conn s) t
        → is_over t.main ≡ true
        → some_ended codec svc t ≡ true
    unfolding spawn_tasks
    Reach-EndsFirst s r over = Reach-keeps r (λ h. absurd (ground arith)) over

    -- What has come of a message when the receiving task is stopped after its first call
    pub record IsCut (json : String) (s t : Connection codec svc) : Type 0 where
      pub pc : t.pc ≡ stopped
      pub main : t.main ≡ closing
      pub events : svc.events t.services ≡ svc.events s.services ++ json ∷ []
      pub sent : (j : String) → svc.sent t.services j ≡ svc.sent s.services j
      pub stored : (u : String) → svc.stored t.services u ≡ svc.stored s.services u

    -- A connection that loses its sending task, or its channel's, while the receiving task is at its first
    -- call about a message may be stopped right after that call, XADD: where it answers, the history
    -- then has the message, which nobody was sent and which is not stored.
    pub logged-IsCut :
        (laws : Laws svc) (s : Connection codec svc) (p : Plan) (event : DatabaseEvent)
        (json : String)
        → s.pc ≡ logging p
        → s.connected ≡ true
        → s.main ≡ waiting
        → some_ended codec svc s ≡ true
        → db_event me p.to p.outgoing ≡ some event
        → codec.event_string event ≡ some json
        → (svc.xadd json s.services).0 ≡ some tt
        → (t : Connection codec svc) × Reach codec svc Others me conn s t × IsCut json s t
    unfolding some_ended work advance log_event
    logged-IsCut laws s p event json logs connected waits ended_one told spelled answered =
        let w = work codec svc me s in
        let end : w.services ≡ (svc.xadd json s.services).1 = ground arith in
        let still : some_ended codec svc w ≡ true = ground arith in
        (
          _,
          next (next (next here works) (selects waits (ground arith) still))
              (aborts_receiving refl),
          record {
            pc = refl;
            main = refl;
            events = ap svc.events end ∙ laws.events-xadd json s.services answered;
            sent = λ j. ap (λ x. svc.sent x j) end ∙ laws.sent-xadd json j s.services;
            stored = λ u. ap (λ x. svc.stored x u) end ∙ laws.stored-xadd json u s.services;
          },
        )
