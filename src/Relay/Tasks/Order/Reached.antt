-- ===== src/Relay/Tasks/Order/Reached.antt =====
-- relay/src/lib.rs, handle_socket: every order that the tasks of a connection may run in, and the order of
-- what its socket gets.
use invisible_backend.Relay.Feed.{new_feed, Feed}
use invisible_backend.Relay.Tasks.{
  Step, connects, hears, hangs_up, works, sends, breaks, listens, watches_presence,
  publishes_receipt, selects, aborts_sending, aborts_receiving, aborts_listening, closes, drops,
  others, Reach, here, next, Connection, opened, work, spawn_tasks,
}
use invisible_backend.Relay.Tasks.Order.{
  IsOrdered, InOrder, IsAnswer, IsPresenceChannel, IsOrdered-later, IsOrdered-aside,
  IsOrdered-watches, IsOrdered-ended, nothing,
}
use invisible_backend.Relay.Tasks.Standing.{close_session-Stands, advance-Stands}
use invisible_backend.Relay.Route.{watch_presence, Client, Plan}
use invisible_backend.Relay.Receiving.{
  advance, asking, logging, publishing, confirming, saving, connecting, reading, stopped, Pc,
}
use invisible_backend.Prelude.{
  [], ◌∷◌, inl, inr, none, some, false, refl, map, ◌≡◌, ◌++◌, ◌⊎◌, String, Bool, Option-cases, List,
  subst, arith, ap, ◌∙◌, sym, append_assoc, All, All-append, append-nil,
}
use invisible_backend.Relay.{Codec, Services, presence_channel, user_channel}
use invisible_backend.Relay.Later.{Growth, IsGrown, unsubscribe-IsGrown}
use invisible_backend.Models.{OutgoingMessage}
use invisible_backend.Relay.Tasks.Order.Forwarded.{Forward-feed, Forward-watch}
use invisible_backend.Relay.Tasks.Standing.{close_session-Stands}
use invisible_backend.Relay.Session.{open_session}

module _ (codec : Codec) (svc : Services) where
  -- What a call of the receiving task adds to the queue are answers, and to the watches presence channels.
  record Adds (c c' : Client codec svc) : Type 0 where
    outbox :
        (c'.outbox ≡ c.outbox)
        ⊎ ((y : String) × (c'.outbox ≡ c.outbox ++ y ∷ []) × IsAnswer codec svc y)
    watching :
        (c'.watching ≡ c.watching)
        ⊎ ((uid : String) × (c'.watching ≡ c.watching ++ presence_channel uid ∷ []))

  Adds-nothing : (c : Client codec svc) (t : svc.State) → Adds c (record c { services = t })
  Adds-nothing c t = record { outbox = inl refl; watching = inl refl }

  watch_presence-Adds :
      (uid : String) (c : Client codec svc) → Adds c (watch_presence codec svc (uid ∷ []) c)
  unfolding watch_presence
  watch_presence-Adds uid c =
      let online : Bool = elim (svc.is_online uid c.services).0 [ none ↦ false | some b ↦ b ] in
      record {
        outbox =
            elim (Option-cases
              (codec.outgoing_string (OutgoingMessage.presence_update uid online))) [
                | inl e ↦ inl (ground arith)
                | inr (y, e) ↦ inr (y, ground arith, (uid, online, e))
              ];
        watching = inr (uid, refl);
      }

  publishing-Adds :
      (connected : Bool) (me : String) (p : Plan) (c : Client codec svc)
      → Adds c (advance codec svc connected me (publishing p) c).1
  unfolding advance
  publishing-Adds connected me p c = elim (Option-cases (codec.outgoing_string p.outgoing)) [
    | inl e ↦ subst (Adds c) (ground arith) (Adds-nothing c c.services)
    | inr (json, e) ↦
        subst (Adds c) (ground arith)
          (Adds-nothing c (svc.publish_message (user_channel p.to) json c.services).1)
  ]

  advance-Adds :
      (connected : Bool) (me : String) (pc : Pc) (c : Client codec svc)
      → Adds c (advance codec svc connected me pc c).1
  unfolding advance
  advance-Adds connected me connecting c = Adds-nothing c c.services
  advance-Adds connected me reading c = Adds-nothing c c.services
  advance-Adds connected me stopped c = Adds-nothing c c.services
  advance-Adds connected me (logging p) c = Adds-nothing c _
  advance-Adds connected me (publishing p) c = publishing-Adds connected me p c
  advance-Adds connected me (confirming p) c = Adds-nothing c _
  advance-Adds connected me (saving p) c = Adds-nothing c _
  advance-Adds connected me (asking []) c = Adds-nothing c c.services
  advance-Adds connected me (asking (uid ∷ uids)) c = watch_presence-Adds uid c

  watching-IsPresenceChannel :
      {c c' : Client codec svc}
      → c.watching ≡ []
      → Adds c c'
      → All (IsPresenceChannel codec svc) (map new_feed c'.watching)
  watching-IsPresenceChannel none_yet adds = elim adds.watching [
    | inl e ↦
        subst (λ l. All (IsPresenceChannel codec svc) (map new_feed l)) (sym (e ∙ none_yet)) tt
    | inr (uid, e) ↦
        subst (λ l. All (IsPresenceChannel codec svc) (map new_feed l))
          (sym (e ∙ ap (λ l. l ++ presence_channel uid ∷ []) none_yet)) ((uid, refl), tt)
  ]

  Adds-IsOrdered :
      {me : String} {first : List String} (wire : List String) {s : svc.State} {feed : Feed}
      {ws : List Feed} {c c' : Client codec svc}
      → Adds c c'
      → IsOrdered codec svc me first s (wire ++ c.outbox) feed ws
      → IsOrdered codec svc me first s (wire ++ c'.outbox) feed ws
  Adds-IsOrdered {me} {first} wire {s} {feed} {ws} {c} adds o = elim adds.outbox [
    | inl e ↦ subst (λ l. IsOrdered codec svc me first s (wire ++ l) feed ws) (sym e) o
    | inr (y, e, answer) ↦
        subst (λ l. IsOrdered codec svc me first s l feed ws)
          (append_assoc wire c.outbox (y ∷ []) ∙ ap (λ l. wire ++ l) (sym e))
          (IsOrdered-aside codec svc y (inl answer) o)
  ]

  module _ (growth : Growth svc) (Others : svc.State → svc.State → Type 0)
      (later : (s t : svc.State) → Others s t → IsGrown svc s t) (me conn : String)
      (first : List String) where
    Step-InOrder :
        {s t : Connection codec svc}
        → Step codec svc Others me conn s t
        → InOrder codec svc me first s
        → InOrder codec svc me first t
    unfolding work
    Step-InOrder (connects answered h) o = o
    Step-InOrder (hears text h) o = o
    Step-InOrder (hangs_up h) o = o
    Step-InOrder {s} works o =
        let c : Client codec svc = record {
          services = s.services;
          outbox = s.outbox;
          watching = [];
        } in
        let adds = advance-Adds s.connected me s.pc c in
        let stands = advance-Stands svc growth codec s.connected me s.pc c in
        IsOrdered-watches codec svc _
          (All-append (IsPresenceChannel codec svc) s.watches _ o.watched
            (watching-IsPresenceChannel refl adds))
          (Adds-IsOrdered s.wire adds (IsOrdered-later codec svc stands.later.sent o))
    Step-InOrder {s} (sends text rest h e) o =
        subst (λ q. IsOrdered codec svc me first s.services q s.feed s.watches)
          (ap (λ l. s.wire ++ l) e ∙ sym (append_assoc s.wire (text ∷ []) rest)) o
    Step-InOrder (breaks text rest h e) o = o
    Step-InOrder {s} (listens f) o = Forward-feed codec svc growth me first s.wire _ f o
    Step-InOrder {s} (watches_presence xs w ys e f) o =
        Forward-watch codec svc growth me first s.wire xs ys _ f
          (subst (IsOrdered codec svc me first s.services (s.wire ++ s.outbox) s.feed) e o)
    Step-InOrder {s} (publishes_receipt xs channel json ys h) o =
        IsOrdered-later codec svc (growth.later_publish channel json s.services).sent o
    Step-InOrder (selects h started done) o = o
    Step-InOrder (aborts_sending h) o = o
    Step-InOrder (aborts_receiving h) o = o
    Step-InOrder (aborts_listening h) o = IsOrdered-ended codec svc o
    Step-InOrder {s} (closes h) o =
        IsOrdered-later codec svc
          (close_session-Stands svc growth codec me conn s.services).later.sent o
    Step-InOrder {s} (drops channel more) o =
        IsOrdered-later codec svc (unsubscribe-IsGrown svc growth channel s.services) o
    Step-InOrder {s} (others t h counted) o = IsOrdered-later codec svc (later s.services t h) o

    pub Reach-keeps :
        {s t : Connection codec svc}
        → Reach codec svc Others me conn s t
        → InOrder codec svc me first s
        → InOrder codec svc me first t
    Reach-keeps here o = o
    Reach-keeps (next r st) o = Step-InOrder st (Reach-keeps r o)

  pub opened-InOrder :
      (me conn : String) (s : svc.State)
      → InOrder codec svc me (open_session codec svc me conn s).outbox (opened codec svc me conn s)
  unfolding spawn_tasks
  opened-InOrder me conn s = record {
    asides = [];
    rest = [];
    whole = sym (append-nil _);
    merged = nothing;
    aside = tt;
    channel = refl;
    follows = refl;
    watched = tt;
  }
