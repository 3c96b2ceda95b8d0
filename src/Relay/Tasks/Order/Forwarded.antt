-- ===== src/Relay/Tasks/Order/Forwarded.antt =====
-- relay/src/lib.rs, handle_socket: the steps of a forwarding task, and the order of what it queues.
use invisible_backend.Relay.Feed.{listening, Feed}
use invisible_backend.Relay.Tasks.{
  no_connection, subscribes, not_subscribed, forwards, stream_ends, Listener, Forward,
}
use invisible_backend.Relay.Tasks.Order.{
  IsOrdered, Follows, IsOrdered-later, IsOrdered-aside, IsOrdered-stage, IsOrdered-forwarded,
  IsOrdered-ended, IsOrdered-watches, IsPresenceChannel,
}
use invisible_backend.Prelude.{
  [], ◌∷◌, inr, refl, ◌≡◌, ◌++◌, String, List, subst, All-left, append_assoc, All-right, In,
  All-append, sym, ◌∙◌, In-middle, append-nil, ap,
}
use invisible_backend.Relay.{Codec, Services}
use invisible_backend.Relay.Later.{Growth}

module _ (codec : Codec) (svc : Services) (growth : Growth svc) (me : String)
    (first wire : List String) where
  -- a step of `pubsub_task`
  pub Forward-feed :
      {watches : List Feed} (l : Listener codec svc) {l' : Listener codec svc}
      → Forward codec svc l l'
      → IsOrdered codec svc me first l.services (wire ++ l.outbox) l.feed watches
      → IsOrdered codec svc me first l'.services (wire ++ l'.outbox) l'.feed watches
  Forward-feed l (no_connection starts) o = IsOrdered-ended codec svc o
  Forward-feed l (subscribes starts answered) o =
      let sent = svc.sent l.services l.feed.channel in
      let same = growth.sent_subscribe l.feed.channel l.feed.channel l.services in
      let later =
        IsOrdered-later codec svc (growth.later_subscribe l.feed.channel l.services).sent o in
      let none_yet : l.feed.forwarded ≡ [] =
        subst (λ g. Follows codec svc g sent l.feed.forwarded) starts o.follows in
      IsOrdered-stage codec svc (listening sent)
        (
          [],
          same
              ∙ sym (append-nil sent)
              ∙ sym (append-nil (sent ++ []))
              ∙ ap (λ x. (sent ++ x) ++ []) (sym none_yet),
        )
        later
  Forward-feed l (not_subscribed starts failed) o =
      IsOrdered-ended codec svc
        (IsOrdered-later codec svc (growth.later_subscribe l.feed.channel l.services).sent o)
  Forward-feed {watches} l (forwards before y unread here sent) o =
      subst
        (λ q.
          IsOrdered codec svc me first l.services q
            (record l.feed { forwarded = l.feed.forwarded ++ y ∷ [] }) watches)
        (append_assoc wire l.outbox (y ∷ []))
        (IsOrdered-forwarded codec svc before y unread here sent o)
  Forward-feed l (stream_ends before here) o = IsOrdered-ended codec svc o

  -- a step of a task that watches someone's presence
  Forward-channel :
      (l : Listener codec svc) {l' : Listener codec svc}
      → Forward codec svc l l'
      → l'.feed.channel ≡ l.feed.channel
  Forward-channel l (no_connection starts) = refl
  Forward-channel l (subscribes starts answered) = refl
  Forward-channel l (not_subscribed starts failed) = refl
  Forward-channel l (forwards before y unread here sent) = refl
  Forward-channel l (stream_ends before here) = refl

  Forward-aside :
      {feed : Feed} {watches : List Feed} (l : Listener codec svc) {l' : Listener codec svc}
      → Forward codec svc l l'
      → IsPresenceChannel codec svc l.feed
      → IsOrdered codec svc me first l.services (wire ++ l.outbox) feed watches
      → IsOrdered codec svc me first l'.services (wire ++ l'.outbox) feed watches
  Forward-aside l (no_connection starts) (uid, e) o = o
  Forward-aside l (subscribes starts answered) (uid, e) o =
      IsOrdered-later codec svc (growth.later_subscribe l.feed.channel l.services).sent o
  Forward-aside l (not_subscribed starts failed) (uid, e) o =
      IsOrdered-later codec svc (growth.later_subscribe l.feed.channel l.services).sent o
  Forward-aside {feed} {watches} l (forwards before y unread here sent) (uid, e) o =
      subst (λ q. IsOrdered codec svc me first l.services q feed watches)
        (append_assoc wire l.outbox (y ∷ []))
        (IsOrdered-aside codec svc y
          (inr (
            uid,
            subst (λ c. In y (svc.sent l.services c)) e
                (subst (In y) (sym sent) (In-middle y (before ++ l.feed.forwarded) unread)),
          ))
          o)
  Forward-aside l (stream_ends before here) (uid, e) o = o

  pub Forward-watch :
      {feed : Feed} (xs ys : List Feed) (l : Listener codec svc) {l' : Listener codec svc}
      → Forward codec svc l l'
      → IsOrdered codec svc me first l.services (wire ++ l.outbox) feed (xs ++ l.feed ∷ ys)
      → IsOrdered codec svc me first l'.services (wire ++ l'.outbox) feed (xs ++ l'.feed ∷ ys)
  Forward-watch xs ys l {l'} f o =
      let of_before = All-left (IsPresenceChannel codec svc) xs (l.feed ∷ ys) o.watched in
      let (own, of_after) = All-right (IsPresenceChannel codec svc) xs (l.feed ∷ ys) o.watched in
      IsOrdered-watches codec svc (xs ++ l'.feed ∷ ys)
        (All-append (IsPresenceChannel codec svc) xs (l'.feed ∷ ys) of_before
          ((own.0, Forward-channel l f ∙ own.1), of_after))
        (Forward-aside l f own o)
