-- ===== src/Relay/Tasks/Counted.antt =====
-- relay/src/lib.rs, handle_socket: the subscriptions of a connection, and the subscribers that Redis counts.
use invisible_backend.Relay.Feed.{new_feed, own, Feed, own_feed}
use invisible_backend.Relay.Tasks.{
  no_connection, subscribes, not_subscribed, forwards, stream_ends, Step, connects, hears, hangs_up,
  works, sends, breaks, listens, watches_presence, publishes_receipt, selects, aborts_sending,
  aborts_receiving, aborts_listening, closes, drops, others, Reach, here, next, Connection, work,
  Listener, Forward,
}
use invisible_backend.Prelude.{
  [], ◌∷◌, refl, map, ◌≡◌, ◌++◌, List, String, ◌+◌, arith, ◌≤◌, ℕ, eq_of_==, string_eq, ap,
}
use invisible_backend.Relay.{Codec, Services}
use invisible_backend.Relay.Later.{Growth}
use invisible_backend.Relay.Tasks.Standing.{close_session-Stands, advance-Stands}
use invisible_backend.Relay.Receiving.{advance}

pub own-middle :
    (xs : List Feed) (w : Feed) (ys : List Feed) (c : String)
    → own (xs ++ w ∷ ys) c ≡ own_feed w c + own (xs ++ ys) c
own-middle [] w ys c = refl
own-middle (x ∷ xs) w ys c = omega (arith, own-middle xs w ys c)

own-new :
    (xs : List Feed) (channels : List String) (c : String)
    → own (xs ++ map new_feed channels) c ≡ own xs c
own-new [] [] c = refl
own-new [] (d ∷ ds) c = ground (arith, own-new [] ds c)
own-new (x ∷ xs) ds c = omega (arith, own-new xs ds c)

module _ (codec : Codec) (svc : Services) where
  -- Redis counts the subscriptions of this connection.
  abbrev pub Counted : Connection codec svc → Type 0
  Counted s = (c : String) → own (s.feed ∷ s.watches) c ≤ svc.subscribers s.services c

  module _ (growth : Growth svc) where
    -- with `k c` subscriptions to `c` that do not change
    Forward-counted :
        (k : String → ℕ) (l : Listener codec svc) {l' : Listener codec svc}
        → Forward codec svc l l'
        → ((c : String) → own_feed l.feed c + k c ≤ svc.subscribers l.services c)
        → (c : String) → own_feed l'.feed c + k c ≤ svc.subscribers l'.services c
    Forward-counted k l (no_connection starts) h c = ground (arith, h c)
    Forward-counted k l (subscribes starts answered) h c = ground (
      arith,
      h c,
      eq_of_== l.feed.channel c,
      growth.counted_subscribe l.feed.channel l.services answered,
      (growth.later_subscribe l.feed.channel l.services).subscribers c,
    )
    Forward-counted k l (not_subscribed starts failed) h c =
        ground (arith, h c, (growth.later_subscribe l.feed.channel l.services).subscribers c)
    Forward-counted k l (forwards before y unread at sent) h c = h c
    Forward-counted k l (stream_ends before at) h c = ground (arith, h c)

    module _ (Others : svc.State → svc.State → Type 0) (me conn : String) where
      Step-Counted :
          {s t : Connection codec svc} → Step codec svc Others me conn s t → Counted s → Counted t
      unfolding work
      Step-Counted (connects answered h) o = o
      Step-Counted (hears text h) o = o
      Step-Counted (hangs_up h) o = o
      Step-Counted {s} works o = λ c. omega (
        arith,
        o c,
        own-new s.watches
            (advance codec svc s.connected me s.pc
              (record { services = s.services; outbox = s.outbox; watching = [] })).1.watching
            c,
        (advance-Stands svc growth codec s.connected me s.pc (record {
          services = s.services;
          outbox = s.outbox;
          watching = [];
        })).later.subscribers
            c,
      )
      Step-Counted (sends text rest h e) o = o
      Step-Counted (breaks text rest h e) o = o
      Step-Counted {s} (listens {l} f) o = Forward-counted (own s.watches) _ f o
      Step-Counted {s} (watches_presence xs w ys {l} e f) o =
          let others_own : String → ℕ = λ c. own_feed s.feed c + own (xs ++ ys) c in
          let before : (c : String) → own_feed w c + others_own c ≤ svc.subscribers s.services c =
            λ c. omega (arith, o c, own-middle xs w ys c, ap (λ l. own l c) e) in
          λ c. omega (arith, Forward-counted others_own _ f before c, own-middle xs l.feed ys c)
      Step-Counted {s} (publishes_receipt xs channel json ys h) o =
          λ c. omega (arith, o c, (growth.later_publish channel json s.services).subscribers c)
      Step-Counted (selects h started done) o = o
      Step-Counted (aborts_sending h) o = o
      Step-Counted (aborts_receiving h) o = o
      Step-Counted (aborts_listening h) o = λ c. ground (arith, o c)
      Step-Counted {s} (closes h) o = λ c. omega (
        arith,
        o c,
        (close_session-Stands svc growth codec me conn s.services).later.subscribers c,
      )
      Step-Counted {s} (drops channel more) o = λ c. ground (
        arith,
        o c,
        more,
        eq_of_== channel c,
        growth.counted_unsubscribe channel s.services,
        growth.uncounted_unsubscribe channel c s.services,
      )
      Step-Counted {s} (others t h counted) o = counted

      -- In every order of steps
      pub Reach-Counted :
          {s t : Connection codec svc} → Reach codec svc Others me conn s t → Counted s → Counted t
      Reach-Counted here o = o
      Reach-Counted (next r st) o = Step-Counted st (Reach-Counted r o)
