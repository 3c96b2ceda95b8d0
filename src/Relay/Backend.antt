-- ===== src/Relay/Backend.antt =====
-- The services that the relay runs with (relay/src/main.rs puts them together): the messages that wait
-- in PostgreSQL, presence and Pub/Sub in Redis (shared/src/repository.rs), and the stream that the
-- history worker reads, where `entry_id i` is the id that * makes for the i-th entry.
pub mod Logged
pub mod Growing
pub mod Waited
use invisible_backend.Repository.Offline.{
  save_offline_message, fetch_and_delete_offline_messages, insert_offline,
}
use invisible_backend.Repository.Presence.{add_connection, remove_connection, is_online, Redis}
use invisible_backend.Repository.PubSub.{publish_message, PubSub}
use invisible_backend.Prelude.{
  [], ◌∷◌, suc, inl, inr, none, some, true, false, if◌then◌else◌, ◌==◌, map, ◌≡◌, ◌++◌, Option, ℕ,
  List, String, Bool, retain, arith, Option-cases, string_eq, refl, ◌-◌,
}
use invisible_backend.Postgres.{ok, err, World, Result, DbError, query}
use invisible_backend.Api.Worker.Loop.{StreamId, Stream}
use invisible_backend.Postgres.Schema.{OfflineMessage}
use invisible_backend.Models.{OutgoingMessage}
use invisible_backend.Relay.{Services, Laws}

pub record Backend : Type 0 where
  pub world : World
  pub redis : Redis
  pub pubsub : PubSub
  pub stream : Stream
  pub entries : ℕ

abbrev pub in_world : {A : Type 0} → Backend → Result DbError A × World → Option A × Backend
in_world s (ok a, w) = (some a, record s { world = w })
in_world s (err e, w) = (none, record s { world = w })

abbrev pub in_redis : {A : Type 0} → Backend → Option A × Redis → Option A × Backend
in_redis s (a, r) = (a, record s { redis = r })

-- get_async_pubsub and SUBSCRIBE: a connection more that the channel's texts go to
abbrev pub subscribe_now : String → PubSub → List Bool → Option (Unit {0}) × PubSub
subscribe_now c p [] = (
  some tt,
  record p { subscribers = λ j. if c == j then suc (p.subscribers j) else p.subscribers j },
)
subscribe_now c p (true ∷ rest) = (none, record p { outages = rest })
subscribe_now c p (false ∷ rest) = (
  some tt,
  record p {
    subscribers = λ j. if c == j then suc (p.subscribers j) else p.subscribers j;
    outages = rest;
  },
)

abbrev pub subscribe : String → PubSub → Option (Unit {0}) × PubSub
subscribe c p = subscribe_now c p p.outages

-- The connection of a subscription is dropped, with pubsub_task, and Redis drops the subscription.
abbrev pub unsubscribe : String → PubSub → PubSub
unsubscribe c p = record p {
  subscribers = λ j. if c == j then p.subscribers j - 1 else p.subscribers j;
}

abbrev pub in_pubsub : {A : Type 0} → Backend → Option A × PubSub → Option A × Backend
in_pubsub s (a, p) = (a, record s { pubsub = p })

-- XADD message_events * event json
abbrev pub add_entry : (ℕ → String) → String → Backend → List Bool → Option (Unit {0}) × Backend
add_entry entry_id json s [] = (
  some tt,
  record s {
    stream = record s.stream {
      fresh = s.stream.fresh ++ record { id = entry_id s.entries; event = some json } ∷ [];
    };
    entries = suc s.entries;
  },
)
add_entry entry_id json s (true ∷ rest) =
    (none, record s { stream = record s.stream { outages = rest } })
add_entry entry_id json s (false ∷ rest) = (
  some tt,
  record s {
    stream = record s.stream {
      fresh = s.stream.fresh ++ record { id = entry_id s.entries; event = some json } ∷ [];
      outages = rest;
    };
    entries = suc s.entries;
  },
)

unfoldable pub xadd : (ℕ → String) → String → Backend → Option (Unit {0}) × Backend
xadd entry_id json s = add_entry entry_id json s s.stream.outages

-- the texts of entries
abbrev pub onto_texts : Option String → List String → List String
onto_texts none rest = rest
onto_texts (some json) rest = json ∷ rest

abbrev pub texts : List StreamId → List String
texts [] = []
texts (e ∷ es) = onto_texts e.event (texts es)

abbrev pub payloads : String → List OfflineMessage → List String
payloads user ms = map (λ m. m.payload) (retain (λ m. m.to_user == user) ms)

texts-append :
    (es : List StreamId) (e : StreamId) (json : String)
    → e.event ≡ some json
    → texts (es ++ e ∷ []) ≡ texts es ++ json ∷ []
texts-append [] e json h = ground arith
texts-append (x ∷ xs) e json h = elim (Option-cases x.event) [
  | inl n ↦ ground (arith, texts-append xs e json h)
  | inr (t, n) ↦ ground (arith, texts-append xs e json h)
]

pub payloads-append :
    (user : String) (ms : List OfflineMessage) (m : OfflineMessage)
    → payloads user (ms ++ m ∷ [])
      ≡ (if m.to_user == user then payloads user ms ++ m.payload ∷ [] else payloads user ms)
payloads-append user [] m = ground arith
payloads-append user (x ∷ xs) m = ground (arith, payloads-append user xs m)

module _ (from_value : String → Option OutgoingMessage) (entry_id : ℕ → String) where
  abbrev pub backend : Services
  backend = record {
    State = Backend;
    publish_message = λ c m s. in_pubsub s (publish_message c m s.pubsub);
    save_offline_message = λ to p s. in_world s (save_offline_message to p s.world);
    fetch_and_delete_offline_messages =
        λ u s. in_world s (fetch_and_delete_offline_messages from_value u s.world);
    is_online = λ u s. in_redis s (is_online u s.redis);
    add_connection = λ u c s. in_redis s (add_connection u c s.redis);
    remove_connection = λ u c s. in_redis s (remove_connection u c s.redis);
    xadd = λ e s. xadd entry_id e s;
    subscribe = λ c s. in_pubsub s (subscribe c s.pubsub);
    unsubscribe = λ c s. record s { pubsub = unsubscribe c s.pubsub };
    subscribers = λ s c. s.pubsub.subscribers c;
    sent = λ s c. s.pubsub.sent c;
    stored = λ s u. payloads u s.world.db.offline_messages;
    events = λ s. texts s.stream.fresh;
  }

  -- The services as they are keep the laws that the theorems on the relay ask for.
  pub backend-Laws : Laws backend
  unfolding publish_message save_offline_message query insert_offline xadd
  backend-Laws = record {
    sent-publish = λ c m j s n h. ground arith;
    count-publish = λ c m s n h. ground arith;
    subscribers-publish = λ c m j s. ground arith;
    stored-publish = λ c m u s. ground arith;
    events-publish = λ c m s. ground arith;
    stored-save = λ to p u s h. ground (
      arith,
      payloads-append u s.world.db.offline_messages (record {
        id = s.world.db.next_id;
        to_user = to;
        payload = p;
        created_at = s.world.db.now;
      }),
    );
    sent-save = λ to p j s. ground arith;
    events-save = λ to p s. ground arith;
    events-xadd = λ e s h. ground (
      arith,
      texts-append s.stream.fresh (record { id = entry_id s.entries; event = some e }) e refl,
    );
    sent-xadd = λ e j s. ground arith;
    stored-xadd = λ e u s. ground arith;
    subscribers-xadd = λ e j s. ground arith;
    sent-add = λ u c j s. ground arith;
    subscribers-add = λ u c j s. ground arith;
    sent-remove = λ u c j s. ground arith;
    subscribers-remove = λ u c j s. ground arith;
  }
