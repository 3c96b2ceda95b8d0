-- ===== src/Relay/Backend/Growing.antt =====
-- The repositories of shared/src/repository.rs, as relay/src/lib.rs calls them: what a call leaves
-- standing when it succeeds and when it fails.
use invisible_backend.Repository.Offline.{save_offline_message, insert_offline}
use invisible_backend.Repository.PubSub.{publish_message, PubSub, delivered, publish_now}
use invisible_backend.Relay.Backend.{xadd, backend, Backend, payloads, payloads-append, in_world}
use invisible_backend.Prelude.{
  [], inl, inr, ◌≡◌, ◌++◌, String, Option, ℕ, ap, ◌∙◌, sym, append-nil, arith, ◌∷◌, true, false,
  ◌==◌, ◌&&◌, List, Bool, Bool-cases, ltb, string_eq, refl, ==_refl,
}
use invisible_backend.Models.{OutgoingMessage}
use invisible_backend.Relay.{Services}
use invisible_backend.Relay.Later.{IsLater, IsKept, Growth}
use invisible_backend.Postgres.{ok, err, Result, query, call, DbError, same_error, World}
use invisible_backend.Postgres.Schema.{Database, OfflineMessage}

delivered-grows :
    (c m j : String) (p : PubSub) → (more : List String) × (delivered c m p j ≡ p.sent j ++ more)
delivered-grows c m j p = elim (Bool-cases (c == j && ltb 0 (p.subscribers c))) [
  | inl goes ↦ (m ∷ [], ground arith)
  | inr stays ↦ ([], ground (arith, append-nil (p.sent j)))
]

publish-grows :
    (c m j : String) (p : PubSub) (outages : List Bool)
    → (more : List String) × ((publish_now c m p outages).1.sent j ≡ p.sent j ++ more)
publish-grows c m j p [] = delivered-grows c m j p
publish-grows c m j p (true ∷ rest) = ([], sym (append-nil _))
publish-grows c m j p (false ∷ rest) = delivered-grows c m j p

abbrev waits : String → String → Database → OfflineMessage
waits to payload db = record {
  id = db.next_id;
  to_user = to;
  payload = payload;
  created_at = db.now;
}

added-grows :
    (to payload user : String) (db : Database)
    → (more : List String) × (payloads user (db.offline_messages ++ waits to payload db ∷ [])
        ≡ payloads user db.offline_messages ++ more)
added-grows to payload user db =
    let told = payloads-append user db.offline_messages (waits to payload db) in
    elim (Bool-cases (to == user)) [
      | inl his ↦ (payload ∷ [], ground (arith, told))
      | inr other ↦ ([], ground (arith, told, append-nil (payloads user db.offline_messages)))
    ]

save-grows :
    (to payload user : String) (db : Database) (outages : List Bool)
    → (more : List String) × (payloads user
          (call same_error (insert_offline to payload) db outages).1.db.offline_messages
        ≡ payloads user db.offline_messages ++ more)
unfolding insert_offline
save-grows to payload user db [] = added-grows to payload user db
save-grows to payload user db (true ∷ rest) = ([], sym (append-nil _))
save-grows to payload user db (false ∷ rest) = added-grows to payload user db

in_world-world :
    {A : Type 0} (s : Backend) (r : Result DbError A × World) → (in_world s r).1.world ≡ r.1
in_world-world s (ok a, w) = refl
in_world-world s (err e, w) = refl

module _ (from_value : String → Option OutgoingMessage) (entry_id : ℕ → String) where
  abbrev svc : Services
  svc = backend from_value entry_id

  quiet : (s s' : Backend) → s'.pubsub ≡ s.pubsub → IsLater svc s s'
  quiet s s' e = record {
    sent = λ j. ([], ap (λ p. p.sent j) e ∙ sym (append-nil _));
    subscribers = λ j. ground (arith, e);
  }

  untouched :
      (s s' : Backend)
      → s'.world.db.offline_messages ≡ s.world.db.offline_messages
      → IsKept svc s s'
  untouched s s' e = record { stored = λ u. ([], ap (payloads u) e ∙ sym (append-nil _)) }

  pub backend-Growth : Growth svc
  unfolding publish_message save_offline_message query insert_offline xadd
  backend-Growth = record {
    later_publish = λ c m s. record {
      sent = λ j. publish-grows c m j s.pubsub s.pubsub.outages;
      subscribers = λ j. ground arith;
    };
    later_save = λ to p s. quiet s _ (ground arith);
    later_fetch = λ u s. quiet s _ (ground arith);
    later_online = λ u s. quiet s _ (ground arith);
    later_add = λ u c s. quiet s _ (ground arith);
    later_remove = λ u c s. quiet s _ (ground arith);
    later_xadd = λ e s. quiet s _ (ground arith);
    later_subscribe = λ c s. record {
      sent = λ j. ([], ground (arith, append-nil (s.pubsub.sent j)));
      subscribers = λ j. ground arith;
    };
    sent_subscribe = λ c j s. ground arith;
    sent_unsubscribe = λ c j s. refl;
    counted_unsubscribe = λ c s. ground (arith, ==_refl c);
    uncounted_unsubscribe = λ c j s h. ground arith;
    counted_subscribe = λ c s h. ground (arith, ==_refl c);
    kept_publish = λ c m s. untouched s _ (ground arith);
    kept_save = λ to p s. record {
      stored = λ u.
          let (more, e) = save-grows to p u s.world.db s.world.outages in
          (more, ap (λ w. payloads u w.db.offline_messages) (in_world-world s _) ∙ e);
    };
    kept_online = λ u s. untouched s _ (ground arith);
    kept_add = λ u c s. untouched s _ (ground arith);
    kept_remove = λ u c s. untouched s _ (ground arith);
    kept_xadd = λ e s. untouched s _ (ground arith);
    kept_subscribe = λ c s. untouched s _ (ground arith);
    kept_unsubscribe = λ c s. untouched s _ refl;
  }
