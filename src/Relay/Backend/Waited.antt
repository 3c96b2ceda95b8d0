-- ===== src/Relay/Backend/Waited.antt =====
-- From relay/src/lib.rs to shared/src/repository.rs and back: a message for a user who is away, until the
-- user connects.
use invisible_backend.Repository.Offline.Rows.{UniqueIds}
use invisible_backend.Repository.Offline.{fetch_and_delete_offline_messages}
use invisible_backend.Relay.Backend.{Backend, backend, backend-Laws, payloads, in_world}
use invisible_backend.Relay.Route.{Plan, planned, plan, Client, receive, log_event}
use invisible_backend.Prelude.{
  [], ◌∷◌, inl, inr, none, some, true, false, refl, ◌==◌, map, ◌≡◌, String, List, In, Option, ◌<◌,
  ap, count, ℕ, arith, ==_refl, Bool-cases, eq_of_==, Bool, string_eq, subst, sym, Option-cases,
  ◌∙◌, In-left, In-middle,
}
use invisible_backend.Postgres.Schema.{OfflineMessage, Database}
use invisible_backend.Models.{OutgoingMessage, IncomingMessage}
use invisible_backend.Repository.Offline.Taken.{
  messages_of, IsTaken, Fetched, fetch_and_delete_offline_messages-Fetched,
}
use invisible_backend.Relay.{Codec, Services, IsTotal, user_channel}
use invisible_backend.Relay.Session.{announce, open_session}
use invisible_backend.Postgres.{ok, err, Result, DbError, World}
use invisible_backend.Relay.Session.Announce.{open_session-Flushed}
use invisible_backend.Relay.Later.{IsKept}
use invisible_backend.Relay.Route.Stored.{receive-saved}

count-payloads :
    (payload : String) (ms : List OfflineMessage)
    → In payload (map (λ m. m.payload) ms)
    → 0 < count (λ m. m.payload == payload) ms
count-payloads payload [] h = elim h [ ]
count-payloads payload (m ∷ ms) (inl e) = ground (arith, ==_refl payload)
count-payloads payload (m ∷ ms) (inr h) = ground (arith, count-payloads payload ms h)

In-map : {A B : Type 0} (f : A → B) (a : A) (xs : List A) → In a xs → In (f a) (map f xs)
In-map f a [] h = elim h [ ]
In-map f a (x ∷ xs) (inl e) = inl (ap f e)
In-map f a (x ∷ xs) (inr h) = inr (In-map f a xs h)

in_world-ok :
    {A : Type 0} (s : Backend) (r : Result DbError A × World) (a : A)
    → (in_world s r).0 ≡ some a
    → r.0 ≡ ok a
in_world-ok s (ok b, w) a h = ground arith
in_world-ok s (err e, w) a h = absurd (ground arith)

module _ (from_value : String → Option OutgoingMessage) where
  read-messages_of :
      (payload : String) (out : OutgoingMessage) (ms : List OfflineMessage)
      → from_value payload ≡ some out
      → 0 < count (λ m. m.payload == payload) ms
      → In out (messages_of from_value ms)
  read-messages_of payload out [] reads h = absurd (omega arith)
  read-messages_of payload out (m ∷ ms) reads h = elim (Bool-cases (m.payload == payload)) [
    | inl same ↦
        let here : messages_of from_value (m ∷ ms) ≡ out ∷ messages_of from_value ms =
          ground (arith, eq_of_== m.payload payload same) in
        subst (In out) (sym here) (inl refl)
    | inr other ↦
        let there = read-messages_of payload out ms reads (ground arith) in
        elim (Option-cases (from_value m.payload)) [
          | inl e ↦ subst (In out) (ground arith) there
          | inr (first, e) ↦
              let more : messages_of from_value (m ∷ ms) ≡ first ∷ messages_of from_value ms =
                ground arith in
              subst (In out) (sym more) (inr there)
        ]
  ]

  module _ (entry_id : ℕ → String) (codec : Codec) where
    abbrev svc : Services
    svc = backend from_value entry_id

    announced-world :
        (me : String) (online : Bool) (answer : Option Bool) (s : Backend)
        → (announce codec svc me online (answer, s)).world ≡ s.world
    unfolding announce
    announced-world me online none s = refl
    announced-world me online (some false) s = refl
    announced-world me online (some true) s = ground arith

    fetched-IsTaken :
        (me : String) (s : Backend) (ms : List OutgoingMessage)
        → UniqueIds s.world.db.offline_messages
        → (svc.fetch_and_delete_offline_messages me s).0 ≡ some ms
        → (d : Database) × IsTaken from_value me ms s.world.db d
    fetched-IsTaken me s ms unique answered =
        let r = fetch_and_delete_offline_messages from_value me s.world in
        let done : r.0 ≡ ok ms = in_world-ok s r ms answered in
        (
          r.1.db,
          subst (λ x. Fetched from_value me x s.world.db r.1.db) done
              (fetch_and_delete_offline_messages-Fetched from_value me s.world unique),
        )

    -- www
    pub open_session-In :
        (total : IsTotal codec) (me conn payload : String) (out : OutgoingMessage) (s : Backend)
        (ms : List OutgoingMessage)
        → UniqueIds s.world.db.offline_messages
        → In payload (svc.stored s me)
        → from_value payload ≡ some out
        → (svc.fetch_and_delete_offline_messages me
            (announce codec svc me true (svc.add_connection me conn s))).0
          ≡ some ms
        → In ((total.string_total out).0) (open_session codec svc me conn s).outbox
    open_session-In total me conn payload out s ms unique there reads answered =
        let t = announce codec svc me true (svc.add_connection me conn s) in
        let same : t.world ≡ s.world = announced-world me true _ _ ∙ refl in
        let (d, taken) =
          fetched-IsTaken me t ms (subst (λ w. UniqueIds w.db.offline_messages) (sym same) unique)
            answered in
        let enough : 0 < count (λ m. m.payload == payload) taken.rows =
          subst (λ n. 0 < n) (sym (taken.same (λ m. m.payload == payload)))
            (count-payloads payload _
              (subst (λ w. In payload (payloads me w.db.offline_messages)) (sym same) there)) in
        let given =
          subst (In out) (sym taken.given) (read-messages_of payload out taken.rows reads enough) in
        subst (In (total.string_total out).0)
          (sym (open_session-Flushed codec svc total me conn s ms answered).0)
          (In-map (λ m. (total.string_total m).0) out ms given)

    -- A message of a kind that is kept, which a user is sent while nobody has subscribed to the user's
    -- channel and whose calls answer, is what the user gets at the next connection: as long as nothing has
    -- been taken out of the store in between, and the fetch answers, it is among the texts queued for the
    -- socket, where a stored payload reads as what it was written from.
    pub open_session-receive :
        (total : IsTotal codec) (connected : Bool) (you text conn json payload : String)
        (c : Client codec svc) (m : IncomingMessage) (p : Plan) (n : ℕ) (s : Backend)
        (ms : List OutgoingMessage)
        → svc.subscribers c.services (user_channel p.to) ≡ 0
        → codec.parse_incoming text ≡ some m
        → plan you m ≡ planned p
        → p.store_offline ≡ true
        → codec.outgoing_string p.outgoing ≡ some json
        → codec.outgoing_value p.outgoing ≡ some payload
        → from_value payload ≡ some p.outgoing
        → let t₁ = log_event codec svc connected you p c.services in
          let t₂ = (svc.publish_message (user_channel p.to) json t₁).1 in
          (svc.publish_message (user_channel p.to) json t₁).0 ≡ some n
          → (svc.save_offline_message p.to payload t₂).0 ≡ some tt
          → IsKept svc (receive codec svc connected you text c).services s
          → UniqueIds s.world.db.offline_messages
          → (svc.fetch_and_delete_offline_messages p.to
              (announce codec svc p.to true (svc.add_connection p.to conn s))).0
            ≡ some ms
          → In json (open_session codec svc p.to conn s).outbox
    open_session-receive total connected you text conn json payload c m p n s ms nobody parsed
          planned_as keeps spelled valued reads told inserted kept unique answered =
        let (sent, stored) =
          receive-saved codec svc (backend-Laws from_value entry_id) connected you text json payload
            c m p n nobody parsed planned_as keeps spelled valued told inserted in
        let (more, later) = kept.stored p.to in
        let there : In payload (svc.stored s p.to) = subst (In payload) (sym later) (
          In-left payload _ more (
            subst (In payload) (sym stored) (In-middle payload (svc.stored c.services p.to) []))) in
        let whole =
          open_session-In total p.to conn payload p.outgoing s ms unique there reads answered in
        let same : (total.string_total p.outgoing).0 ≡ json =
          let (written, e) = total.string_total p.outgoing in ground arith in
        subst (λ x. In x (open_session codec svc p.to conn s).outbox) same whole
