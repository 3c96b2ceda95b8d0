-- ===== src/Relay/Backend/Logged.antt =====
-- From relay/src/lib.rs to api/src/worker.rs: an event on its way from a client's message to the history.
use invisible_backend.Relay.Backend.{xadd}
use invisible_backend.Prelude.{
  [], ◌∷◌, suc, zero, inl, inr, some, refl, ◌≡◌, ◌++◌, ℕ, String, List, Option, length, ◌≤◌, take,
  drop, arith, ap, In, Option-cases, ◌⊎◌, true, ◌<◌, All, length-append, ◌∙◌, sym, All-In, subst,
}
use invisible_backend.Postgres.{err, DbError}
use invisible_backend.Models.{DatabaseEvent, OutgoingMessage}
use invisible_backend.Api.Worker.Loop.{
  sort_ids, StreamId, round, event_of, xread_options, process_keys, Loop, step,
}
use invisible_backend.Postgres.Schema.{Uuid}
use invisible_backend.Api.Worker.Loop.Drained.{all_answer, step-reading, round-new}
use invisible_backend.Api.Worker.Loop.Kept.{AreStored, process_key-Outcome}
use invisible_backend.Api.Worker.{process_events_batch}
use invisible_backend.Relay.{Codec}
use invisible_backend.Relay.Route.{log_event, Plan, db_event}
use invisible_backend.Relay.Backend.{Backend, backend}
use invisible_backend.Api.Worker.Kept.{brings}
use invisible_backend.Api.Worker.Rows.{Recorded}

take-all : {A : Type 0} (n : ℕ) (xs : List A) → length xs ≤ n → take n xs ≡ xs
take-all zero [] h = refl
take-all zero (x ∷ xs) h = absurd (omega arith)
take-all (suc n) [] h = refl
take-all (suc n) (x ∷ xs) h = ap (◌∷◌ x) (take-all n xs (omega arith))

drop-all : {A : Type 0} (n : ℕ) (xs : List A) → length xs ≤ n → drop n xs ≡ []
drop-all zero [] h = refl
drop-all zero (x ∷ xs) h = absurd (omega arith)
drop-all (suc n) [] h = refl
drop-all (suc n) (x ∷ xs) h = drop-all n xs (omega arith)

module _ (from_str : String → Option DatabaseEvent) where
  -- The event of the last entry is the last event.
  In-sort_ids :
      (es : List StreamId) (e : StreamId) (event : DatabaseEvent)
      → event_of from_str e.event ≡ some event
      → In event (sort_ids from_str (es ++ e ∷ [])).events
  unfolding sort_ids
  In-sort_ids [] e event h = rw h (inl refl)
  In-sort_ids (x ∷ es) e event h = elim (Option-cases (event_of from_str x.event)) [
    | inl skipped ↦ rw skipped (In-sort_ids es e event h)
    | inr (other, parsed) ↦ rw parsed (inr (In-sort_ids es e event h))
  ]

  module _ (parse_uuid : String → Option Uuid) (new_v4 : ℕ → Uuid) where
    round-Outcome :
        (f : List StreamId) (m : Loop)
        → let m' = round from_str parse_uuid new_v4 ">" (record m { stream = all_answer [] f }) in
          AreStored from_str parse_uuid new_v4
            (sort_ids from_str (take 100 f)).events
            m.world
            m'.world
          ⊎ ((m'.world.db ≡ m.world.db)
              × ((failure : DbError) × ((process_events_batch parse_uuid new_v4
                      (sort_ids from_str (take 100 f)).events
                      m.world).0
                    ≡ err failure)))
    unfolding round xread_options process_keys sort_ids
    round-Outcome [] m = inl tt
    round-Outcome (e ∷ f) m =
        (process_key-Outcome from_str parse_uuid new_v4 (take 100 (e ∷ f))
          (all_answer (take 100 (e ∷ f)) (drop 100 (e ∷ f))) m.world refl).1

module _ (codec : Codec) (from_value : String → Option OutgoingMessage) (entry_id : ℕ → String)
    (from_str : String → Option DatabaseEvent) (parse_uuid : String → Option Uuid)
    (new_v4 : ℕ → Uuid) where
  log_event-all_answer :
      (me : String) (p : Plan) (event : DatabaseEvent) (json : String) (s : Backend)
      → db_event me p.to p.outgoing ≡ some event
      → codec.event_string event ≡ some json
      → s.stream ≡ all_answer [] s.stream.fresh
      → (log_event codec (backend from_value entry_id) true me p s).stream
        ≡ all_answer []
            (s.stream.fresh ++ record { id = entry_id s.entries; event = some json } ∷ [])
  unfolding log_event xadd
  log_event-all_answer me p event json s kind spelled ready = ground arith

  -- The event of a message that the relay handles, added to a stream that the worker waits on with
  -- fewer than a hundred entries before it, is read in the worker's next round, where Redis answers;
  -- after that nothing is pending, and the history has a row for the message of the event, if it brings
  -- one: a row with its id that was there before, or a new one that says what an event with its id in
  -- that reply says; unless the batch failed and no table has changed. The worker reads an event as the relay spelled it.
  pub log_event-step :
      (me : String) (p : Plan) (event : DatabaseEvent) (json : String) (s : Backend) (m : Loop)
      → db_event me p.to p.outgoing ≡ some event
      → codec.event_string event ≡ some json
      → from_str json ≡ some event
      → s.stream ≡ all_answer [] s.stream.fresh
      → length s.stream.fresh < 100
      → m.read_id ≡ some ">"
      → m.stream ≡ (log_event codec (backend from_value entry_id) true me p s).stream
      → let m' = step from_str parse_uuid new_v4 m in
        (m'.stream.pending ≡ [])
        × (m'.stream.fresh ≡ [])
        × (All
              (Recorded (sort_ids from_str m.stream.fresh).events m.world.db m'.world.db)
              (brings event)
            ⊎ ((m'.world.db ≡ m.world.db)
                × ((failure : DbError) × ((process_events_batch parse_uuid new_v4
                        (sort_ids from_str m.stream.fresh).events
                        m.world).0
                      ≡ err failure))))
  log_event-step me p event json s m kind spelled read ready few waits same =
      let entry : StreamId = record { id = entry_id s.entries; event = some json } in
      let f = s.stream.fresh ++ entry ∷ [] in
      let short : length f ≤ 100 = omega (arith, length-append s.stream.fresh (entry ∷ [])) in
      let e =
        step-reading from_str parse_uuid new_v4 ">" [] f m
          (waits, same ∙ log_event-all_answer me p event json s kind spelled ready) in
      let m' = round from_str parse_uuid new_v4 ">" (record m { stream = all_answer [] f }) in
      let (reads, left) = round-new from_str parse_uuid new_v4 f m in
      let all : take 100 f ≡ f = take-all 100 f short in
      let fresh : f ≡ m.stream.fresh =
        ap (λ t. t.fresh)
          (sym (same ∙ log_event-all_answer me p event json s kind spelled ready)) in
      let stored : All (Recorded (sort_ids from_str m.stream.fresh).events m.world.db m'.world.db)
            (brings event)
          ⊎ ((m'.world.db ≡ m.world.db)
              × ((failure : DbError) × ((process_events_batch parse_uuid new_v4
                      (sort_ids from_str m.stream.fresh).events m.world).0
                    ≡ err failure))) =
        elim (round-Outcome from_str parse_uuid new_v4 f m) [
          | inl kept ↦ inl (
              subst
                (λ g.
                  All (Recorded (sort_ids from_str g).events m.world.db m'.world.db) (brings event))
                (all ∙ fresh)
                (All-In
                  (λ x.
                    All (Recorded (sort_ids from_str (take 100 f)).events m.world.db m'.world.db)
                      (brings x))
                  event _ kept
                  (subst (λ g. In event (sort_ids from_str g).events) (sym all)
                    (In-sort_ids from_str s.stream.fresh entry event read))))
          | inr (undone, (failure, failed)) ↦ inr (
            undone,
            (
              failure,
              subst
                  (λ g.
                    (process_events_batch parse_uuid new_v4 (sort_ids from_str g).events m.world).0
                    ≡ err failure)
                  (all ∙ fresh) failed,
            ),
          )
        ] in
      rw e (ap (λ t. t.pending) left, ap (λ t. t.fresh) left ∙ drop-all 100 f short, stored)
