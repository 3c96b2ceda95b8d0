-- ===== src/Api/Worker/Loop/Acked.antt =====
-- api/src/worker.rs: which entries of the stream one reply acknowledges, where Redis answers.
use invisible_backend.Prelude.{
  [], ◌∷◌, inl, inr, refl, ◌==◌, ◌≡◌, ◌&&◌, List, Bool, String, retain, Option, not, arith, any,
  Option-cases, string_eq, ◌||◌, true, ap, ℕ, sym, subst, ◌∙◌,
}
use invisible_backend.Api.Worker.Loop.{
  StreamId, sort_ids, is_read, event_of, Stream, xack, ack_unparseable, process_key, ack_parseable,
  save_events, stream_name,
}
use invisible_backend.Models.{DatabaseEvent}
use invisible_backend.Postgres.{ok, err, Result, DbError, World}
use invisible_backend.Postgres.Schema.{Uuid}

-- The entries that were not read.
abbrev pub unread : List StreamId → List StreamId → List StreamId
unread ids = retain (λ e. not (any (λ r. r.id == e.id) ids))

retain-retain :
    {A : Type 0} (p q r : A → Bool) (xs : List A)
    → ((x : A) → r x ≡ (p x && q x))
    → retain q (retain p xs) ≡ retain r xs
retain-retain p q r [] h = refl
retain-retain p q r (x ∷ xs) h = ground (arith, h x, retain-retain p q r xs h)

retain-all : (xs : List StreamId) → retain (λ e. true) xs ≡ xs
retain-all [] = refl
retain-all (x ∷ xs) = ap (λ es. x ∷ es) (retain-all xs)

retain-unread : (s : Stream) → record s { pending = retain (λ e. not (is_read [] e)) s.pending } ≡ s
retain-unread s = ap (λ es. record s { pending = es }) (retain-all s.pending)

ack_unparseable-pending :
    (ids : List String) (s : Stream)
    → s.outages ≡ []
    → ack_unparseable ids s ≡ record s { pending = retain (λ e. not (is_read ids e)) s.pending }
unfolding xack
ack_unparseable-pending [] s calm = sym (retain-unread s)
ack_unparseable-pending (id ∷ ids) s calm = ground (arith, calm)

ack_parseable-pending :
    (ids : List String) (r : Result DbError (Unit {0})) (s : Stream)
    → s.outages ≡ []
    → ack_parseable ids r s ≡ record s { pending = retain (λ e. not (is_read ids e)) s.pending }
unfolding xack
ack_parseable-pending ids (ok u) s calm = ground (arith, calm)
ack_parseable-pending ids (err e) s calm = ground (arith, calm)

module _ (from_str : String → Option DatabaseEvent) where
  sort_ids-is_read :
      (e : StreamId) (ids : List StreamId)
      → any (λ r. r.id == e.id) ids ≡ (
          is_read (sort_ids from_str ids).parseable_ids e
          || is_read (sort_ids from_str ids).unparseable_ids e)
  unfolding sort_ids
  sort_ids-is_read e [] = refl
  sort_ids-is_read e (x ∷ xs) = elim (Option-cases (event_of from_str x.event)) [
    | inl n ↦ ground (arith, sort_ids-is_read e xs)
    | inr (v, s) ↦ ground (arith, sort_ids-is_read e xs)
  ]

  -- Ids are parseable only with an event.
  sort_ids-events :
      (ids : List StreamId)
      → (sort_ids from_str ids).events ≡ []
      → (sort_ids from_str ids).parseable_ids ≡ []
  unfolding sort_ids
  sort_ids-events [] h = refl
  sort_ids-events (x ∷ xs) h = elim (Option-cases (event_of from_str x.event)) [
    | inl n ↦ ground (arith, sort_ids-events xs)
    | inr (v, s) ↦ ground arith
  ]

  module _ (parse_uuid : String → Option Uuid) (new_v4 : ℕ → Uuid) where
    save_events-pending :
        (es : List DatabaseEvent) (ids : List String) (s : Stream) (w : World)
        → s.outages ≡ []
        → (es ≡ [] → ids ≡ [])
        → (save_events from_str parse_uuid new_v4 es ids s w).0
          ≡ record s { pending = retain (λ e. not (is_read ids e)) s.pending }
    save_events-pending [] ids s w calm h = sym (
        subst (λ i. record s { pending = retain (λ e. not (is_read i e)) s.pending } ≡ s)
          (sym (h refl)) (retain-unread s))
    save_events-pending (e ∷ es) ids s w calm h = ack_parseable-pending ids _ s calm

    -- However the batch ends, an answered reply leaves pending exactly what it did not bring.
    pub process_key-pending :
        (ids : List StreamId) (s : Stream) (w : World)
        → s.outages ≡ []
        → (process_key from_str parse_uuid new_v4 (record { key = stream_name; ids = ids }) s w).0
          ≡ record s { pending = unread ids s.pending }
    unfolding process_key
    process_key-pending ids s w calm =
        let p = sort_ids from_str ids in
        let s' = record s { pending = retain (λ e. not (is_read p.unparseable_ids e)) s.pending } in
        let parts = save_events-pending p.events p.parseable_ids s' w calm (sort_ids-events ids) in
        rw (ack_unparseable-pending p.unparseable_ids s calm) (
          parts
          ∙ ap (λ es. record s { pending = es })
              (retain-retain _ _ _ s.pending (λ e. ground (arith, sort_ids-is_read e ids))))
