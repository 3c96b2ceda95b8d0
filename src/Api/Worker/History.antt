-- ===== src/Api/Worker/History.antt =====
-- api/src/worker.rs: what a batch that commits leaves in the history, and what a second run of it does.
use invisible_backend.Models.{DatabaseEvent}
use invisible_backend.Postgres.{World, query, ok, same_error, unless_empty, err, DbError}
use invisible_backend.Postgres.Rules.{
  query-ok, transaction-ok, Relates, Relates-query, Relates-transaction, bind-ok, transaction-err,
}
use invisible_backend.Postgres.Schema.{Database, Uuid}
use invisible_backend.Api.Worker.{
  NewMessage, EncryptedMessage, Receipt, Batch, collect, as_message, insert_messages, save_receipts,
  ciphertexts_data, save_encrypted, save_batch, process_events_batch,
}
use invisible_backend.Api.Worker.Stored.{
  AddsMessages, AddsMessages-refl, AddsMessages-trans, AddsMessages-same,
  insert_messages-AddsMessages, save_batch-Relates, save_encrypted-Relates, save_receipts-Relates,
  save_ciphertexts-Relates,
}
use invisible_backend.Prelude.{
  [], ◌∷◌, map, ◌≡◌, String, List, All, Option, ℕ, refl, ◌∙◌, string_eq, subst, sym,
}
use invisible_backend.Api.Worker.Kept.{
  Has, Again, HasAll, Again-trans, insert_messages-Has, All-mono, brings, insert_messages-again,
  All-as_message, HasAll-brings,
}

insert-AddsMessages :
    (ms : List NewMessage) → Relates AddsMessages (query same_error (insert_messages ms))
insert-AddsMessages ms =
    Relates-query AddsMessages AddsMessages-refl same_error _ (insert_messages-AddsMessages ms)

to_as_message :
    (d : Database) (ms : List EncryptedMessage)
    → All (λ m. Has d m.id) ms
    → All (λ m. Has d m.id) (map as_message ms)
to_as_message d [] h = tt
to_as_message d (m ∷ ms) h = (h.0, to_as_message d ms h.1)

save_receipts-AddsMessages : (rs : List Receipt) → Relates AddsMessages (save_receipts rs)
save_receipts-AddsMessages =
    save_receipts-Relates AddsMessages AddsMessages-refl AddsMessages-trans AddsMessages-same

module _ (parse_uuid : String → Option Uuid) (new_v4 : ℕ → Uuid) where
  save_batch-AddsMessages : (b : Batch) → Relates AddsMessages (save_batch parse_uuid new_v4 b)
  save_batch-AddsMessages b =
      save_batch-Relates AddsMessages AddsMessages-refl AddsMessages-trans AddsMessages-same
        parse_uuid new_v4 b (insert-AddsMessages b.new_messages)
        (insert-AddsMessages (map as_message b.encrypted_messages))

  -- Whatever becomes of a batch, it changes and removes no message.
  pub process_events_batch-AddsMessages :
      (es : List DatabaseEvent) (w : World)
      → AddsMessages w.db (process_events_batch parse_uuid new_v4 es w).1.db
  unfolding process_events_batch
  process_events_batch-AddsMessages es =
      (Relates-transaction AddsMessages AddsMessages-refl same_error _
        (save_batch-AddsMessages (collect es))).at

  save_encrypted-AddsMessages :
      (ms : List EncryptedMessage) → Relates AddsMessages (save_encrypted parse_uuid new_v4 ms)
  save_encrypted-AddsMessages ms =
      save_encrypted-Relates AddsMessages AddsMessages-refl AddsMessages-trans AddsMessages-same
        parse_uuid new_v4 ms (insert-AddsMessages (map as_message ms))

  save_batch-Again : (b : Batch) → Relates (Again b) (save_batch parse_uuid new_v4 b)
  save_batch-Again b =
      save_batch-Relates (Again b) (λ d h. refl) (Again-trans b) (λ d d' e h. e) parse_uuid new_v4 b
        (Relates-query (Again b) (λ d h. refl) same_error _
          (λ d d' u e h. insert_messages-again b.new_messages d d' u h.0 e))
        (Relates-query (Again b) (λ d h. refl) same_error _
          (λ d d' u e h.
            insert_messages-again _ d d' u (to_as_message d b.encrypted_messages h.1) e))

  insert-Has :
      (ms : List NewMessage) (w : World)
      → (unless_empty ms (query same_error (insert_messages ms)) w).0 ≡ ok tt
      → All (λ m. Has (unless_empty ms (query same_error (insert_messages ms)) w).1.db m.id) ms
  insert-Has [] w h = tt
  insert-Has (m ∷ ms) w h =
      insert_messages-Has (m ∷ ms) w.db (query same_error (insert_messages (m ∷ ms)) w).1.db tt
        (query-ok same_error (insert_messages (m ∷ ms)) w tt h)

  save_encrypted-Has :
      (ms : List EncryptedMessage) (w : World)
      → (save_encrypted parse_uuid new_v4 ms w).0 ≡ ok tt
      → All (λ m. Has (save_encrypted parse_uuid new_v4 ms w).1.db m.id) ms
  unfolding save_encrypted
  save_encrypted-Has [] w h = tt
  save_encrypted-Has (m ∷ ms) w h =
      let rows = map as_message (m ∷ ms) in
      let cts = ciphertexts_data parse_uuid new_v4 0 (m ∷ ms) in
      let (u, one, rest, e) = bind-ok (query same_error (insert_messages rows)) _ w tt h in
      let w₁ = (query same_error (insert_messages rows) w).1 in
      let step =
        (save_ciphertexts-Relates AddsMessages AddsMessages-refl AddsMessages-trans
            AddsMessages-same cts).at
          w₁ in
      subst (λ x. All (λ m'. Has x.1.db m'.id) (m ∷ ms)) (sym e)
        (All-mono (λ m'. m'.id) w₁.db _ (m ∷ ms) step
          (All-as_message w₁.db (m ∷ ms) (
            insert_messages-Has rows w.db w₁.db u
              (query-ok same_error (insert_messages rows) w u one))))

  save_batch-HasAll :
      (b : Batch) (v : World)
      → (save_batch parse_uuid new_v4 b v).0 ≡ ok tt
      → HasAll (save_batch parse_uuid new_v4 b v).1.db b
  unfolding save_batch
  save_batch-HasAll b v h =
      let plain = unless_empty b.new_messages (query same_error (insert_messages b.new_messages)) in
      let encrypted = save_encrypted parse_uuid new_v4 b.encrypted_messages in
      let receipts = save_receipts b.read_receipts in
      let (u₁, one, rest₁, e₁) = bind-ok plain _ v tt h in
      let v₁ = (plain v).1 in
      let (u₂, two, rest₂, e₂) = bind-ok encrypted _ v₁ tt rest₁ in
      let v₂ = (encrypted v₁).1 in
      let step₁ = (save_encrypted-AddsMessages b.encrypted_messages).at v₁ in
      let step₂ = (save_receipts-AddsMessages b.read_receipts).at v₂ in
      subst (λ x. HasAll x.1.db b) (sym (e₁ ∙ e₂))
        (
          All-mono (λ m. m.id) v₁.db (receipts v₂).1.db b.new_messages
              (AddsMessages-trans v₁.db v₂.db (receipts v₂).1.db step₁ step₂)
              (insert-Has b.new_messages v one),
          All-mono (λ m. m.id) v₂.db (receipts v₂).1.db b.encrypted_messages step₂
              (save_encrypted-Has b.encrypted_messages v₁ two),
        )

  -- A batch that commits leaves a row with the id of each of its messages.
  pub process_events_batch-HasIds :
      (es : List DatabaseEvent) (w : World)
      → (process_events_batch parse_uuid new_v4 es w).0 ≡ ok tt
      → All (λ e. All (Has (process_events_batch parse_uuid new_v4 es w).1.db) (brings e)) es
  unfolding process_events_batch
  process_events_batch-HasIds es w h =
      let (v, same, done, e) =
        transaction-ok same_error (save_batch parse_uuid new_v4 (collect es)) w tt h in
      HasAll-brings _ es
        (subst (λ d. HasAll d (collect es)) e (save_batch-HasAll (collect es) v done))

  -- A batch that fails has changed no table.
  pub process_events_batch-undone :
      (es : List DatabaseEvent) (w : World) (e : DbError)
      → (process_events_batch parse_uuid new_v4 es w).0 ≡ err e
      → (process_events_batch parse_uuid new_v4 es w).1.db ≡ w.db
  unfolding process_events_batch
  process_events_batch-undone es =
      transaction-err same_error (save_batch parse_uuid new_v4 (collect es))

module _ (parse_uuid : String → Option Uuid) where
  -- Running a batch that has committed once more, with UUIDs of its own, changes no row of the table of
  -- messages, however the second run ends. Ciphertexts are another table.
  pub process_events_batch_idempotent :
      (new_v4 new_v4' : ℕ → Uuid) (es : List DatabaseEvent) (w v : World)
      → (process_events_batch parse_uuid new_v4 es w).0 ≡ ok tt
      → v.db ≡ (process_events_batch parse_uuid new_v4 es w).1.db
      → (process_events_batch parse_uuid new_v4' es v).1.db.messages ≡ v.db.messages
  unfolding process_events_batch
  process_events_batch_idempotent new_v4 new_v4' es w v h e =
      let b = collect es in
      let (w', same, done, e') =
        transaction-ok same_error (save_batch parse_uuid new_v4 b) w tt h in
      (Relates-transaction (Again b) (λ d a. refl) same_error _
          (save_batch-Again parse_uuid new_v4' b)).at
        v (subst (λ d. HasAll d b) (e' ∙ sym e) (save_batch-HasAll parse_uuid new_v4 b w' done))
