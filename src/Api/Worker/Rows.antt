-- ===== src/Api/Worker/Rows.antt =====
-- api/src/worker.rs: what the rows say that a batch adds to the history.
use invisible_backend.Models.{DatabaseEvent}
use invisible_backend.Postgres.{World, ok, same_error}
use invisible_backend.Postgres.Schema.{Database, Uuid, Message, has_message}
use invisible_backend.Api.Worker.{
  NewMessage, collect, as_message, insert_message, insert_messages, process_events_batch,
  message_row,
}
use invisible_backend.Api.Worker.Stored.{save_batch-Relates}
use invisible_backend.Prelude.{
  [], ◌∷◌, inl, inr, none, true, refl, ◌==◌, map, ◌≡◌, ◌++◌, List, ◌∙◌, ℕ, Bool-cases, String, In,
  All, sym, ap, arith, any, Option, append-nil, append_assoc, eq_of_==, ◌⊎◌, ◌||◌, All-map,
  All-append, any-append, string_eq, subst, In-right, All-In,
}
use invisible_backend.Api.Worker.Kept.{Has, brings}
use invisible_backend.Postgres.Rules.{Result-cases, Relates-transaction, Relates-query}
use invisible_backend.Api.Worker.History.{process_events_batch-HasIds}

-- what a row of the history is to say of an event
pub record Says (key from to kind : String) (text name mime url : Option String) (r : Message)
    : Type 0 where
  pub id : r.id ≡ key
  pub sender : r.sender_username ≡ from
  pub recipient : r.recipient_username ≡ to
  pub message_type : r.message_type ≡ kind
  pub content : r.content ≡ text
  pub file_name : r.file_name ≡ name
  pub mime_type : r.mime_type ≡ mime
  pub file_url : r.file_url ≡ url
  pub unread : r.read_at ≡ none

abbrev pub IsRowOf : DatabaseEvent → Message → Type 0
IsRowOf (DatabaseEvent.new_message id sender recipient kind content file_name mime_type file_url)
      r =
    Says id sender recipient kind content file_name mime_type file_url r
IsRowOf (DatabaseEvent.new_encrypted_message id sender recipient _) r =
    Says id sender recipient "encrypted" none none none none r
IsRowOf (DatabaseEvent.read_receipt _ _) r = ⊥

-- a row of one of the events
abbrev pub IsRow : List DatabaseEvent → Message → Type 0
IsRow es r = (e : DatabaseEvent) × In e es × IsRowOf e r

-- The messages stand as before, followed by rows with a property.
abbrev pub AddsRows : (Message → Type 0) → Database → Database → Type 0
AddsRows P d d' = (new : List Message) × (d'.messages ≡ d.messages ++ new) × All P new

module _ (P : Message → Type 0) where
  AddsRows-same : (d d' : Database) → d'.messages ≡ d.messages → AddsRows P d d'
  AddsRows-same d d' e = ([], e ∙ sym (append-nil d.messages), tt)

  AddsRows-trans : (a b c : Database) → AddsRows P a b → AddsRows P b c → AddsRows P a c
  AddsRows-trans a b c (x, p, all) (y, q, more) =
      (x ++ y, q ∙ ap (λ l. l ++ y) p ∙ append_assoc a.messages x y, All-append P x y all more)

  -- Whenever it is inserted, the row of the message has the property.
  abbrev Fits : NewMessage → Type 0
  Fits m = (now : ℕ) → P (message_row m now)

  insert_message-AddsRows :
      (m : NewMessage) (d d' : Database) → Fits m → insert_message m d ≡ ok d' → AddsRows P d d'
  unfolding insert_message
  insert_message-AddsRows m d d' fits h = elim (Bool-cases (has_message d m.id)) [
    | inl old ↦ AddsRows-same d d' (ground arith)
    | inr new ↦ (message_row m d.now ∷ [], ground arith, (fits d.now, tt))
  ]

  insert_messages-AddsRows :
      (ms : List NewMessage) (d d' : Database) (u : Unit {0})
      → All Fits ms
      → insert_messages ms d ≡ ok (u, d')
      → AddsRows P d d'
  unfolding insert_messages
  insert_messages-AddsRows [] d d' u fit h = AddsRows-same d d' (ground arith)
  insert_messages-AddsRows (m ∷ ms) d d' u fit h = elim (Result-cases (insert_message m d)) [
    | inl (d₁, e) ↦
        AddsRows-trans d d₁ d' (insert_message-AddsRows m d d₁ fit.0 e)
          (insert_messages-AddsRows ms d₁ d' u fit.1 (ground arith))
    | inr (x, e) ↦ absurd (ground arith)
  ]

  -- The rows of what a batch collects are the rows of its events.
  collect-Fits :
      (es : List DatabaseEvent)
      → ((e : DatabaseEvent) (r : Message) → In e es → IsRowOf e r → P r)
      → All Fits (collect es).new_messages
        × All Fits (map as_message (collect es).encrypted_messages)
  unfolding collect
  collect-Fits [] h = (tt, tt)
  collect-Fits (DatabaseEvent.new_message a b c d e f g i ∷ es) h =
      let (plain, encrypted) = collect-Fits es (λ x r there. h x r (inr there)) in
      (
        (
          λ now. h _ _ (inl refl) (record {
            id = refl;
            sender = refl;
            recipient = refl;
            message_type = refl;
            content = refl;
            file_name = refl;
            mime_type = refl;
            file_url = refl;
            unread = refl;
          }),
          plain,
        ),
        encrypted,
      )
  collect-Fits (DatabaseEvent.new_encrypted_message a b c d ∷ es) h =
      let (plain, encrypted) = collect-Fits es (λ x r there. h x r (inr there)) in
      (
        plain,
        (
          λ now. h _ _ (inl refl) (record {
            id = refl;
            sender = refl;
            recipient = refl;
            message_type = refl;
            content = refl;
            file_name = refl;
            mime_type = refl;
            file_url = refl;
            unread = refl;
          }),
          encrypted,
        ),
      )
  collect-Fits (DatabaseEvent.read_receipt a b ∷ es) h =
      collect-Fits es (λ x r there. h x r (inr there))

has_message-row :
    (id : String) (ms : List Message)
    → any (λ m. m.id == id) ms ≡ true
    → (r : Message) × In r ms × (r.id ≡ id)
has_message-row id [] h = absurd (ground arith)
has_message-row id (m ∷ ms) h = elim (Bool-cases (m.id == id)) [
  | inl same ↦ (m, inl refl, eq_of_== m.id id same)
  | inr other ↦ let (r, there, e) = has_message-row id ms (ground arith) in (r, inr there, e)
]

-- The history has a row with an id: it had one before, or it has a new one, which says what an event of
-- the batch with that id says.
abbrev pub Recorded : List DatabaseEvent → Database → Database → String → Type 0
Recorded es d d' id = Has d id ⊎ ((r : Message) × In r d'.messages × (r.id ≡ id) × IsRow es r)

AddsRows-Recorded :
    (es : List DatabaseEvent) (d d' : Database) (id : String)
    → AddsRows (IsRow es) d d'
    → Has d' id
    → Recorded es d d' id
unfolding has_message
AddsRows-Recorded es d d' id (new, e, rows) h =
    let split : (any (λ m. m.id == id) d.messages || any (λ m. m.id == id) new) ≡ true =
      sym (any-append (λ (m : Message). m.id == id) d.messages new)
      ∙ ap (λ l. any (λ (m : Message). m.id == id) l) (sym e)
      ∙ h in
    elim (Bool-cases (any (λ (m : Message). m.id == id) d.messages)) [
      | inl old ↦ inl old
      | inr fresh ↦
          let (r, there, same) = has_message-row id new (ground arith) in
          inr (
            r,
            subst (In r) (sym e) (In-right r d.messages new there),
            same,
            All-In (IsRow es) r new rows there,
          )
    ]

All-Recorded :
    (es : List DatabaseEvent) (d d' : Database) (ids : List String)
    → AddsRows (IsRow es) d d'
    → All (Has d') ids
    → All (Recorded es d d') ids
All-Recorded es d d' ids rows = All-map _ _ ids (λ id. AddsRows-Recorded es d d' id rows)

module _ (parse_uuid : String → Option Uuid) (new_v4 : ℕ → Uuid) where
  process_events_batch-AddsRows :
      (es : List DatabaseEvent) (w : World)
      → AddsRows (IsRow es) w.db (process_events_batch parse_uuid new_v4 es w).1.db
  unfolding process_events_batch
  process_events_batch-AddsRows es =
      let P = IsRow es in
      let same = AddsRows-same P in
      let (plain, encrypted) = collect-Fits P es (λ e r there says. (e, there, says)) in
      (Relates-transaction (AddsRows P) (λ d. same d d refl) same_error _
        (save_batch-Relates (AddsRows P) (λ d. same d d refl) (AddsRows-trans P) same parse_uuid
          new_v4 (collect es)
          (Relates-query (AddsRows P) (λ d. same d d refl) same_error _
            (λ d d' u e. insert_messages-AddsRows P _ d d' u plain e))
          (Relates-query (AddsRows P) (λ d. same d d refl) same_error _
            (λ d d' u e. insert_messages-AddsRows P _ d d' u encrypted e)))).at

  -- A batch that commits leaves a row of the history for every message of the batch: one with its id that
  -- was there before, or else a new one with its id that says the sender, the recipient, the type and the
  -- content of an event of the batch; and it adds no row that does not say what one of its events says.
  pub process_events_batch-HasMessages :
      (es : List DatabaseEvent) (w : World)
      → (process_events_batch parse_uuid new_v4 es w).0 ≡ ok tt
      → let d' = (process_events_batch parse_uuid new_v4 es w).1.db in
        All (λ e. All (Recorded es w.db d') (brings e)) es × AddsRows (IsRow es) w.db d'
  process_events_batch-HasMessages es w h =
      let rows = process_events_batch-AddsRows es w in
      (
        All-map _ _ es (λ e. All-Recorded es w.db _ (brings e) rows)
            (process_events_batch-HasIds parse_uuid new_v4 es w h),
        rows,
      )
