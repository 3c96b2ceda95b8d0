-- ===== src/Api/Worker/Kept.antt =====
-- api/src/worker.rs: which messages the tables have, and that inserts keep and add them.
use invisible_backend.Models.{DatabaseEvent}
use invisible_backend.Postgres.{ok}
use invisible_backend.Postgres.Rules.{Result-cases}
use invisible_backend.Postgres.Schema.{Database, Message, has_message}
use invisible_backend.Api.Worker.{
  NewMessage, EncryptedMessage, Batch, collect, as_message, insert_message, insert_messages,
  message_row,
}
use invisible_backend.Api.Worker.Stored.{AddsMessages, insert_messages-AddsMessages}
use invisible_backend.Prelude.{
  [], ◌∷◌, inl, inr, true, ◌==◌, map, ◌≡◌, ◌++◌, String, Bool-cases, List, All, any-append, arith,
  ==_refl, ◌∙◌, string_eq,
}

abbrev pub Has : Database → String → Type 0
Has d id = has_message d id ≡ true

pub Has-mono : (d d' : Database) (id : String) → AddsMessages d d' → Has d id → Has d' id
unfolding has_message
Has-mono d d' id (new, e) h = rw (e, any-append (λ (m : Message). m.id == id) d.messages new, h)

pub All-mono :
    {A : Type 0} (id : A → String) (d d' : Database) (ms : List A)
    → AddsMessages d d'
    → All (λ m. Has d (id m)) ms
    → All (λ m. Has d' (id m)) ms
All-mono id d d' [] a h = tt
All-mono id d d' (m ∷ ms) a h = (Has-mono d d' (id m) a h.0, All-mono id d d' ms a h.1)

pub insert_message-Has :
    (m : NewMessage) (d d' : Database) → insert_message m d ≡ ok d' → Has d' m.id
unfolding insert_message has_message
insert_message-Has m d d' h = elim (Bool-cases (has_message d m.id)) [
  | inl old ↦ ground arith
  | inr new ↦
      let e : d'.messages ≡ d.messages ++ message_row m d.now ∷ [] = ground arith in
      rw (e, any-append (λ (r : Message). r.id == m.id) d.messages (message_row m d.now ∷ []))
        (ground (arith, ==_refl m.id))
]

pub insert_messages-Has :
    (ms : List NewMessage) (d d' : Database) (u : Unit {0})
    → insert_messages ms d ≡ ok (u, d')
    → All (λ m. Has d' m.id) ms
unfolding insert_messages
insert_messages-Has [] d d' u h = tt
insert_messages-Has (m ∷ ms) d d' u h = elim (Result-cases (insert_message m d)) [
  | inl (d₁, e) ↦
      let rest : insert_messages ms d₁ ≡ ok (u, d') = ground arith in
      (
        Has-mono d₁ d' m.id (insert_messages-AddsMessages ms d₁ d' u rest)
            (insert_message-Has m d d₁ e),
        insert_messages-Has ms d₁ d' u rest,
      )
  | inr (x, e) ↦ absurd (ground arith)
]

-- Messages that are there already are not inserted again.
pub insert_messages-again :
    (ms : List NewMessage) (d d' : Database) (u : Unit {0})
    → All (λ m. Has d m.id) ms
    → insert_messages ms d ≡ ok (u, d')
    → d'.messages ≡ d.messages
unfolding insert_messages insert_message
insert_messages-again [] d d' u a h = ground arith
insert_messages-again (m ∷ ms) d d' u a h = insert_messages-again ms d d' u a.1 (ground arith)

-- the id of the message that an event brings
abbrev pub brings : DatabaseEvent → List String
brings (DatabaseEvent.new_message id _ _ _ _ _ _ _) = id ∷ []
brings (DatabaseEvent.new_encrypted_message id _ _ _) = id ∷ []
brings (DatabaseEvent.read_receipt _ _) = []

abbrev pub HasAll : Database → Batch → Type 0
HasAll d b = All (λ m. Has d m.id) b.new_messages × All (λ m. Has d m.id) b.encrypted_messages

pub HasAll-brings :
    (d : Database) (es : List DatabaseEvent)
    → HasAll d (collect es)
    → All (λ e. All (Has d) (brings e)) es
unfolding collect
HasAll-brings d [] h = tt
HasAll-brings d (DatabaseEvent.new_message id _ _ _ _ _ _ _ ∷ es) h =
    ((h.0.0, tt), HasAll-brings d es (h.0.1, h.1))
HasAll-brings d (DatabaseEvent.new_encrypted_message id _ _ _ ∷ es) h =
    ((h.1.0, tt), HasAll-brings d es (h.0, h.1.1))
HasAll-brings d (DatabaseEvent.read_receipt _ _ ∷ es) h = (tt, HasAll-brings d es h)

pub All-as_message :
    (d : Database) (ms : List EncryptedMessage)
    → All (λ m. Has d m.id) (map as_message ms)
    → All (λ m. Has d m.id) ms
All-as_message d [] h = tt
All-as_message d (m ∷ ms) h = (h.0, All-as_message d ms h.1)

-- Once all messages of a batch are there, running it changes no message.
abbrev pub Again : Batch → Database → Database → Type 0
Again b d d' = HasAll d b → d'.messages ≡ d.messages

pub HasAll-same :
    (d d' : Database) (b : Batch) → d'.messages ≡ d.messages → HasAll d b → HasAll d' b
unfolding has_message
HasAll-same d d' b e h = rw e h

pub Again-trans : (b : Batch) (x y z : Database) → Again b x y → Again b y z → Again b x z
Again-trans b x y z p q h = q (HasAll-same x y b (p h) h) ∙ p h
