-- ===== src/Api/Worker/Stored.antt =====
-- api/src/worker.rs: what a batch does to the table of messages.
use invisible_backend.Postgres.{DbError, Exec, query, ok, unless_empty, same_error}
use invisible_backend.Postgres.Rules.{
  Relates, Relates-query, Relates-bind, Relates-pure, Result-cases,
}
use invisible_backend.Postgres.Schema.{Database, Message, Uuid, has_message, MessageCiphertext}
use invisible_backend.Api.Worker.{
  NewMessage, EncryptedMessage, Receipt, Batch, as_message, insert_message, insert_messages,
  insert_ciphertext, insert_ciphertexts, select_senders, save_read_state, mark_found, mark_all,
  save_receipts, ciphertexts_data, save_encrypted, save_batch, sender_of, message_row,
}
use invisible_backend.Prelude.{
  [], ◌∷◌, inl, inr, none, some, map, ◌≡◌, ◌++◌, List, sym, ◌∙◌, Bool-cases, String, Option,
  append-nil, ap, arith, ℕ, append_assoc,
}

-- No message is changed or removed; new ones come after the old.
abbrev pub AddsMessages : Database → Database → Type 0
AddsMessages d d' = (new : List Message) × (d'.messages ≡ d.messages ++ new)

pub AddsMessages-refl : (d : Database) → AddsMessages d d
AddsMessages-refl d = ([], sym (append-nil d.messages))

pub AddsMessages-same : (d d' : Database) → d'.messages ≡ d.messages → AddsMessages d d'
AddsMessages-same d d' e = ([], e ∙ sym (append-nil d.messages))

pub AddsMessages-trans : (a b c : Database) → AddsMessages a b → AddsMessages b c → AddsMessages a c
AddsMessages-trans a b c (x, p) (y, q) =
    (x ++ y, q ∙ ap (λ l. l ++ y) p ∙ append_assoc a.messages x y)

pub insert_message-AddsMessages :
    (m : NewMessage) (d d' : Database) → insert_message m d ≡ ok d' → AddsMessages d d'
unfolding insert_message
insert_message-AddsMessages m d d' h = elim (Bool-cases (has_message d m.id)) [
  | inl old ↦ AddsMessages-same d d' (ground arith)
  | inr new ↦ (message_row m d.now ∷ [], ground arith)
]

pub insert_messages-AddsMessages :
    (ms : List NewMessage) (d d' : Database) (u : Unit {0})
    → insert_messages ms d ≡ ok (u, d')
    → AddsMessages d d'
unfolding insert_messages
insert_messages-AddsMessages [] d d' u h = AddsMessages-same d d' (ground arith)
insert_messages-AddsMessages (m ∷ ms) d d' u h = elim (Result-cases (insert_message m d)) [
  | inl (d₁, e) ↦
      AddsMessages-trans d d₁ d' (insert_message-AddsMessages m d d₁ e)
        (insert_messages-AddsMessages ms d₁ d' u (ground arith))
  | inr (x, e) ↦ absurd (ground arith)
]

insert_ciphertexts_messages :
    (cs : List MessageCiphertext) (d d' : Database) (u : Unit {0})
    → insert_ciphertexts cs d ≡ ok (u, d')
    → d'.messages ≡ d.messages
unfolding insert_ciphertexts insert_ciphertext
insert_ciphertexts_messages [] d d' u h = ground arith
insert_ciphertexts_messages (c ∷ cs) d d' u h = elim (Result-cases (insert_ciphertext c d)) [
  | inl (d₁, e) ↦
      let rest : d'.messages ≡ d₁.messages =
        insert_ciphertexts_messages cs d₁ d' u (ground arith) in
      ground arith
  | inr (x, e) ↦ absurd (ground arith)
]

-- The statements after the inserts leave the messages alone.
module _ (R : Database → Database → Type 0) (r : (d : Database) → R d d)
    (t : (a b c : Database) → R a b → R b c → R a c)
    (same : (d d' : Database) → d'.messages ≡ d.messages → R d d') where
  unless_empty-Relates :
      {A : Type 0} (xs : List A) (m : Exec DbError (Unit {0}))
      → Relates R m
      → Relates R (unless_empty xs m)
  unless_empty-Relates [] m h = Relates-pure R r tt
  unless_empty-Relates (x ∷ xs) m h = h

  save_read_state-Relates :
      (user peer id : String) → Relates R (query same_error (save_read_state user peer id))
  unfolding save_read_state
  save_read_state-Relates user peer id =
      Relates-query R r same_error _ (λ d d' u h. same d d' (ground arith))

  mark_found-Relates : (x : Receipt) (o : Option (String × String)) → Relates R (mark_found x o)
  mark_found-Relates x none = Relates-pure R r tt
  mark_found-Relates x (some m) = save_read_state-Relates x.reader m.1 x.message_id

  mark_all-Relates :
      (senders : List (String × String)) (rs : List Receipt) → Relates R (mark_all senders rs)
  unfolding mark_all
  mark_all-Relates senders [] = Relates-pure R r tt
  mark_all-Relates senders (x ∷ rs) =
      Relates-bind R t _ _ (mark_found-Relates x (sender_of x.message_id senders))
        (λ _. mark_all-Relates senders rs)

  pub save_receipts-Relates : (rs : List Receipt) → Relates R (save_receipts rs)
  unfolding save_receipts select_senders
  save_receipts-Relates rs = unless_empty-Relates rs _ (
      Relates-bind R t _ _ (Relates-query R r same_error _ (λ d d' u h. same d d' (ground arith)))
        (λ senders. mark_all-Relates senders rs))

  pub save_ciphertexts-Relates :
      (cs : List MessageCiphertext)
      → Relates R (unless_empty cs (query same_error (insert_ciphertexts cs)))
  save_ciphertexts-Relates cs = unless_empty-Relates cs _ (
      Relates-query R r same_error _
        (λ d d' u h. same d d' (insert_ciphertexts_messages cs d d' u h)))

  module _ (parse_uuid : String → Option Uuid) (new_v4 : ℕ → Uuid) where
    pub save_encrypted-Relates :
        (ms : List EncryptedMessage)
        → Relates R (query same_error (insert_messages (map as_message ms)))
        → Relates R (save_encrypted parse_uuid new_v4 ms)
    unfolding save_encrypted
    save_encrypted-Relates ms ins = unless_empty-Relates ms _ (
        Relates-bind R t _ _ ins
          (λ _. save_ciphertexts-Relates (ciphertexts_data parse_uuid new_v4 0 ms)))

    pub save_batch-Relates :
        (b : Batch)
        → Relates R (query same_error (insert_messages b.new_messages))
        → Relates R (query same_error (insert_messages (map as_message b.encrypted_messages)))
        → Relates R (save_batch parse_uuid new_v4 b)
    unfolding save_batch
    save_batch-Relates b plain encrypted =
        Relates-bind R t _ _ (unless_empty-Relates b.new_messages _ plain) λ _.
          Relates-bind R t _ _ (save_encrypted-Relates b.encrypted_messages encrypted)
            (λ _. save_receipts-Relates b.read_receipts)
