-- ===== src/Tests/History.antt =====
-- api/src/lib.rs: the history, the dialogs and the read states of two messages from Bob to Alice, over
-- the columns of the migrations.
use invisible_backend.Postgres.Ordered.{order_by, limited}
use invisible_backend.Api.{text}
use invisible_backend.Prelude.{
  [], ◌∷◌, inl, none, some, false, refl, ◌≡◌, String, List, ℕ, string_eq, ◌⊎◌, count,
}
use invisible_backend.Api.Messages.{
  read_rows, messages_handler, Columns, IsTyped, MessagesQuery, MessageResponse, after_id,
  is_between, limit_or_default,
}
use invisible_backend.Postgres.{query, World}
use invisible_backend.Api.MarkRead.Typed.{mark_read_handler-IsTyped, typed_reply}
use invisible_backend.Api.MarkRead.{mark_read_handler}
use invisible_backend.Api.Dialogs.{dialogs_handler}
use invisible_backend.Tests.{parse_uuid, sample, format_uuid, sample_db, alice}
use invisible_backend.Postgres.Schema.{Message}
use invisible_backend.Api.Messages.Typed.{messages_handler-IsTyped}
use invisible_backend.Prelude.Int.{pos_part}
use invisible_backend.Api.Dialogs.Typed.{dialogs_handler-IsTyped}

abbrev texts : Columns
texts = record { decode_uuid = λ s. none; uuid_operand = λ id. none; is_greater = λ a b. false }

texts-IsTyped : IsTyped texts
texts-IsTyped = record { no_decoding = λ s. refl; no_operator = λ id. refl }

abbrev message : String → ℕ → Message
message id time = record {
  id = id;
  sender_username = "bob";
  recipient_username = "alice";
  message_type = "text";
  content = some "hi";
  file_name = none;
  mime_type = none;
  file_url = none;
  created_at = time;
  read_at = none;
}

abbrev with_messages : World
with_messages = record sample {
  db = record sample_db { messages = message "one" 3 ∷ message "two" 5 ∷ [] };
}

abbrev newest : MessagesQuery
newest = record { after = none; limit = none }

abbrev nothing_shown : List MessageResponse
nothing_shown = []

messages_handler-IsTyped_example :
    (nothing_shown ≡ [])
    × (after_id parse_uuid none ≡ none)
    × ((count (is_between "carol" "alice") with_messages.db.messages ≡ 0)
        ⊎ (pos_part (limit_or_default none) ≡ 0))
unfolding messages_handler query limited read_rows order_by
messages_handler-IsTyped_example =
    messages_handler-IsTyped texts texts-IsTyped format_uuid parse_uuid alice "carol" newest
      with_messages nothing_shown refl

mark_read_handler-IsTyped_example :
    ((mark_read_handler texts format_uuid parse_uuid alice "bob" none with_messages).0
      ≡ typed_reply parse_uuid none)
    × ((mark_read_handler texts format_uuid parse_uuid alice "bob" none with_messages).1.db
        ≡ with_messages.db)
mark_read_handler-IsTyped_example =
    mark_read_handler-IsTyped texts format_uuid parse_uuid alice "bob" none with_messages
      texts-IsTyped

dialogs_handler-IsTyped_example :
    (dialogs_handler texts format_uuid alice with_messages).0 ≡ text 500 "Database error"
dialogs_handler-IsTyped_example =
    dialogs_handler-IsTyped texts format_uuid alice with_messages (message "one" 3) texts-IsTyped
      (inl refl) refl
