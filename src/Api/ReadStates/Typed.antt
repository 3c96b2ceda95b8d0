-- ===== src/Api/ReadStates/Typed.antt =====
-- api/src/lib.rs, get_read_state_handler over the VARCHAR columns of the migrations, and the read states
-- that the history worker stores.
use Prim.Native.Nat.{◌%◌}
use invisible_backend.Api.{text, Reply, json}
use invisible_backend.Prelude.{
  [], inl, inr, none, some, refl, ◌≡◌, String, ℕ, ◌<◌, Option, find, count, ◌∙◌, ap, Option-cases,
  arith, ==_refl, string_eq,
}
use invisible_backend.Postgres.{ok, query, World}
use invisible_backend.Prelude.Int.{pos, ℤ}
use invisible_backend.Api.ReadStates.{
  as_i32, get_read_state_handler, select_read_state, count_from, ReadStateResponse, is_state,
  is_sent,
}
use invisible_backend.Api.Worker.{save_read_state, read_state_row, state_owner}
use invisible_backend.Api.Messages.{Columns, IsTyped}
use invisible_backend.Postgres.Tables.{pair_beq, upsert, row_at, row_at-upsert, pair_eq}
use invisible_backend.Postgres.Schema.{Uuid, Database, ReadState}
use invisible_backend.Models.{Claims}

-- A count below 2^31 is answered as it is.
as_i32-pos : (n : ℕ) → n < 2147483648 → as_i32 n ≡ pos n
unfolding as_i32
as_i32-pos n h = let e : n % 4294967296 ≡ n = omega arith in ground arith

abbrev pub unread_reply : String → ℤ → Reply ReadStateResponse
unread_reply peer n =
    json 200
      (record { peer = peer; last_read_message_id = none; unread_count = n; updated_at = none })

abbrev pub state_reply : String → ℤ → Option ReadState → Reply ReadStateResponse
state_reply peer n none = unread_reply peer n
state_reply peer n (some s) = text 500 "Database error"

get_read_state-reply :
    (columns : Columns) (format_uuid : Uuid → String) (user : Claims) (peer : String) (w : World)
    → IsTyped columns
    → w.outages ≡ []
    → (get_read_state_handler columns format_uuid user peer w).0
      ≡ state_reply peer
          (as_i32 (count (is_sent peer user.sub) w.db.messages))
          (find (is_state user.sub peer) w.db.dialog_read_states)
unfolding get_read_state_handler select_read_state count_from query
get_read_state-reply columns format_uuid user peer w typed calm =
    elim (Option-cases (find (is_state user.sub peer) w.db.dialog_read_states)) [
      | inl absent ↦ ground arith
      | inr (s, found) ↦ ground (arith, typed.no_decoding s.last_read_message_id)
    ]

-- Where sqlx and PostgreSQL keep UUID and VARCHAR apart and the database answers, a read state that
-- is stored is never shown: its row makes the request fail, and without one the answer counts
-- every message of the peer, exactly where there are fewer than 2^31.
pub get_read_state_handler-IsTyped :
    (columns : Columns) (format_uuid : Uuid → String) (user : Claims) (peer : String) (w : World)
    → IsTyped columns
    → w.outages ≡ []
    → count (is_sent peer user.sub) w.db.messages < 2147483648
    → (get_read_state_handler columns format_uuid user peer w).0
      ≡ state_reply peer
          (pos (count (is_sent peer user.sub) w.db.messages))
          (find (is_state user.sub peer) w.db.dialog_read_states)
get_read_state_handler-IsTyped columns format_uuid user peer w typed calm few =
    get_read_state-reply columns format_uuid user peer w typed calm
    ∙ ap (λ n. state_reply peer n (find (is_state user.sub peer) w.db.dialog_read_states))
        (as_i32-pos _ few)

find-save_read_state :
    (reader peer id : String) (d d' : Database) (u : Unit {0})
    → save_read_state reader peer id d ≡ ok (u, d')
    → find (is_state reader peer) d'.dialog_read_states ≡ some (read_state_row reader peer id d.now)
unfolding save_read_state pair_beq
find-save_read_state reader peer id d d' u h =
    let row = read_state_row reader peer id d.now in
    let e : d'.dialog_read_states ≡ upsert state_owner row d.dialog_read_states = ground arith in
    ap (row_at state_owner (reader, peer)) e
    ∙ row_at-upsert state_owner row (reader, peer) d.dialog_read_states
    ∙ rw (==_refl {A = String × String} (reader, peer)) refl

-- Once the worker has stored a read receipt of a user for a message of a peer, the user's request for
-- that read state fails, as long as the row is there and sqlx keeps UUID and VARCHAR apart.
pub get_read_state_handler-save_read_state :
    (columns : Columns) (format_uuid : Uuid → String) (user : Claims) (peer id : String)
    (d : Database) (u : Unit {0}) (w : World)
    → IsTyped columns
    → w.outages ≡ []
    → save_read_state user.sub peer id d ≡ ok (u, w.db)
    → (get_read_state_handler columns format_uuid user peer w).0 ≡ text 500 "Database error"
get_read_state_handler-save_read_state columns format_uuid user peer id d u w typed calm saved =
    get_read_state-reply columns format_uuid user peer w typed calm
    ∙ ap (state_reply peer (as_i32 (count (is_sent peer user.sub) w.db.messages)))
        (find-save_read_state user.sub peer id d w.db u saved)
