-- ===== src/Api/Dialogs/Typed.antt =====
-- api/src/lib.rs, dialogs_handler over the VARCHAR columns of the migrations.
use invisible_backend.Prelude.{[], ◌∷◌, inl, inr, true, refl, ◌≡◌, String, List, In, arith, subst}
use invisible_backend.Postgres.{ok, err, World, type_mismatch, query, same_error}
use invisible_backend.Api.Messages.{Columns, IsTyped}
use invisible_backend.Api.Dialogs.{
  dialogs_handler, select_dialogs, dialog_rows, dialog_row, DialogRow, involves,
}
use invisible_backend.Postgres.Schema.{Uuid, Database, Message}
use invisible_backend.Models.{Claims}
use invisible_backend.Api.{text}
use invisible_backend.Postgres.Rules.{Result-cases, query-ok}
use invisible_backend.Api.Dialogs.Listed.{listed, beside-ok, every-listed}

module _ (columns : Columns) (typed : IsTyped columns) where
  dialog_row-typed :
      (user : String) (db : Database) (m : Message)
      → dialog_row columns user db m ≡ err type_mismatch
  dialog_row-typed user db m = ground (arith, typed.no_decoding m.id)

  dialog_rows-typed :
      (user : String) (db : Database) (ms : List Message) (rows : List DialogRow)
      → dialog_rows columns user db ms ≡ ok rows
      → ms ≡ []
  unfolding dialog_rows
  dialog_rows-typed user db [] rows h = refl
  dialog_rows-typed user db (m ∷ ms) rows h = absurd (ground (arith, dialog_row-typed user db m))

-- Where sqlx and PostgreSQL keep UUID and VARCHAR apart, the request of a user who has a message at all
-- fails, whatever the tables hold and whether or not the database answers.
pub dialogs_handler-IsTyped :
    (columns : Columns) (format_uuid : Uuid → String) (user : Claims) (w : World) (m : Message)
    → IsTyped columns
    → In m w.db.messages
    → involves user.sub m ≡ true
    → (dialogs_handler columns format_uuid user w).0 ≡ text 500 "Database error"
unfolding dialogs_handler select_dialogs
dialogs_handler-IsTyped columns format_uuid user w m typed here involved =
    let select = select_dialogs columns user.sub in
    elim (Result-cases (query same_error select w).0) [
      | inl (rows, done) ↦
          let nothing_listed =
            dialog_rows-typed columns typed user.sub w.db (listed user.sub w.db) rows
              (beside-ok w.db _ rows _ (query-ok same_error select w rows done)) in
          let (l, kept, peer, later) = every-listed user.sub w.db m here involved in
          absurd (subst (In l) nothing_listed kept)
      | inr (e, failed) ↦ ground arith
    ]
