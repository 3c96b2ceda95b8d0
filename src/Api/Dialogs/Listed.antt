-- ===== src/Api/Dialogs/Listed.antt =====
-- api/src/lib.rs, dialogs_handler: which messages the list of dialogs shows.
use invisible_backend.Prelude.{
  true, ◌≡◌, String, List, In, ◌≤◌, retain, In-retain, arith, string_eq, retain-In,
}
use invisible_backend.Postgres.{ok, err, Result, DbError}
use invisible_backend.Api.Dialogs.{last_messages, peer_of, involves, DialogRow, beside, distinct_on}
use invisible_backend.Api.Messages.{is_later}
use invisible_backend.Postgres.Schema.{Message, Database}
use invisible_backend.Postgres.Ordered.{order_by, In-order_by, order_by-IsOrdered, order_by-In}
use invisible_backend.Api.Dialogs.Pairs.{distinct_on-first}
use invisible_backend.Api.Messages.Page.{is_later-IsOrder}

abbrev pub listed : String → Database → List Message
listed user db = order_by is_later (last_messages user db)

pub every-listed :
    (user : String) (db : Database) (m : Message)
    → In m db.messages
    → involves user m ≡ true
    → (l : Message) × In l (listed user db)
      × (peer_of user l ≡ peer_of user m)
      × (m.created_at ≤ l.created_at)
unfolding last_messages
every-listed user db m here involved =
    let mine = retain (involves user) db.messages in
    let rows = order_by is_later mine in
    let (l, kept, peer, later) =
      distinct_on-first user m rows
        (λ k i. (In-retain k (involves user) db.messages (In-order_by is_later k mine i)).1)
        (order_by-IsOrdered is_later is_later-IsOrder mine)
        (order_by-In is_later m mine (retain-In m (involves user) db.messages here involved)) in
    (l, order_by-In is_later l (distinct_on rows) kept, peer, later)

pub beside-ok :
    (db : Database) (r : Result DbError (List DialogRow)) (rows : List DialogRow) (db' : Database)
    → beside db r ≡ ok (rows, db')
    → r ≡ ok rows
beside-ok db (ok rs) rows db' h = ground arith
beside-ok db (err e) rows db' h = absurd (ground arith)
