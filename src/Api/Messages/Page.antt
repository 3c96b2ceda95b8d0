-- ===== src/Api/Messages/Page.antt =====
-- api/src/lib.rs, messages_handler: what a page holds.
use invisible_backend.Prelude.{
  [], ◌∷◌, some, map, ◌≡◌, inl, inr, none, refl, ◌&&◌, Option, List, String, arith, ℕ, Bool,
  Option-cases, subst, sym, retain, take, length, ◌≤◌,
}
use invisible_backend.Api.Messages.{
  Columns, is_later, is_earlier, cons, MessageResponse, MessageRow, is_between, select_messages,
  message_response, with_db, read_row, read_rows, messages_handler, on_rows, select_after_operand,
  MessagesQuery, after_id, limit_or_default,
}
use invisible_backend.Postgres.{ok, World, query, same_error}
use invisible_backend.Prelude.Int.{pos, negsuc, ℤ, pos_part}
use invisible_backend.Postgres.Ordered.{IsOrder, limited, IsPage, limited-IsPage, order_by}
use invisible_backend.Postgres.Schema.{Uuid, Message, Database}
use invisible_backend.Models.{Claims}
use invisible_backend.Api.{json}
use invisible_backend.Postgres.Rules.{Result-cases, query-ok}

pub is_later-IsOrder : IsOrder is_later
is_later-IsOrder = record { total = λ m n h. ground arith; trans = λ m n k h i. ground arith }

is_earlier-IsOrder : IsOrder is_earlier
is_earlier-IsOrder = record { total = λ m n h. ground arith; trans = λ m n k h i. ground arith }

cons-some :
    {A : Type 0} (o : Option A) (os : Option (List A)) (xs : List A)
    → cons o os ≡ some xs
    → (a : A) × (rest : List A) × (o ≡ some a) × (os ≡ some rest) × (xs ≡ a ∷ rest)
cons-some none os xs h = absurd (ground arith)
cons-some (some a) none xs h = absurd (ground arith)
cons-some (some a) (some rest) xs h = (a, rest, refl, refl, ground arith)

with_db-some :
    {A : Type 0} (db : Database) (o : Option A) (a : A) (db' : Database)
    → with_db db o ≡ ok (a, db')
    → o ≡ some a
with_db-some db none a db' h = absurd (ground arith)
with_db-some db (some b) a db' h = ground arith

module _ (columns : Columns) (format_uuid : Uuid → String) where
  -- The answer shows a message under the id that is read in its cell.
  pub record Shows (m : Message) (r : MessageResponse) : Type 0 where
    pub id : Uuid
    pub decoded : columns.decode_uuid m.id ≡ some id
    pub shown : r ≡ record {
      id = format_uuid id;
      from = m.sender_username;
      content = m.content;
      message_type = m.message_type;
      created_at = m.created_at;
    }

  abbrev pub ShowsAll : List Message → List MessageResponse → Type 0
  ShowsAll [] [] = Unit
  ShowsAll (m ∷ ms) (r ∷ rs) = Shows m r × ShowsAll ms rs
  ShowsAll _ _ = ⊥

  read_row-Shows :
      (m : Message) (row : MessageRow)
      → read_row columns m (columns.decode_uuid m.id) ≡ some row
      → Shows m (message_response format_uuid row)
  read_row-Shows m row h = elim (Option-cases (columns.decode_uuid m.id)) [
    | inl unread ↦ absurd (ground arith)
    | inr (id, decoded) ↦ record { id = id; decoded = decoded; shown = ground arith }
  ]

  read_rows-ShowsAll :
      (ms : List Message) (rows : List MessageRow)
      → read_rows columns ms ≡ some rows
      → ShowsAll ms (map (message_response format_uuid) rows)
  unfolding read_rows
  read_rows-ShowsAll [] rows h =
      subst (λ r. ShowsAll [] (map (message_response format_uuid) r)) {x = []} {y = rows}
        (ground arith) tt
  read_rows-ShowsAll (m ∷ ms) rows h =
      let (row, rest, decoded, others, e) = cons-some _ (read_rows columns ms) rows h in
      subst (λ r. ShowsAll (m ∷ ms) (map (message_response format_uuid) r)) (sym e)
        (read_row-Shows m row decoded, read_rows-ShowsAll ms rest others)

  -- The messages of a page and the order in which they are asked for.
  abbrev pub Asked :
      (user peer : String) (after : Option Uuid) (n : ℕ) (all page : List Message) → Type 0
  Asked user peer none n all page = IsPage is_later (is_between peer user) n all page
  Asked user peer (some after) n all page =
      (cell : String) × (columns.uuid_operand after ≡ some cell)
      × IsPage is_earlier (λ m. is_between peer user m && columns.is_greater m.id cell) n all page

  shown-IsPage :
      (before : Message → Message → Bool) (order : IsOrder before) (matches : Message → Bool)
      (limit : ℤ) (db : Database) (rows : List MessageRow) (db' : Database)
      → on_rows db
          (read_rows columns)
          (limited limit (order_by before (retain matches db.messages)))
        ≡ ok (rows, db')
      → (page : List Message) × IsPage before matches (pos_part limit) db.messages page
        × ShowsAll page (map (message_response format_uuid) rows)
  unfolding limited
  shown-IsPage before order matches (pos n) db rows db' h =
      let page = take n (order_by before (retain matches db.messages)) in
      (
        page,
        limited-IsPage before order matches n db.messages,
        read_rows-ShowsAll page rows (with_db-some db (read_rows columns page) rows db' h),
      )
  shown-IsPage before order matches (negsuc n) db rows db' h = absurd (ground arith)

  select_messages-Asked :
      (user peer : String) (after : Option Uuid) (limit : ℤ) (db : Database)
      (rows : List MessageRow) (db' : Database)
      → select_messages columns peer user after limit db ≡ ok (rows, db')
      → (page : List Message) × Asked user peer after (pos_part limit) db.messages page
        × ShowsAll page (map (message_response format_uuid) rows)
  unfolding limited
  select_messages-Asked user peer none limit db rows db' h =
      shown-IsPage is_later is_later-IsOrder (is_between peer user) limit db rows db' h
  select_messages-Asked user peer (some after) limit db rows db' h =
      elim (Option-cases (columns.uuid_operand after)) [
        | inl no_operator ↦ absurd (ground arith)
        | inr (cell, operand) ↦
            let (page, first, shown) =
              shown-IsPage is_earlier is_earlier-IsOrder
                (λ m. is_between peer user m && columns.is_greater m.id cell) limit db rows db'
                (subst (λ o. select_after_operand columns peer user o limit db ≡ ok (rows, db'))
                  operand h) in
            (page, (cell, operand, first), shown)
      ]

  limit_few : (limit : Option ℤ) → pos_part (limit_or_default limit) ≤ 100
  limit_few none = omega arith
  limit_few (some (pos n)) = ground arith
  limit_few (some (negsuc n)) = ground arith

  Asked-few :
      (user peer : String) (after : Option Uuid) (limit : Option ℤ) (all page : List Message)
      → Asked user peer after (pos_part (limit_or_default limit)) all page
      → length page ≤ 100
  Asked-few user peer none limit all page asked = omega (arith, asked.few, limit_few limit)
  Asked-few user peer (some after) limit all page (cell, operand, first) =
      omega (arith, first.few, limit_few limit)

  -- A 200 answer shows the first messages between the user and the peer, at most the limit asked for
  -- and never more than a hundred: the latest first, or those after a message from the earliest on.
  pub messages_handler-Asked :
      (parse_uuid : String → Option Uuid) (user : Claims) (peer : String) (params : MessagesQuery)
      (w : World) (rs : List MessageResponse)
      → (messages_handler columns format_uuid parse_uuid user peer params w).0 ≡ json 200 rs
      → (page : List Message) × Asked user.sub peer
          (after_id parse_uuid params.after)
          (pos_part (limit_or_default params.limit))
          w.db.messages
          page
        × ShowsAll page rs
        × (length page ≤ 100)
  unfolding messages_handler
  messages_handler-Asked parse_uuid user peer params w rs h =
      let after = after_id parse_uuid params.after in
      let limit = limit_or_default params.limit in
      let select = select_messages columns peer user.sub after limit in
      elim (Result-cases (query same_error select w).0) [
        | inl (rows, done) ↦
            let (page, asked, shown) =
              select_messages-Asked user.sub peer after limit w.db rows _
                (query-ok same_error select w rows done) in
            (
              page,
              asked,
              subst (ShowsAll page) {x = map (message_response format_uuid) rows} {y = rs}
                  (ground arith) shown,
              Asked-few user.sub peer after params.limit w.db.messages page asked,
            )
        | inr (e, failed) ↦ absurd (ground arith)
      ]
