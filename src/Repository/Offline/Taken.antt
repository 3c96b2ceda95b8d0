-- ===== src/Repository/Offline/Taken.antt =====
-- shared/src/repository.rs: which messages a fetch takes out of the queue.
use invisible_backend.Repository.Offline.Rows.{
  UniqueIds, retain_ext, count-oldest_first, any-oldest_first, oldest_first-IsOldestFirst,
  any-retain_and, any_assoc, any-UniqueIds,
}
use invisible_backend.Prelude.{
  ℕ, [], ◌∷◌, inl, inr, true, false, refl, ◌==◌, ◌≡◌, ◌&&◌, List, any, Bool, arith, count, retain,
  nat_eq, none, some, subst, String, Option, not, string_eq, ap, sym, ◌∙◌,
}
use invisible_backend.Postgres.Schema.{OfflineMessage, Database}
use invisible_backend.Repository.Offline.{
  fetch_and_delete_offline_messages, oldest_first, decode_rows, take_offline, select_offline,
  delete_offline,
}
use invisible_backend.Postgres.{
  ok, err, Result, DbError, World, unless_empty, transaction, query, same_error,
}
use invisible_backend.Models.{OutgoingMessage}
use invisible_backend.Postgres.Rules.{
  bind-ok, query-ok, Result-cases, transaction-ok, transaction-err,
}
use invisible_backend.Repository.Offline.Rows.{retain_all, IsOldestFirst}

deleted-delete_offline :
    (ids : List ℕ) (w : World) (u : Unit {0})
    → (unless_empty ids (query same_error (delete_offline ids)) w).0 ≡ ok u
    → (unless_empty ids (query same_error (delete_offline ids)) w).1.db.offline_messages
      ≡ retain (λ m. not (any (λ id. id == m.id) ids)) w.db.offline_messages
unfolding delete_offline
deleted-delete_offline [] w u h = sym (retain_all w.db.offline_messages)
deleted-delete_offline (i ∷ ids) w u h =
    let e = query-ok same_error (delete_offline (i ∷ ids)) w u h in ground arith

ok_injective :
    (a b : List OutgoingMessage)
    → ◌≡◌ {A = Result DbError (List OutgoingMessage)} (ok a) (ok b)
    → a ≡ b
ok_injective a b h = ground arith

module _ (from_value : String → Option OutgoingMessage) where
  -- a row whose payload can be read
  abbrev pub is_readable : OfflineMessage → Bool
  is_readable m = elim (from_value m.payload) [ none ↦ false | some _ ↦ true ]

  -- what the readable rows say, in their order
  abbrev pub messages_of : List OfflineMessage → List OutgoingMessage
  messages_of [] = []
  messages_of (m ∷ ms) = elim (from_value m.payload) [
    | none ↦ messages_of ms
    | some message ↦ message ∷ messages_of ms
  ]

  decode_rows-messages_of :
      (ms : List OfflineMessage) → (decode_rows from_value ms).0 ≡ messages_of ms
  unfolding decode_rows
  decode_rows-messages_of [] = refl
  decode_rows-messages_of (m ∷ ms) = ground (arith, decode_rows-messages_of ms)

  any-decode_rows :
      (k : ℕ) (ms : List OfflineMessage)
      → any (λ id. id == k) (decode_rows from_value ms).1 ≡ any (λ m. is_readable m && m.id == k) ms
  unfolding decode_rows
  any-decode_rows k [] = refl
  any-decode_rows k (m ∷ ms) = ground (arith, any-decode_rows k ms)

  -- what a fetch for a user selects
  abbrev selected : String → Database → List OfflineMessage
  selected user db = oldest_first (retain (λ m. m.to_user == user) db.offline_messages)

  -- what is left when the readable ones of some rows are deleted
  abbrev not_deleted : List OfflineMessage → Database → List OfflineMessage
  not_deleted rows db =
      retain (λ m. not (any (λ id. id == m.id) (decode_rows from_value rows).1)) db.offline_messages

  -- The rows deleted are the user's readable rows.
  deleted_rows :
      (user : String) (db : Database)
      → UniqueIds db.offline_messages
      → not_deleted (selected user db) db
        ≡ retain (λ m. not (m.to_user == user && is_readable m)) db.offline_messages
  deleted_rows user db u = retain_ext _ _ db.offline_messages λ m here. ap not (
      any-decode_rows m.id (selected user db)
      ∙ any-oldest_first (λ n. is_readable n && n.id == m.id)
          (retain (λ n. n.to_user == user) db.offline_messages)
      ∙ any-retain_and (λ n. is_readable n && n.id == m.id) (λ n. n.to_user == user)
          db.offline_messages
      ∙ any_assoc (λ n. n.to_user == user) is_readable (λ n. n.id == m.id) db.offline_messages
      ∙ any-UniqueIds (λ n. n.to_user == user && is_readable n) m db.offline_messages u here)

  -- What a fetch gives and leaves.
  pub record IsTaken (user : String) (ms : List OutgoingMessage) (d d' : Database) : Type 0 where
    pub rows : List OfflineMessage
    pub same :
        (p : OfflineMessage → Bool)
        → count p rows ≡ count p (retain (λ m. m.to_user == user) d.offline_messages)
    pub ordered : IsOldestFirst rows
    pub given : ms ≡ messages_of rows
    pub left :
        d'.offline_messages
        ≡ retain (λ m. not (m.to_user == user && is_readable m)) d.offline_messages

  abbrev pub Fetched : String → Result DbError (List OutgoingMessage) → Database → Database → Type 0
  Fetched user (ok ms) d d' = IsTaken user ms d d'
  Fetched user (err e) d d' = d' ≡ d

  take_offline-IsTaken :
      (user : String) (w : World) (ms : List OutgoingMessage)
      → UniqueIds w.db.offline_messages
      → (take_offline from_value user w).0 ≡ ok ms
      → IsTaken user ms w.db (take_offline from_value user w).1.db
  unfolding take_offline select_offline
  take_offline-IsTaken user w ms u h =
      let (rows, one, rest, e) = bind-ok (query same_error (select_offline user)) _ w ms h in
      let read = query-ok same_error (select_offline user) w rows one in
      let w₁ = (query same_error (select_offline user) w).1 in
      let rows_eq : rows ≡ selected user w.db = ground arith in
      let db_eq : w₁.db ≡ w.db = ground arith in
      let ids = (decode_rows from_value rows).1 in
      let (v, two, rest', e') =
        bind-ok (unless_empty ids (query same_error (delete_offline ids))) _ w₁ ms rest in
      record {
        rows = rows;
        same = λ p. rw rows_eq (count-oldest_first p _);
        ordered = rw rows_eq (oldest_first-IsOldestFirst _);
        given = sym (ok_injective _ _ rest') ∙ decode_rows-messages_of rows;
        left =
            ap (λ x. x.1.db.offline_messages) (e ∙ e')
            ∙ deleted-delete_offline ids w₁ v two
            ∙ ap (λ r. not_deleted r w₁.db) rows_eq
            ∙ ap (not_deleted (selected user w.db)) db_eq
            ∙ deleted_rows user w.db u;
      }

  -- A fetch that succeeds gives the user's readable messages, oldest first, and takes those out of the
  -- queue and no others; a fetch that fails at any point leaves the queue, and every table, as it was.
  pub fetch_and_delete_offline_messages-Fetched :
      (user : String) (w : World)
      → UniqueIds w.db.offline_messages
      → let (r, w') = fetch_and_delete_offline_messages from_value user w in
        Fetched user r w.db w'.db
  unfolding fetch_and_delete_offline_messages
  fetch_and_delete_offline_messages-Fetched user w u =
      let fetch = transaction same_error (take_offline from_value user) in
      elim (Result-cases (fetch w).0) [
        | inl (ms, done) ↦
            let (v, before, ran, after) =
              transaction-ok same_error (take_offline from_value user) w ms done in
            subst (λ r. Fetched user r w.db (fetch w).1.db) (sym done)
              (subst (λ d. IsTaken user ms d (fetch w).1.db) before
                (subst (IsTaken user ms v.db) after (
                  take_offline-IsTaken user v ms
                    (subst (λ d. UniqueIds d.offline_messages) (sym before) u) ran)))
        | inr (e, failed) ↦
            subst (λ r. Fetched user r w.db (fetch w).1.db) (sym failed)
              (transaction-err same_error (take_offline from_value user) w e failed)
      ]
