-- ===== src/Postgres/Rules.antt =====
-- What the calls of sqlx guarantee, whatever the statements are.
use invisible_backend.Prelude.{
  Bool, true, false, List, [], ◌∷◌, drop, ◌≡◌, refl, ◌⊎◌, inl, inr, arith, subst,
}
use invisible_backend.Postgres.Schema.{Database}
use invisible_backend.Postgres.{
  World, DbError, Result, ok, err, Sql, Exec, query, transaction, ◌>>=◌, pure, throw, settle, call,
  continue, unavailable, nothing,
}

pub Result-cases :
    {E A : Type 0} (r : Result E A) → ((a : A) × (r ≡ ok a)) ⊎ ((e : E) × (r ≡ err e))
Result-cases (ok a) = inl (a, refl)
Result-cases (err e) = inr (e, refl)

abbrev begun : World → World
begun w = record w { outages = drop 1 w.outages }

module _ {E A : Type 0} (f : DbError → E) where
  -- A call that fails leaves the tables as they were.
  pub query-err :
      (s : Sql A) (w : World) (e : E) → (query f s w).0 ≡ err e → (query f s w).1.db ≡ w.db
  unfolding query
  query-err s w e h = ground arith

  -- A call that succeeds is its statement.
  pub query-ok :
      (s : Sql A) (w : World) (a : A) → (query f s w).0 ≡ ok a → s w.db ≡ ok (a, (query f s w).1.db)
  unfolding query
  query-ok s w a h = ground arith

  -- A transaction that returns early has changed no table.
  pub transaction-err :
      (m : Exec E A) (w : World) (e : E)
      → (transaction f m w).0 ≡ err e
      → (transaction f m w).1.db ≡ w.db
  unfolding transaction
  transaction-err m w e h = ground arith

  -- A transaction that commits did so after its body, run on the tables as they stood.
  pub transaction-ok :
      (m : Exec E A) (w : World) (a : A)
      → (transaction f m w).0 ≡ ok a
      → (v : World) × (v.db ≡ w.db) × ((m v).0 ≡ ok a) × ((m v).1.db ≡ (transaction f m w).1.db)
  unfolding transaction
  transaction-ok m w a h = (begun w, refl, ground arith, ground arith)

-- Whatever happens, the tables after `m` are related to those before it.
pub record Relates {E A : Type 0} (R : Database → Database → Type 0) (m : Exec E A) : Type 0 where
  pub at : (w : World) → R w.db (m w).1.db

module _ {E : Type 0} (R : Database → Database → Type 0) (r : (db : Database) → R db db) where
  settle_related :
      {A : Type 0} (f : DbError → E) (w : World) (x : Result DbError (A × Database))
      → ((db' : Database) (a : A) → x ≡ ok (a, db') → R w.db db')
      → R w.db (settle f w x).1.db
  settle_related f w (ok (a, db)) step = step db a refl
  settle_related f w (err e) step = r w.db

  call_related :
      {A : Type 0} (f : DbError → E) (s : Sql A)
      → ((db db' : Database) (a : A) → s db ≡ ok (a, db') → R db db')
      → (db : Database) (o : List Bool) → R db (call f s db o).1.db
  call_related f s step db [] = settle_related f _ (s db) (step db)
  call_related f s step db (true ∷ o) = r db
  call_related f s step db (false ∷ o) = settle_related f _ (s db) (step db)

  pub Relates-query :
      {A : Type 0} (f : DbError → E) (s : Sql A)
      → ((db db' : Database) (a : A) → s db ≡ ok (a, db') → R db db')
      → Relates R (query f s)
  unfolding query
  Relates-query f s step = record { at = λ w. call_related f s step w.db w.outages }

  pub Relates-pure : {A : Type 0} (a : A) → Relates R (pure {E = E} a)
  Relates-pure a = record { at = λ w. r w.db }

  pub Relates-throw : {A : Type 0} (e : E) → Relates R (throw {A = A} e)
  Relates-throw e = record { at = λ w. r w.db }

  pub Relates-transaction :
      {A : Type 0} (f : DbError → E) (m : Exec E A) → Relates R m → Relates R (transaction f m)
  unfolding transaction
  Relates-transaction f m hm = record { at = λ w. ground (arith, r w.db, hm.at (begun w)) }

module _ {E : Type 0} (R : Database → Database → Type 0)
    (t : (a b c : Database) → R a b → R b c → R a c) where
  continue_related :
      {A B : Type 0} (k : A → Exec E B)
      → ((a : A) → Relates R (k a))
      → (db : Database) (x : Result E A) (w : World) → R db w.db
      → R db (continue x k w).1.db
  continue_related k hk db (ok a) w h = t db w.db _ h ((hk a).at w)
  continue_related k hk db (err e) w h = h

  pub Relates-bind :
      {A B : Type 0} (m : Exec E A) (k : A → Exec E B)
      → Relates R m
      → ((a : A) → Relates R (k a))
      → Relates R (m >>= k)
  unfolding ◌>>=◌
  Relates-bind m k hm hk = record {
    at = λ w. let (x, v) = m w in continue_related k hk w.db x v (hm.at w);
  }

module _ {E A B : Type 0} where
  -- A chain that succeeds has succeeded at its first part.
  pub bind-ok :
      (m : Exec E A) (k : A → Exec E B) (w : World) (b : B)
      → ((m >>= k) w).0 ≡ ok b
      → (a : A) × ((m w).0 ≡ ok a) × ((k a (m w).1).0 ≡ ok b) × ((m >>= k) w ≡ k a (m w).1)
  unfolding ◌>>=◌
  bind-ok m k w b h = continue-ok k b (m w).0 (m w).1 h
    where
      continue-ok :
          (k : A → Exec E B) (b : B) (x : Result E A) (v : World)
          → (continue x k v).0 ≡ ok b
          → (a : A) × (x ≡ ok a) × ((k a v).0 ≡ ok b) × (continue x k v ≡ k a v)
      continue-ok k b (ok a) v h = (a, refl, h, refl)
      continue-ok k b (err e) v h = cc

-- Every early return of `m` satisfies `Q`.
pub record Fails {E A : Type 0} (Q : E → Type 0) (m : Exec E A) : Type 0 where
  pub at : (w : World) (e : E) → (m w).0 ≡ err e → Q e

module _ {E : Type 0} (Q : E → Type 0) where
  pub Fails-pure : {A : Type 0} (a : A) → Fails Q (pure a)
  Fails-pure a = record { at = λ w e h. cc }

  pub Fails-throw : {A : Type 0} (e : E) → Q e → Fails Q (throw {A = A} e)
  Fails-throw e q = record { at = λ w e' h. subst Q (ground arith) q }

  settle-Fails :
      {A : Type 0} (f : DbError → E) (w : World) (x : Result DbError (A × Database))
      → ((y : DbError) → Q (f y))
      → (e : E) → (settle f w x).0 ≡ err e
      → Q e
  settle-Fails f w (ok a) q e h = cc
  settle-Fails f w (err y) q e h = subst Q (ground arith) (q y)

  call-Fails :
      {A : Type 0} (f : DbError → E) (s : Sql A) (db : Database) (o : List Bool)
      → ((y : DbError) → Q (f y))
      → (e : E) → (call f s db o).0 ≡ err e
      → Q e
  call-Fails f s db [] q e h = settle-Fails f _ (s db) q e h
  call-Fails f s db (true ∷ o) q e h = subst Q (ground arith) (q unavailable)
  call-Fails f s db (false ∷ o) q e h = settle-Fails f _ (s db) q e h

  pub Fails-query :
      {A : Type 0} (f : DbError → E) (s : Sql A) → ((y : DbError) → Q (f y)) → Fails Q (query f s)
  unfolding query
  Fails-query f s q = record { at = λ w. call-Fails f s w.db w.outages q }

  pub Fails-bind :
      {A B : Type 0} (m : Exec E A) (k : A → Exec E B)
      → Fails Q m
      → ((a : A) → Fails Q (k a))
      → Fails Q (m >>= k)
  unfolding ◌>>=◌
  Fails-bind m k hm hk = record { at = λ w. let (x, v) = m w in continue-Fails k hk x v (hm.at w) }
    where
      continue-Fails :
          {A B : Type 0} (k : A → Exec E B)
          → ((a : A) → Fails Q (k a))
          → (x : Result E A) (v : World) → ((e : E) → x ≡ err e → Q e)
          → (e : E) → (continue x k v).0 ≡ err e
          → Q e
      continue-Fails k hk (ok a) v h e p = (hk a).at v e p
      continue-Fails k hk (err x) v h e p = h e (ground arith)

  pub Fails-transaction :
      {A : Type 0} (f : DbError → E) (m : Exec E A)
      → ((y : DbError) → Q (f y))
      → Fails Q m
      → Fails Q (transaction f m)
  unfolding transaction
  Fails-transaction f m q hm = record {
    at = λ w e h. elim (Result-cases (query f nothing w).0) [
      | inr (x, p) ↦ subst Q {x = f unavailable} (ground arith) (q unavailable)
      | inl (_, p) ↦ elim (Result-cases (m (begun w)).0) [
        | inl (a, p') ↦ subst Q {x = f unavailable} (ground arith) (q unavailable)
        | inr (x, p') ↦ subst Q (ground arith) (hm.at (begun w) x p')
      ]
    ];
  }
