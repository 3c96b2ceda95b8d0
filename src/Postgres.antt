-- ===== src/Postgres.antt =====
-- The PostgreSQL database as the migrations lay it out (migrations/*.sql), and the calls of sqlx.
-- A statement is a function on the tables, read off the SQL text at its call; the constraints that
-- it can break are those of the migrations. Whether the server answers is a parameter: each call
-- takes the next entry of `outages`, and fails with the tables unchanged where that is `true`.
pub mod Schema
pub mod Tables
pub mod Rules
pub mod Ordered
use invisible_backend.Prelude.{Bool, true, false, List, [], ◌∷◌}
use Schema.{Database}

pub data DbError : Type 0 where
  unavailable unique_violation foreign_key_violation negative_limit type_mismatch
        integer_out_of_range :
      DbError

pub data Result {ℓ κ} (E : Type ℓ) (A : Type κ) : Type (ℓ ⊔ κ) where
  ok : A → Result E A
  err : E → Result E A

pub record World : Type 0 where
  pub db : Database
  pub outages : List Bool

-- A statement: its result and the tables after it, or the constraint that it breaks.
abbrev pub Sql : Type 0 → Type 0
Sql A = Database → Result DbError (A × Database)

-- A computation that may return early, with the world as it left it.
abbrev pub Exec : Type 0 → Type 0 → Type 0
Exec E A = World → Result E A × World

module _ {E A : Type 0} where
  abbrev pub pure : A → Exec E A
  pure a w = (ok a, w)

  -- an early `return`
  abbrev pub throw : E → Exec E A
  throw e w = (err e, w)

  abbrev pub settle : (DbError → E) → World → Result DbError (A × Database) → Result E A × World
  settle f w (ok (a, db)) = (ok a, record w { db = db })
  settle f w (err e) = (err (f e), w)

  abbrev pub call : (DbError → E) → Sql A → Database → List Bool → Result E A × World
  call f s db [] = settle f (record { db = db; outages = [] }) (s db)
  call f s db (true ∷ rest) = (err (f unavailable), record { db = db; outages = rest })
  call f s db (false ∷ rest) = settle f (record { db = db; outages = rest }) (s db)

  -- `.execute(&db).await`, `.fetch_all(&db).await`, with what the caller makes of an error
  unfoldable pub query : (DbError → E) → Sql A → Exec E A
  query f s w = call f s w.db w.outages

  -- a failing statement that the caller puts up with, as `let _ = …` and `.unwrap_or(…)` do
  abbrev pub or_default : A → Result E A × World → Result E A × World
  or_default a (ok b, w) = (ok b, w)
  or_default a (err e, w) = (ok a, w)

module _ {E A B : Type 0} where
  abbrev pub continue : Result E A → (A → Exec E B) → Exec E B
  continue (ok a) f w = f a w
  continue (err e) f w = (err e, w)

  infixl 5 ◌>>=◌ ◌>>◌
  unfoldable pub ◌>>=◌ : Exec E A → (A → Exec E B) → Exec E B
  ◌>>=◌ m f w = let (r, w') = m w in continue r f w'

  abbrev pub ◌>>◌ : Exec E A → Exec E B → Exec E B
  m >> n = m >>= λ _. n

abbrev pub nothing : Sql (Unit {0})
nothing db = ok (tt, db)

module _ {E A : Type 0} where
  -- A dropped transaction is rolled back.
  abbrev pub roll_back : Database → Result E A × World → Result E A × World
  roll_back db (ok a, w) = (ok a, w)
  roll_back db (err e, w) = (err e, record w { db = db })

  -- `pool.begin()`, the statements on `tx`, and `tx.commit()`; an early return drops `tx`.
  unfoldable pub transaction : (DbError → E) → Exec E A → Exec E A
  unfolding query ◌>>=◌
  transaction f body w = roll_back w.db ((do query f nothing; a ← body; query f nothing; pure a) w)

-- what `?` passes on
abbrev pub same_error : DbError → DbError
same_error e = e

-- `if !xs.is_empty() { … }`
abbrev pub unless_empty : {A : Type 0} → List A → Exec DbError (Unit {0}) → Exec DbError (Unit {0})
unless_empty [] m = pure tt
unless_empty (_ ∷ _) m = m
