-- ===== src/Postgres/Tables.antt =====
-- INSERT … ON CONFLICT and DELETE on a table with a unique key, as the SQL texts of the services use
-- them. A new row goes to the end of the table.
use invisible_backend.Prelude.{
  ℕ, ◌+◌, Bool, true, false, not, ◌&&◌, List, [], ◌∷◌, ◌++◌, Option, none, some, ◌≡◌, refl, ◌↔◌,
  arith, Eq, ◌==◌, eq_of_==, if◌then◌else◌, find, count, any, and-eq-true_iff, ap,
}

module _ {A B : Type 0} ⦃e : Eq A⦄ ⦃d : Eq B⦄ where
  unfoldable pub pair_beq : A × B → A × B → Bool
  pair_beq p q = (p.0 == q.0) && (p.1 == q.1)

  pub pair_beq_iff : (p q : A × B) → (pair_beq p q ≡ true) ↔ (p ≡ q)
  unfolding pair_beq
  pair_beq_iff p q = (
    (λ h. λ i. (
      eq_of_== p.0 q.0 ((and-eq-true_iff _ _).0 h).0 i,
      eq_of_== p.1 q.1 ((and-eq-true_iff _ _).0 h).1 i,
    )),
    λ h.
        (and-eq-true_iff _ _).1
          ((e.beq_iff p.0 q.0).1 (λ i. (h i).0), (d.beq_iff p.1 q.1).1 (λ i. (h i).1)),
  )

-- A key of several columns.
instance abbrev pub pair_eq : {A B : Type 0} ⦃e : Eq A⦄ ⦃d : Eq B⦄ → Eq (A × B)
pair_eq = record { beq = pair_beq; beq_iff = pair_beq_iff }

module _ {A K : Type 0} ⦃e : Eq K⦄ (key : A → K) where
  -- the rows with a key: SELECT … WHERE key = k
  abbrev pub row_at : K → List A → Option A
  row_at k = find (λ r. key r == k)

  -- INSERT … ON CONFLICT (key) DO UPDATE SET every other column = EXCLUDED
  unfoldable pub upsert : A → List A → List A
  upsert row [] = row ∷ []
  upsert row (r ∷ rs) = if key r == key row then row ∷ rs else r ∷ upsert row rs

  -- INSERT … ON CONFLICT (key) DO NOTHING
  unfoldable pub insert_new : A → List A → List A
  insert_new row rs = if any (λ r. key r == key row) rs then rs else rs ++ row ∷ []

  pub row_at-upsert :
      (row : A) (k : K) (rs : List A)
      → row_at k (upsert row rs) ≡ (if key row == k then some row else row_at k rs)
  unfolding upsert
  row_at-upsert row k [] = refl
  row_at-upsert row k (r ∷ rs) = ground (
    arith,
    e.beq_iff (key r) (key row),
    e.beq_iff (key r) k,
    e.beq_iff (key row) k,
    row_at-upsert row k rs,
  )

  pub row_at-append :
      (k : K) (rs ts : List A)
      → row_at k (rs ++ ts) ≡ (if any (λ r. key r == k) rs then row_at k rs else row_at k ts)
  row_at-append k [] ts = refl
  row_at-append k (r ∷ rs) ts = ground (arith, row_at-append k rs ts)

  abbrev pub has_row : K → List A → Bool
  has_row k = any (λ r. key r == k)

  pub row_at-none : (k : K) (rs : List A) → has_row k rs ≡ false → row_at k rs ≡ none
  row_at-none k [] h = refl
  row_at-none k (r ∷ rs) h = ground (arith, row_at-none k rs)

  pub row_at-insert_new :
      (row : A) (k : K) (rs : List A)
      → row_at k (insert_new row rs)
        ≡ (if has_row k rs then row_at k rs else if key row == k then some row else none)
  unfolding insert_new
  row_at-insert_new row k rs = ground (
    arith,
    e.beq_iff (key row) k,
    row_at-append k rs (row ∷ []),
    row_at-none k rs,
    λ (p : key row ≡ k). ap (λ j. has_row j rs) p,
  )

  -- how many rows share a key
  abbrev pub rows_at : K → List A → ℕ
  rows_at k = count (λ r. key r == k)

  pub rows_at-upsert :
      (row : A) (k : K) (rs : List A)
      → rows_at k (upsert row rs)
        ≡ (if key row == k && not (any (λ r. key r == k) rs) then 1 else 0) + rows_at k rs
  unfolding upsert
  rows_at-upsert row k [] = ground arith
  rows_at-upsert row k (r ∷ rs) = ground (
    arith,
    e.beq_iff (key r) (key row),
    e.beq_iff (key r) k,
    e.beq_iff (key row) k,
    rows_at-upsert row k rs,
  )
