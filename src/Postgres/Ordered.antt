-- ===== src/Postgres/Ordered.antt =====
-- ORDER BY and LIMIT, as the SQL texts of the services use them: rows that the order leaves open stay
-- in the order of the table.
use invisible_backend.Prelude.{
  zero, ℕ, Bool, true, false, List, [], ◌∷◌, ◌++◌, take, drop, length, count, retain, All, ◌≡◌, ◌≤◌,
  ◌⊎◌, inl, inr, refl, arith, if◌then◌else◌, Bool-cases, suc, take-append-drop, length-take-le, In,
  subst,
}
use invisible_backend.Prelude.Int.{ℤ, pos, negsuc}
use invisible_backend.Postgres.{DbError, Result, ok, err, negative_limit}

module _ {A : Type 0} where
  module _ (before : A → A → Bool) where
    abbrev pub insert_by : A → List A → List A
    insert_by m [] = m ∷ []
    insert_by m (n ∷ ns) = if before m n then m ∷ n ∷ ns else n ∷ insert_by m ns

    unfoldable pub order_by : List A → List A
    order_by [] = []
    order_by (m ∷ ms) = insert_by m (order_by ms)

  -- LIMIT n
  unfoldable pub limited : ℤ → List A → Result DbError (List A)
  limited (pos n) rows = ok (take n rows)
  limited (negsuc n) rows = err negative_limit

  abbrev pub IsOrdered : (A → A → Bool) → List A → Type 0
  IsOrdered before [] = Unit
  IsOrdered before (m ∷ ms) = All (λ n. before m n ≡ true) ms × IsOrdered before ms

  -- The first `n` of the rows that match, in an order: those left out come after them, and there are
  -- some only where the page is full.
  pub record IsPage (before : A → A → Bool) (matches : A → Bool) (n : ℕ) (all page : List A)
      : Type 0 where
    pub rest : List A
    pub same : (p : A → Bool) → count p (page ++ rest) ≡ count p (retain matches all)
    pub ordered : IsOrdered before (page ++ rest)
    pub few : length page ≤ n
    pub full : (length page ≡ n) ⊎ (rest ≡ [])

  -- An order whose rows can all be compared.
  pub record IsOrder (before : A → A → Bool) : Type 0 where
    pub total : (a b : A) → before a b ≡ false → before b a ≡ true
    pub trans : (a b c : A) → before a b ≡ true → before b c ≡ true → before a c ≡ true

  count-insert_by :
      (before : A → A → Bool) (p : A → Bool) (m : A) (ms : List A)
      → count p (insert_by before m ms) ≡ count p (m ∷ ms)
  count-insert_by before p m [] = refl
  count-insert_by before p m (n ∷ ns) = ground (arith, count-insert_by before p m ns)

  pub count-order_by :
      (before : A → A → Bool) (p : A → Bool) (ms : List A)
      → count p (order_by before ms) ≡ count p ms
  unfolding order_by
  count-order_by before p [] = refl
  count-order_by before p (m ∷ ms) =
      ground (arith, count-insert_by before p m (order_by before ms), count-order_by before p ms)

  In-insert_by :
      (before : A → A → Bool) (a m : A) (ms : List A)
      → In a (insert_by before m ms)
      → (a ≡ m) ⊎ In a ms
  In-insert_by before a m [] h = h
  In-insert_by before a m (n ∷ ns) h = elim (Bool-cases (before m n)) [
    | inl first ↦ subst (In a) {x = insert_by before m (n ∷ ns)} {y = m ∷ n ∷ ns} (ground arith) h
    | inr after ↦
        elim (subst (In a) {x = insert_by before m (n ∷ ns)} {y = n ∷ insert_by before m ns}
          (ground arith) h) [
            | inl here ↦ inr (inl here)
            | inr there ↦ elim (In-insert_by before a m ns there) [
              | inl new ↦ inl new
              | inr old ↦ inr (inr old)
            ]
          ]
  ]

  insert_by-In :
      (before : A → A → Bool) (a m : A) (ms : List A)
      → (a ≡ m) ⊎ In a ms
      → In a (insert_by before m ms)
  insert_by-In before a m [] h = h
  insert_by-In before a m (n ∷ ns) h = elim (Bool-cases (before m n)) [
    | inl first ↦ rw first h
    | inr after ↦ rw after (elim h [
      | inl new ↦ inr (insert_by-In before a m ns (inl new))
      | inr (inl here) ↦ inl here
      | inr (inr there) ↦ inr (insert_by-In before a m ns (inr there))
    ])
  ]

  pub In-order_by :
      (before : A → A → Bool) (a : A) (ms : List A) → In a (order_by before ms) → In a ms
  unfolding order_by
  In-order_by before a [] h = h
  In-order_by before a (m ∷ ms) h = elim (In-insert_by before a m (order_by before ms) h) [
    | inl here ↦ inl here
    | inr there ↦ inr (In-order_by before a ms there)
  ]

  pub order_by-In :
      (before : A → A → Bool) (a : A) (ms : List A) → In a ms → In a (order_by before ms)
  unfolding order_by
  order_by-In before a [] h = h
  order_by-In before a (m ∷ ms) (inl here) = insert_by-In before a m (order_by before ms) (inl here)
  order_by-In before a (m ∷ ms) (inr there) =
      insert_by-In before a m (order_by before ms) (inr (order_by-In before a ms there))

  full-take : (n : ℕ) (xs : List A) → (length (take n xs) ≡ n) ⊎ (drop n xs ≡ [])
  full-take zero xs = inl refl
  full-take (suc n) [] = inr refl
  full-take (suc n) (x ∷ xs) = elim (full-take n xs) [
    | inl enough ↦ inl (omega (arith, enough))
    | inr none_left ↦ inr none_left
  ]

  module _ (before : A → A → Bool) (order : IsOrder before) where
    insert_by-All :
        (k m : A) (ms : List A)
        → before k m ≡ true
        → All (λ n. before k n ≡ true) ms
        → All (λ n. before k n ≡ true) (insert_by before m ms)
    insert_by-All k m [] h a = (h, tt)
    insert_by-All k m (n ∷ ns) h a = elim (Bool-cases (before m n)) [
      | inl first ↦ rw first (h, a)
      | inr after ↦ rw after (a.0, insert_by-All k m ns h a.1)
    ]

    All-before :
        (j k : A) (ms : List A)
        → before j k ≡ true
        → All (λ n. before k n ≡ true) ms
        → All (λ n. before j n ≡ true) ms
    All-before j k [] h a = tt
    All-before j k (m ∷ ms) h a = (order.trans j k m h a.0, All-before j k ms h a.1)

    insert_by-IsOrdered :
        (m : A) (ms : List A) → IsOrdered before ms → IsOrdered before (insert_by before m ms)
    insert_by-IsOrdered m [] h = (tt, tt)
    insert_by-IsOrdered m (n ∷ ns) h = elim (Bool-cases (before m n)) [
      | inl first ↦ rw first ((first, All-before m n ns first h.0), h)
      | inr after ↦
          rw after (insert_by-All n m ns (order.total m n after) h.0, insert_by-IsOrdered m ns h.1)
    ]

    pub order_by-IsOrdered : (ms : List A) → IsOrdered before (order_by before ms)
    unfolding order_by
    order_by-IsOrdered [] = tt
    order_by-IsOrdered (m ∷ ms) = insert_by-IsOrdered m (order_by before ms) (order_by-IsOrdered ms)

    -- ORDER BY with LIMIT gives a page.
    pub limited-IsPage :
        (matches : A → Bool) (n : ℕ) (all : List A)
        → IsPage before matches n all (take n (order_by before (retain matches all)))
    limited-IsPage matches n all =
        let rows = order_by before (retain matches all) in
        record {
          rest = drop n rows;
          same = λ p. rw (take-append-drop n rows) (count-order_by before p (retain matches all));
          ordered = rw (take-append-drop n rows) (order_by-IsOrdered (retain matches all));
          few = length-take-le n rows;
          full = full-take n rows;
        }
