-- ===== src/Api/Keys/Claim/Handed.antt =====
-- api/src/e2ee.rs: which one-time keys a claim hands out.
use invisible_backend.Postgres.Schema.{OneTimeKey, Uuid, Database}
use invisible_backend.Api.Keys.Claim.{
  chosen, order_by_device, insert_by_device, mark_consumed, consume_keys, is_open, is_chosen,
}
use invisible_backend.Prelude.{
  List, ℕ, ◌∷◌, any, ◌≡◌, retain, map, ◌⊎◌, ◌==◌, arith, true, false, Bool-cases, subst, nat_eq, [],
  inl, inr, refl, ◌∙◌, sym, In, In-retain, In-take, if◌then◌else◌,
}
use invisible_backend.Postgres.{ok}

-- the primary key of device_one_time_keys
abbrev pub UniqueIds : List OneTimeKey → Type 0
UniqueIds [] = Unit
UniqueIds (k ∷ ks) = (any (λ j. j.id == k.id) ks ≡ false) × UniqueIds ks

any-In : (k : OneTimeKey) (ks : List OneTimeKey) → In k ks → any (λ j. j.id == k.id) ks ≡ true
any-In k [] h = elim h [ ]
any-In k (j ∷ ks) h = ground (arith, any-In k ks)

-- Two rows with one id are one row.
pub UniqueIds-eq :
    (j k : OneTimeKey) (ks : List OneTimeKey)
    → UniqueIds ks
    → In j ks
    → In k ks
    → j.id ≡ k.id
    → j ≡ k
UniqueIds-eq j k [] u p q e = elim p [ ]
UniqueIds-eq j k (x ∷ ks) u (inl p) (inl q) e = p ∙ sym q
UniqueIds-eq j k (x ∷ ks) u (inl p) (inr q) e = ground (arith, any-In k ks)
UniqueIds-eq j k (x ∷ ks) u (inr p) (inl q) e = ground (arith, any-In j ks)
UniqueIds-eq j k (x ∷ ks) u (inr p) (inr q) e = UniqueIds-eq j k ks u.1 p q e

In-insert :
    (a k : OneTimeKey) (ks : List OneTimeKey) → In a (insert_by_device k ks) → (a ≡ k) ⊎ In a ks
unfolding insert_by_device
In-insert a k [] h = h
In-insert a k (j ∷ js) h = ground (arith, In-insert a k js)

pub In-order : (a : OneTimeKey) (ks : List OneTimeKey) → In a (order_by_device ks) → In a ks
unfolding order_by_device
In-order a [] h = h
In-order a (k ∷ ks) h = ground (arith, In-insert a k (order_by_device ks), In-order a ks)

pub is_chosen-In :
    (k : OneTimeKey) (js : List OneTimeKey)
    → is_chosen (map (λ j. j.id) js) k ≡ true
    → (j : OneTimeKey) × In j js × (j.id ≡ k.id)
is_chosen-In k [] h = cc
is_chosen-In k (j ∷ js) h = elim (Bool-cases (j.id == k.id)) [
  | inl e ↦ (j, inl refl, ground arith)
  | inr e ↦ let (i, p, q) = is_chosen-In k js (ground arith) in (i, inr p, q)
]

-- A chosen row was open.
chosen-is_open :
    (ids : List Uuid) (n : ℕ) (k : OneTimeKey) (ks : List OneTimeKey)
    → UniqueIds ks
    → In k ks
    → is_chosen (chosen ids n ks) k ≡ true
    → is_open ids k ≡ true
unfolding chosen
chosen-is_open ids n k ks u here h =
    let (j, p, e) = is_chosen-In k _ h in
    let (there, open_j) = In-retain j _ ks (In-order j _ (In-take j n _ p)) in
    subst (λ x. is_open ids x ≡ true) (UniqueIds-eq j k ks u there here e) open_j

abbrev pub marked : OneTimeKey → OneTimeKey
marked k = record k { consumed = true }

In-mark :
    (picked : List ℕ) (k : OneTimeKey) (ks : List OneTimeKey)
    → In k ks
    → is_chosen picked k ≡ true
    → In (marked k) (mark_consumed picked ks)
unfolding mark_consumed
In-mark picked k [] h c = elim h [ ]
In-mark picked k (j ∷ ks) (inl e) c =
    inl (subst (λ x. marked k ≡ (if is_chosen picked x then marked x else x)) e (rw c))
In-mark picked k (j ∷ ks) (inr h) c = inr (In-mark picked k ks h c)

-- A row of `before` that nobody had been given, and that `after` marks as given.
abbrev pub IsHandedOut : Database → Database → OneTimeKey → Type 0
IsHandedOut before after k =
    In k before.device_one_time_keys
    × (k.consumed ≡ false)
    × In (marked k) after.device_one_time_keys

-- The UPDATE of a claim returns only such rows.
pub consume_keys-IsHandedOut :
    (ids : List Uuid) (n : ℕ) (db db' : Database) (rows : List OneTimeKey) (k : OneTimeKey)
    → UniqueIds db.device_one_time_keys
    → consume_keys ids n db ≡ ok (rows, db')
    → In k rows
    → IsHandedOut db db' k
unfolding consume_keys
consume_keys-IsHandedOut ids n db db' rows k u e here =
    let picked = chosen ids n db.device_one_time_keys in
    let rows_eq : rows ≡ retain (is_chosen picked) db.device_one_time_keys = ground arith in
    let keys_eq : mark_consumed picked db.device_one_time_keys ≡ db'.device_one_time_keys =
      ground arith in
    let (there, c) = In-retain k (is_chosen picked) _ (subst (In k) rows_eq here) in
    let opened = chosen-is_open ids n k _ u there c in
    (there, ground arith, subst (In (marked k)) keys_eq (In-mark picked k _ there c))
