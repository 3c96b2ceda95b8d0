-- ===== src/Api/Keys/Stock.antt =====
-- api/src/e2ee.rs: the loop of upload_keys over the one-time keys.
use invisible_backend.Prelude.{
  [], ◌∷◌, inl, inr, none, some, true, false, refl, if◌then◌else◌, ◌==◌, ◌≡◌, ◌++◌, List, Option,
  String, ◌∙◌, All, sym, ap, Bool, append-nil, append_assoc, Bool-cases, arith, string_eq, nat_eq,
  subst, Option-cases,
}
use invisible_backend.Postgres.{ok, World, query}
use invisible_backend.Postgres.Schema.{Database, OneTimeKey, Uuid}
use invisible_backend.Postgres.Tables.{
  insert_new, row_at, has_row, pair_eq, row_at-insert_new, row_at-none,
}
use invisible_backend.Api.Keys.{save_one_time_keys, save_one_time_key, one_time_owner, one_time_row}
use invisible_backend.Api.Keys.Validate.{OneTimeKeyRequest}
use invisible_backend.Prelude.Int.{ℤ, int_eq}
use invisible_backend.Postgres.Rules.{
  Relates, Relates-pure, Relates-bind, Relates-query, bind-ok, query-ok,
}
use invisible_backend.Api.{database_error}

-- The rows of `t` come after those of `s`, and none of them is marked as handed out.
abbrev pub Extends : List OneTimeKey → List OneTimeKey → Type 0
Extends s t = (new : List OneTimeKey) × (t ≡ s ++ new) × All (λ k. k.consumed ≡ false) new

Extends-refl : (s : List OneTimeKey) → Extends s s
Extends-refl s = ([], sym (append-nil s), tt)

All-append :
    (xs ys : List OneTimeKey)
    → All (λ k. k.consumed ≡ false) xs
    → All (λ k. k.consumed ≡ false) ys
    → All (λ k. k.consumed ≡ false) (xs ++ ys)
All-append [] ys p q = q
All-append (x ∷ xs) ys p q = (p.0, All-append xs ys p.1 q)

Extends-trans : (s t u : List OneTimeKey) → Extends s t → Extends t u → Extends s u
Extends-trans s t u (a, p, ha) (b, q, hb) =
    (a ++ b, q ∙ ap (λ l. l ++ b) p ∙ append_assoc s a b, All-append a b ha hb)

-- What the loop over the one-time keys may change.
abbrev pub AddsKeys : Database → Database → Type 0
AddsKeys d d' =
    (d'.device_identity_keys ≡ d.device_identity_keys)
    × (d'.device_signed_pre_keys ≡ d.device_signed_pre_keys)
    × Extends d.device_one_time_keys d'.device_one_time_keys

AddsKeys-refl : (d : Database) → AddsKeys d d
AddsKeys-refl d = (refl, refl, Extends-refl _)

AddsKeys-trans : (a b c : Database) → AddsKeys a b → AddsKeys b c → AddsKeys a c
AddsKeys-trans a b c p q = (q.0 ∙ p.0, q.1 ∙ p.1, Extends-trans _ _ _ p.2 q.2)

insert_new-Extends :
    (k : OneTimeKey) (s : List OneTimeKey)
    → k.consumed ≡ false
    → Extends s (insert_new one_time_owner k s)
unfolding insert_new
insert_new-Extends k s h = elim (Bool-cases (has_row one_time_owner (one_time_owner k) s)) [
  | inl old ↦ rw old (Extends-refl s)
  | inr new ↦ rw new (k ∷ [], refl, (h, tt))
]

pub save_one_time_keys-AddsKeys :
    (name : String) (id : Uuid) (ks : List OneTimeKeyRequest)
    → Relates AddsKeys (save_one_time_keys name id ks)
unfolding save_one_time_keys save_one_time_key
save_one_time_keys-AddsKeys name id [] = Relates-pure AddsKeys AddsKeys-refl tt
save_one_time_keys-AddsKeys name id (k ∷ ks) =
    Relates-bind AddsKeys AddsKeys-trans _ _
      (Relates-query AddsKeys AddsKeys-refl _ _ (λ d d' a h.
        let new =
          insert_new-Extends (one_time_row name id k d.next_id) d.device_one_time_keys refl in
        ground arith))
      (λ _. save_one_time_keys-AddsKeys name id ks)

-- What the other devices can get of a one-time key: its public part, and whether it was handed out.
abbrev pub shown : Option OneTimeKey → Option (String × Bool)
shown none = none
shown (some k) = some (k.public_key, k.consumed)

abbrev pub key_at : String × (Uuid × ℤ) → Database → Option (String × Bool)
key_at who d = shown (row_at one_time_owner who d.device_one_time_keys)

-- the first key of the request with a given owner and number
abbrev pub offered :
    String → Uuid → String × (Uuid × ℤ) → List OneTimeKeyRequest → Option (String × Bool)
offered name id who [] = none
offered name id who (k ∷ ks) =
    if (name, (id, k.key_id)) == who then some (k.public_key, false) else offered name id who ks

abbrev pub or_else {ℓ} : {A : Type ℓ} → Option A → Option A → Option A
or_else none b = b
or_else (some a) b = some a

-- A key that is there stays, and the others come from the request.
abbrev pub Stocks : String → Uuid → List OneTimeKeyRequest → Database → Database → Type 0
Stocks name id ks d d' =
    (who : String × (Uuid × ℤ)) → key_at who d' ≡ or_else (key_at who d) (offered name id who ks)

row_at-some :
    (who : String × (Uuid × ℤ)) (s : List OneTimeKey)
    → has_row one_time_owner who s ≡ true
    → (k : OneTimeKey) × (row_at one_time_owner who s ≡ some k)
row_at-some who [] h = absurd (ground arith)
row_at-some who (k ∷ s) h = elim (Bool-cases (one_time_owner k == who)) [
  | inl here ↦ (k, ground arith)
  | inr later ↦ let (j, e) = row_at-some who s (ground arith) in (j, ground arith)
]

save_one_time_key-Stocks :
    (name : String) (id : Uuid) (k : OneTimeKeyRequest) (d d' : Database) (u : Unit {0})
    → save_one_time_key name id k d ≡ ok (u, d')
    → Stocks name id (k ∷ []) d d'
unfolding save_one_time_key
save_one_time_key-Stocks name id k d d' u h who =
    let row = one_time_row name id k d.next_id in
    let keys = d.device_one_time_keys in
    let after : d'.device_one_time_keys ≡ insert_new one_time_owner row keys = ground arith in
    let found = row_at-insert_new one_time_owner row who keys in
    elim (Bool-cases (has_row one_time_owner who keys)) [
      | inr absent ↦ rw (after, found) (ground (arith, row_at-none one_time_owner who keys absent))
      | inl there ↦ let (j, e) = row_at-some who keys there in rw (after, found) (ground (arith, e))
    ]

pub save_one_time_keys-Stocks :
    (name : String) (id : Uuid) (ks : List OneTimeKeyRequest) (w : World) (u : Unit {0})
    → (save_one_time_keys name id ks w).0 ≡ ok u
    → Stocks name id ks w.db (save_one_time_keys name id ks w).1.db
unfolding save_one_time_keys
save_one_time_keys-Stocks name id [] w u h who = ground arith
save_one_time_keys-Stocks name id (k ∷ ks) w u h who =
    let first = query (database_error {A = Unit {0}}) (save_one_time_key name id k) in
    let (a, one, rest, e) = bind-ok first (λ _. save_one_time_keys name id ks) w u h in
    let d₁ = (first w).1.db in
    let step =
      save_one_time_key-Stocks name id k w.db d₁ a (query-ok database_error _ w a one) who in
    let later = save_one_time_keys-Stocks name id ks (first w).1 u rest who in
    subst (λ x. key_at who x.1.db ≡ or_else (key_at who w.db) (offered name id who (k ∷ ks)))
      (sym e)
      (elim (Option-cases (key_at who w.db)) [
        | inl absent ↦ ground (arith, step, later)
        | inr (x, there) ↦ ground (arith, step, later)
      ])
