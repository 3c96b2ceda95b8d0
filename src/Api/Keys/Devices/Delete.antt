-- ===== src/Api/Keys/Devices/Delete.antt =====
-- api/src/e2ee.rs: what delete_device removes.
use invisible_backend.Postgres.{query, ◌>>=◌, World}
use invisible_backend.Postgres.Schema.{Database, Session, Uuid}
use invisible_backend.Api.{text}
use invisible_backend.Api.Keys.Devices.{
  delete_device, select_owned, delete_session, cascade, is_owned,
}
use invisible_backend.Prelude.{
  Bool, ◌==◌, String, List, ◌≡◌, any, retain, true, false, not, find, ◌≢◌, ◌∷◌, arith, ◌&&◌, nat_eq,
  some, Option-cases, [], inl, inr, refl, subst, ◌⊎◌, sym,
}
use invisible_backend.Models.{Claims}

any-retain :
    {A : Type 0} (p q : A → Bool) (xs : List A)
    → ((x : A) → p x ≡ true → q x ≡ false)
    → any p (retain q xs) ≡ false
any-retain p q [] h = refl
any-retain p q (x ∷ xs) h = ground (arith, h x, any-retain p q xs h)

find-retain :
    {A : Type 0} (p q : A → Bool) (xs : List A)
    → ((x : A) → p x ≡ true → q x ≡ true)
    → find p (retain q xs) ≡ find p xs
find-retain p q [] h = refl
find-retain p q (x ∷ xs) h = ground (arith, h x, find-retain p q xs h)

retain-retain :
    {A : Type 0} (p q : A → Bool) (xs : List A)
    → ((x : A) → p x ≡ true → q x ≡ true)
    → retain p (retain q xs) ≡ retain p xs
retain-retain p q [] h = refl
retain-retain p q (x ∷ xs) h = ground (arith, h x, retain-retain p q xs h)

not_kept : (x id : Uuid) → (x == id) ≡ true → not (x == id) ≡ false
not_kept x id h = ground arith

-- Nothing of the device is left: no session of the user under its id, and no key of any kind.
pub record IsGone (id : Uuid) (username : String) (db : Database) : Type 0 where
  pub session : any (is_owned id username) db.sessions ≡ false
  pub identity : any (λ k. k.device_id == id) db.device_identity_keys ≡ false
  pub pre_key : any (λ k. k.device_id == id) db.device_signed_pre_keys ≡ false
  pub one_time : any (λ k. k.device_id == id) db.device_one_time_keys ≡ false

-- the tables after the DELETE of an owned session
abbrev removed : Uuid → String → Database → Database
removed id username db =
    cascade id (record db { sessions = retain (λ s. not (is_owned id username s)) db.sessions })

deleted-IsGone :
    (id : Uuid) (username : String) (db : Database) → IsGone id username (removed id username db)
unfolding cascade
deleted-IsGone id username db = record {
  session = any-retain _ _ db.sessions (λ s h. ground arith);
  identity = any-retain _ _ db.device_identity_keys (λ k h. not_kept k.device_id id h);
  pre_key = any-retain _ _ db.device_signed_pre_keys (λ k h. not_kept k.device_id id h);
  one_time = any-retain _ _ db.device_one_time_keys (λ k h. not_kept k.device_id id h);
}

-- A confirmed deletion was of a valid session of the user of the token, and leaves neither the
-- session nor any key of the device.
pub delete_device-IsGone :
    (user : Claims) (id : Uuid) (w : World)
    → (delete_device user id w).0 ≡ text 200 "Device deleted successfully"
    → ((s : Session) × (find (λ t. is_owned id user.sub t && t.is_valid) w.db.sessions ≡ some s)
        × IsGone id user.sub (delete_device user id w).1.db)
unfolding delete_device select_owned delete_session query ◌>>=◌
delete_device-IsGone user id w h =
    elim (Option-cases (find (λ t. is_owned id user.sub t && t.is_valid) w.db.sessions)) [
      | inl missing ↦ absurd (ground arith)
      | inr (s, found) ↦
          (s, found, subst (IsGone id user.sub) (ground arith) (deleted-IsGone id user.sub w.db))
    ]

-- What belongs to a device stays.
abbrev pub KeepsDevice : Uuid → Database → Database → Type 0
KeepsDevice other d d' =
    (find (λ s. s.id == other) d'.sessions ≡ find (λ s. s.id == other) d.sessions)
    × (find (λ k. k.device_id == other) d'.device_identity_keys
        ≡ find (λ k. k.device_id == other) d.device_identity_keys)
    × (find (λ k. k.device_id == other) d'.device_signed_pre_keys
        ≡ find (λ k. k.device_id == other) d.device_signed_pre_keys)
    × (retain (λ k. k.device_id == other) d'.device_one_time_keys
        ≡ retain (λ k. k.device_id == other) d.device_one_time_keys)

other_kept : (x id other : Uuid) → other ≢ id → (x == other) ≡ true → not (x == id) ≡ true
other_kept x id other ne h = ground arith

removed-KeepsDevice :
    (id other : Uuid) (username : String) (db : Database)
    → other ≢ id
    → KeepsDevice other db (removed id username db)
unfolding cascade
removed-KeepsDevice id other username db ne = (
  find-retain _ _ db.sessions (λ s h. ground arith),
  find-retain _ _ db.device_identity_keys (λ k h. other_kept k.device_id id other ne h),
  find-retain _ _ db.device_signed_pre_keys (λ k h. other_kept k.device_id id other ne h),
  retain-retain _ _ db.device_one_time_keys (λ k h. other_kept k.device_id id other ne h),
)

delete_device-db :
    (user : Claims) (id : Uuid) (w : World)
    → ((delete_device user id w).1.db ≡ w.db)
      ⊎ ((delete_device user id w).1.db ≡ removed id user.sub w.db)
unfolding delete_device select_owned delete_session query ◌>>=◌
delete_device-db user id w = ground arith

-- Whatever the answer, every other device keeps its session, its identity key, its signed pre key
-- and its one-time keys.
pub delete_device-KeepsDevice :
    (user : Claims) (id other : Uuid) (w : World)
    → other ≢ id
    → KeepsDevice other w.db (delete_device user id w).1.db
delete_device-KeepsDevice user id other w ne = elim (delete_device-db user id w) [
  | inl same ↦ subst (KeepsDevice other w.db) (sym same) (refl, refl, refl, refl)
  | inr gone ↦
      subst (KeepsDevice other w.db) (sym gone) (removed-KeepsDevice id other user.sub w.db ne)
]
