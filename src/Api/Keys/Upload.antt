-- ===== src/Api/Keys/Upload.antt =====
-- api/src/e2ee.rs: what upload_keys leaves in the tables.
use invisible_backend.Prelude.{
  ℕ, String, ◌≡◌, ◌≢◌, inl, inr, List, [], ◌∷◌, Option-cases, nat_eq, string_eq, Option, arith, sym,
  ◌∙◌, ap, if◌then◌else◌, subst, some, ◌==◌,
}
use invisible_backend.Prelude.Int.{int_eq}
use invisible_backend.Models.{Claims}
use invisible_backend.Postgres.{World, Result, ◌>>=◌, transaction, ok, query}
use invisible_backend.Postgres.Rules.{
  transaction-err, Result-cases, bind-ok, query-ok, Fails, transaction-ok, Fails-pure, Fails-bind,
  Fails-query, Fails-transaction,
}
use invisible_backend.Postgres.Schema.{Database, Uuid, IdentityKey, SignedPreKey}
use invisible_backend.Postgres.Tables.{pair_eq, row_at, upsert, row_at-upsert}
use invisible_backend.Api.{Reply, text, database_error, IsRefusal, not-IsRefusal}
use invisible_backend.Api.Keys.Validate.{UploadKeysRequest, OneTimeKeyRequest, validate}
use invisible_backend.Api.Keys.{
  upload_keys, save_bundle, save_one_time_keys, one_time_owner, save_identity_key,
  save_signed_pre_key, identity_owner, pre_key_owner, identity_row, pre_key_row,
}
use invisible_backend.Api.Keys.Accepts.{IsBundle, validate-IsRefusal, validate_iff}
use invisible_backend.Api.Keys.Stock.{
  Extends, AddsKeys, save_one_time_keys-AddsKeys, Stocks, save_one_time_keys-Stocks, or_else, shown,
  offered,
}

-- The tables after a confirmed upload: the identity key and the signed pre key of the device are
-- replaced, those of all other devices stay, and one-time keys are only added, as not handed out: where
-- no key had the owner and number, the first one of the request that has them.
pub record IsPublished (name : String) (id : Uuid) (p : UploadKeysRequest) (d d' : Database)
    : Type 0 where
  pub identity :
      (who : String × Uuid)
      → row_at identity_owner who d'.device_identity_keys ≡ (
          if (name, id) == who
          then some (identity_row name id p)
          else row_at identity_owner who d.device_identity_keys)
  pub pre_key :
      (who : String × Uuid)
      → row_at pre_key_owner who d'.device_signed_pre_keys ≡ (
          if (name, id) == who
          then some (pre_key_row name id p.signed_pre_key)
          else row_at pre_key_owner who d.device_signed_pre_keys)
  pub one_time : Extends d.device_one_time_keys d'.device_one_time_keys
  pub stock : Stocks name id p.one_time_keys d d'

abbrev Replaced : String → Uuid → UploadKeysRequest → Database → Database → Type 0
Replaced name id p d d' =
    (d'.device_identity_keys
      ≡ upsert identity_owner (identity_row name id p) d.device_identity_keys)
    × (d'.device_signed_pre_keys
        ≡ upsert pre_key_owner (pre_key_row name id p.signed_pre_key) d.device_signed_pre_keys)
    × Extends d.device_one_time_keys d'.device_one_time_keys
    × Stocks name id p.one_time_keys d d'

identity_step :
    (row : IdentityKey) (d d' : Database) (u : Unit {0})
    → save_identity_key row d ≡ ok (u, d')
    → d' ≡ record d { device_identity_keys = upsert identity_owner row d.device_identity_keys }
unfolding save_identity_key
identity_step row d d' u h = ground arith

pre_key_step :
    (row : SignedPreKey) (d d' : Database) (u : Unit {0})
    → save_signed_pre_key row d ≡ ok (u, d')
    → d' ≡ record d { device_signed_pre_keys = upsert pre_key_owner row d.device_signed_pre_keys }
unfolding save_signed_pre_key
pre_key_step row d d' u h = ground arith

then-Replaced :
    (name : String) (id : Uuid) (p : UploadKeysRequest) (d d₁ d₂ d₃ : Database)
    → d₁ ≡ record d {
      device_identity_keys = upsert identity_owner (identity_row name id p) d.device_identity_keys;
    }
    → d₂ ≡ record d₁ {
      device_signed_pre_keys =
          upsert pre_key_owner (pre_key_row name id p.signed_pre_key) d₁.device_signed_pre_keys;
    }
    → AddsKeys d₂ d₃
    → Stocks name id p.one_time_keys d₂ d₃
    → Replaced name id p d d₃
then-Replaced name id p d d₁ d₂ d₃ e e' a s =
    let same : d₂.device_one_time_keys ≡ d.device_one_time_keys = ground arith in
    (
      ground arith,
      ground arith,
      subst (λ l. Extends l d₃.device_one_time_keys) same a.2,
      λ who.
          s who
          ∙ ap
              (λ l.
                or_else (shown (row_at one_time_owner who l)) (offered name id who p.one_time_keys))
              same,
    )

-- after the first statement of the transaction, and after the second
abbrev with_identity : String → Uuid → UploadKeysRequest → World → World
with_identity name id p v =
    (query (database_error {A = Unit {0}}) (save_identity_key (identity_row name id p)) v).1

abbrev with_pre_key : String → Uuid → UploadKeysRequest → World → World
with_pre_key name id p v =
    (query (database_error {A = Unit {0}})
      (save_signed_pre_key (pre_key_row name id p.signed_pre_key)) (with_identity name id p v)).1

save_bundle-Replaced :
    (name : String) (id : Uuid) (p : UploadKeysRequest) (v : World)
    → (save_bundle name id p v).0 ≡ ok tt
    → Replaced name id p v.db (save_bundle name id p v).1.db
unfolding save_bundle
save_bundle-Replaced name id p v h =
    let (a, one, rest, e) = bind-ok _ _ v tt h in
    let (b, two, rest', e') = bind-ok _ _ _ tt rest in
    subst (λ x. Replaced name id p v.db x.1.db) (sym (e ∙ e'))
      (then-Replaced name id p v.db (with_identity name id p v).db (with_pre_key name id p v).db
        (save_one_time_keys name id p.one_time_keys (with_pre_key name id p v)).1.db
        (identity_step _ _ _ _ (query-ok database_error _ v a one))
        (pre_key_step _ _ _ _ (query-ok database_error _ _ b two))
        ((save_one_time_keys-AddsKeys name id p.one_time_keys).at (with_pre_key name id p v))
        (save_one_time_keys-Stocks name id p.one_time_keys (with_pre_key name id p v) tt rest'))

Replaced-IsPublished :
    (name : String) (id : Uuid) (p : UploadKeysRequest) (d d' : Database)
    → Replaced name id p d d'
    → IsPublished name id p d d'
Replaced-IsPublished name id p d d' (i, k, o, s) = record {
  identity = λ who. rw i (row_at-upsert identity_owner (identity_row name id p) who _);
  pre_key = λ who. rw k (row_at-upsert pre_key_owner (pre_key_row name id p.signed_pre_key) who _);
  one_time = o;
  stock = s;
}

save_one_time_keys-Fails :
    (name : String) (id : Uuid) (ks : List OneTimeKeyRequest)
    → Fails IsRefusal (save_one_time_keys name id ks)
unfolding save_one_time_keys
save_one_time_keys-Fails name id [] = Fails-pure IsRefusal tt
save_one_time_keys-Fails name id (k ∷ ks) =
    Fails-bind IsRefusal _ _ (Fails-query IsRefusal _ _ (λ e. omega arith))
      (λ _. save_one_time_keys-Fails name id ks)

save_bundle-Fails :
    (name : String) (id : Uuid) (p : UploadKeysRequest) → Fails IsRefusal (save_bundle name id p)
unfolding save_bundle
save_bundle-Fails name id p =
    Fails-bind IsRefusal _ _ (Fails-query IsRefusal _ _ (λ e. omega arith)) λ _.
      Fails-bind IsRefusal _ _ (Fails-query IsRefusal _ _ (λ e. omega arith))
        (λ _. save_one_time_keys-Fails name id p.one_time_keys)

abbrev stored :
    Claims → UploadKeysRequest → Uuid → World → Result (Reply (Unit {0})) (Unit {0}) × World
stored user p id = transaction database_error (save_bundle user.sub id p)

stored-IsPublished :
    (user : Claims) (p : UploadKeysRequest) (id : Uuid) (w : World)
    → (stored user p id w).0 ≡ ok tt
    → IsPublished user.sub id p w.db (stored user p id w).1.db
stored-IsPublished user p id w done =
    let (v, before, ran, after) =
      transaction-ok database_error (save_bundle user.sub id p) w tt done in
    subst (λ d. IsPublished user.sub id p d (stored user p id w).1.db) before
      (subst (IsPublished user.sub id p v.db) after
        (Replaced-IsPublished user.sub id p v.db _ (save_bundle-Replaced user.sub id p v ran)))

module _ (parse_uuid : String → Option Uuid) (decode : String → Option (List ℕ)) where
  -- An upload that is not confirmed has changed no table: not when a check refuses it, and not when
  -- the server fails at any statement of the transaction or at its commit.
  pub upload_keys_atomic :
      (user : Claims) (p : UploadKeysRequest) (w : World)
      → (upload_keys parse_uuid decode user p w).0 ≢ text 200 "Keys uploaded successfully"
      → (upload_keys parse_uuid decode user p w).1.db ≡ w.db
  unfolding upload_keys ◌>>=◌
  upload_keys_atomic user p w h = elim (Result-cases (validate decode p)) [
    | inr (r, refused) ↦ ground arith
    | inl (_, passed) ↦ elim (Option-cases (parse_uuid user.session_id)) [
      | inl unread ↦ ground arith
      | inr (id, read) ↦ elim (Result-cases (stored user p id w).0) [
        | inr (r, failed) ↦
            ground (arith, transaction-err database_error (save_bundle user.sub id p) w r failed)
        | inl (_, done) ↦ absurd (h (ground arith))
      ]
    ]
  ]

  -- A confirmed upload has passed every check, and has put the bundle under the user of the token and
  -- the device that its session id names: the identity key and the signed pre key are replaced, those
  -- of other devices stay, and a one-time key of the request is added where its number was free.
  pub upload_keys-IsPublished :
      (user : Claims) (p : UploadKeysRequest) (w : World)
      → (upload_keys parse_uuid decode user p w).0 ≡ text 200 "Keys uploaded successfully"
      → (id : Uuid) × (parse_uuid user.session_id ≡ some id)
        × IsBundle decode p
        × IsPublished user.sub id p w.db (upload_keys parse_uuid decode user p w).1.db
  unfolding upload_keys ◌>>=◌
  upload_keys-IsPublished user p w h = elim (Result-cases (validate decode p)) [
    | inr (r, refused) ↦ absurd (
        not-IsRefusal r 200 "Keys uploaded successfully" (ground arith) (omega arith)
          (validate-IsRefusal decode p r refused))
    | inl (_, passed) ↦ elim (Option-cases (parse_uuid user.session_id)) [
      | inl unread ↦ absurd (ground arith)
      | inr (id, read) ↦ elim (Result-cases (stored user p id w).0) [
        | inr (r, failed) ↦ absurd (
            not-IsRefusal r 200 "Keys uploaded successfully" (ground arith) (omega arith) (
              (Fails-transaction IsRefusal database_error _ (λ e. omega arith)
                  (save_bundle-Fails user.sub id p)).at
                w r failed))
        | inl (_, done) ↦ (
          id,
          read,
          (validate_iff decode p).0 passed,
          subst (IsPublished user.sub id p w.db) (ground arith)
              (stored-IsPublished user p id w done),
        )
      ]
    ]
  ]
