-- ===== src/Api/Keys.antt =====
-- api/src/e2ee.rs: the key bundles of the devices. A UUID is read by the parameter `parse_uuid` and
-- written by `format_uuid`. Where a SELECT gives no order, rows come as they stand in the table.
pub mod Validate
pub mod Accepts
pub mod Claim
pub mod Devices
pub mod Stock
pub mod Upload
use invisible_backend.Prelude.{
  ℕ, suc, String, false, ◌&&◌, List, [], ◌∷◌, Option, none, some, ◌+◌, nat_eq, string_eq,
  if◌then◌else◌,
}
use invisible_backend.Prelude.Int.{ℤ, int_eq}
use invisible_backend.Models.{Claims}
use invisible_backend.Postgres.{
  World, ok, err, Sql, Exec, query, ◌>>=◌, ◌>>◌, pure, throw, transaction, foreign_key_violation,
}
use invisible_backend.Postgres.Schema.{
  Uuid, IdentityKey, SignedPreKey, OneTimeKey, has_user, has_session,
}
use invisible_backend.Postgres.Tables.{upsert, insert_new, pair_eq}
use invisible_backend.Api.{Reply, text, respond, database_error, Check}
use Validate.{UploadKeysRequest, SignedPreKeyRequest, OneTimeKeyRequest, validate}

abbrev pub identity_owner : IdentityKey → String × Uuid
identity_owner k = (k.user_username, k.device_id)

abbrev pub pre_key_owner : SignedPreKey → String × Uuid
pre_key_owner k = (k.user_username, k.device_id)

abbrev pub one_time_owner : OneTimeKey → String × (Uuid × ℤ)
one_time_owner k = (k.user_username, (k.device_id, k.key_id))

-- INSERT INTO device_identity_keys … ON CONFLICT (user_username, device_id) DO UPDATE
unfoldable pub save_identity_key : IdentityKey → Sql (Unit {0})
save_identity_key row db =
    if has_user db row.user_username && has_session db row.device_id
    then ok
        (tt, record db { device_identity_keys = upsert identity_owner row db.device_identity_keys })
    else err foreign_key_violation

-- INSERT INTO device_signed_pre_keys … ON CONFLICT (user_username, device_id) DO UPDATE
unfoldable pub save_signed_pre_key : SignedPreKey → Sql (Unit {0})
save_signed_pre_key row db =
    if has_user db row.user_username && has_session db row.device_id
    then ok (
      tt,
      record db { device_signed_pre_keys = upsert pre_key_owner row db.device_signed_pre_keys },
    )
    else err foreign_key_violation

abbrev pub one_time_row : String → Uuid → OneTimeKeyRequest → ℕ → OneTimeKey
one_time_row username session_id otk id = record {
  id = id;
  user_username = username;
  device_id = session_id;
  key_id = otk.key_id;
  public_key = otk.public_key;
  consumed = false;
}

-- INSERT INTO device_one_time_keys … ON CONFLICT (user_username, device_id, key_id) DO NOTHING
unfoldable pub save_one_time_key : String → Uuid → OneTimeKeyRequest → Sql (Unit {0})
save_one_time_key username session_id otk db =
    if has_user db username && has_session db session_id
    then ok (
      tt,
      record db {
        device_one_time_keys =
            insert_new one_time_owner (one_time_row username session_id otk db.next_id)
              db.device_one_time_keys;
        next_id = db.next_id + 1;
      },
    )
    else err foreign_key_violation

-- `for otk in payload.one_time_keys { … }`
unfoldable pub save_one_time_keys :
    String → Uuid → List OneTimeKeyRequest → Exec (Reply (Unit {0})) (Unit {0})
save_one_time_keys username session_id [] = pure tt
save_one_time_keys username session_id (otk ∷ rest) = do
  query database_error (save_one_time_key username session_id otk)
  save_one_time_keys username session_id rest

abbrev pub identity_row : String → Uuid → UploadKeysRequest → IdentityKey
identity_row username session_id p = record {
  user_username = username;
  device_id = session_id;
  registration_id = p.registration_id;
  identity_key = p.identity_key;
}

abbrev pub pre_key_row : String → Uuid → SignedPreKeyRequest → SignedPreKey
pre_key_row username session_id k = record {
  user_username = username;
  device_id = session_id;
  key_id = k.key_id;
  public_key = k.public_key;
  signature = k.signature;
}

-- the statements between `begin` and `commit`
unfoldable pub save_bundle : String → Uuid → UploadKeysRequest → Exec (Reply (Unit {0})) (Unit {0})
save_bundle username session_id p = do
  query database_error (save_identity_key (identity_row username session_id p))
  query database_error (save_signed_pre_key (pre_key_row username session_id p.signed_pre_key))
  save_one_time_keys username session_id p.one_time_keys

abbrev pub lift : Check → Exec (Reply (Unit {0})) (Unit {0})
lift (ok a) = pure a
lift (err r) = throw r

module _ (parse_uuid : String → Option Uuid) (decode : String → Option (List ℕ)) where
  abbrev pub parse_session : String → Exec (Reply (Unit {0})) Uuid
  parse_session s = elim (parse_uuid s) [
    | some id ↦ pure id
    | none ↦ throw (text 400 "Invalid session ID")
  ]

  unfoldable pub upload_keys : Claims → UploadKeysRequest → World → Reply (Unit {0}) × World
  upload_keys user payload = respond (do
    lift (validate decode payload)
    session_id ← parse_session user.session_id
    transaction database_error (save_bundle user.sub session_id payload)
    pure (text 200 "Keys uploaded successfully"))
