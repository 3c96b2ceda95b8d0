-- ===== src/Tests/Keys.antt =====
-- api/src/e2ee.rs on the sample data.
use invisible_backend.Prelude.{
  ◌≡◌, refl, some, ◌↔◌, arith, [], ◌∷◌, true, false, ◌&&◌, ℕ, find, ◌≢◌,
}
use invisible_backend.Prelude.Int.{pos}
use invisible_backend.Postgres.{query, transaction, ◌>>=◌, World, ok}
use invisible_backend.Postgres.Schema.{has_session, has_user, Session}
use invisible_backend.Api.{text, not-IsRefusal}
use invisible_backend.Api.Keys.{
  upload_keys, save_bundle, save_one_time_keys, save_one_time_key, save_identity_key,
  save_signed_pre_key,
}
use invisible_backend.Api.Keys.Validate.{
  UploadKeysRequest, validate, check_key, check_one_time_keys, validate_base64_key,
}
use invisible_backend.Api.Keys.Accepts.{IsBundle, validate_iff}
use invisible_backend.Api.Keys.Upload.{IsPublished, upload_keys_atomic, upload_keys-IsPublished}
use invisible_backend.Api.Keys.Devices.{
  delete_device, select_owned, delete_session, cascade, is_owned,
}
use invisible_backend.Api.Keys.Devices.Delete.{
  IsGone, KeepsDevice, delete_device-IsGone, delete_device-KeepsDevice,
}
use invisible_backend.Tests.{alice, sample, parse_uuid, decode}

abbrev bundle : UploadKeysRequest
bundle = record {
  identity_key = "k32";
  registration_id = pos 5;
  signed_pre_key = record { key_id = pos 1; public_key = "k32"; signature = "k64" };
  one_time_keys =
      record { key_id = pos 1; public_key = "k32" }
      ∷ record { key_id = pos 2; public_key = "k32" }
      ∷ [];
}

-- The signature is too short.
abbrev bad_bundle : UploadKeysRequest
bad_bundle = record bundle {
  signed_pre_key = record { key_id = pos 1; public_key = "k32"; signature = "k32" };
}

validate_iff_example : (validate decode bundle ≡ ok tt) ↔ IsBundle decode bundle
validate_iff_example = validate_iff decode bundle

-- The server fails at the third one-time statement, after four that have run.
abbrev failing : World
failing = record sample { outages = false ∷ false ∷ false ∷ false ∷ true ∷ [] }

-- That run is no success.
failing_refused :
    (upload_keys parse_uuid decode alice bundle failing).0 ≢ text 200 "Keys uploaded successfully"
unfolding upload_keys validate ◌>>=◌ check_key check_one_time_keys transaction save_bundle
    save_identity_key has_user has_session save_signed_pre_key save_one_time_keys save_one_time_key
failing_refused h = not-IsRefusal _ 200 "Keys uploaded successfully" h (omega arith) (omega arith)

upload_keys_atomic_example : (upload_keys parse_uuid decode alice bundle failing).1.db ≡ failing.db
unfolding upload_keys validate check_key validate_base64_key check_one_time_keys save_bundle
    save_one_time_keys save_one_time_key save_identity_key save_signed_pre_key
upload_keys_atomic_example =
    upload_keys_atomic parse_uuid decode alice bundle failing (λ h. failing_refused h)

abbrev uploaded : World
uploaded = (upload_keys parse_uuid decode alice bundle sample).1

upload_keys-IsPublished_example :
    (id : ℕ) × (parse_uuid "one" ≡ some id)
    × IsBundle decode bundle
    × IsPublished "alice" id bundle sample.db uploaded.db
unfolding upload_keys validate check_key validate_base64_key check_one_time_keys save_bundle
    save_one_time_keys save_one_time_key save_identity_key save_signed_pre_key ◌>>=◌ transaction
    has_user has_session
upload_keys-IsPublished_example = upload_keys-IsPublished parse_uuid decode alice bundle sample refl

delete_device-IsGone_example :
    (s : Session) × (find (λ t. is_owned 1 "alice" t && t.is_valid) uploaded.db.sessions ≡ some s)
    × IsGone 1 "alice" (delete_device alice 1 uploaded).1.db
unfolding delete_device select_owned delete_session cascade upload_keys validate check_key
    validate_base64_key check_one_time_keys save_bundle save_one_time_keys save_one_time_key
    save_identity_key save_signed_pre_key ◌>>=◌ query transaction has_user has_session
delete_device-IsGone_example = delete_device-IsGone alice 1 uploaded refl

delete_device-KeepsDevice_example : KeepsDevice 1 uploaded.db (delete_device alice 2 uploaded).1.db
delete_device-KeepsDevice_example = delete_device-KeepsDevice alice 2 1 uploaded (λ h. omega arith)
