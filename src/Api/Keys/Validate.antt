-- ===== src/Api/Keys/Validate.antt =====
-- api/src/e2ee.rs: the checks that upload_keys makes before it opens its transaction. The decoder of
-- URL-safe Base64 without padding is the parameter `decode`.
use Prim.Native.String.{◌++◌}
use invisible_backend.Prelude.{
  ℕ, String, Bool, ◌||◌, List, [], ◌∷◌, Option, none, some, length, ltb, ◌==◌, nat_eq, not,
  if◌then◌else◌,
}
use invisible_backend.Prelude.Int.{ℤ, pos, ltb_ℤ}
use invisible_backend.Postgres.{Result, ok, err}
use invisible_backend.Api.{◌>>◌, text, Check, refuse_if}

abbrev pub curve25519_key_len : ℕ
curve25519_key_len = 32

abbrev pub curve25519_signature_len : ℕ
curve25519_signature_len = 64

abbrev pub max_keys_per_request : ℕ
max_keys_per_request = 100

abbrev pub max_key_id : ℤ
max_key_id = pos 1000000

abbrev pub max_registration_id : ℤ
max_registration_id = pos 16380

pub record SignedPreKeyRequest : Type 0 where
  pub key_id : ℤ
  pub public_key : String
  pub signature : String

pub record OneTimeKeyRequest : Type 0 where
  pub key_id : ℤ
  pub public_key : String

pub record UploadKeysRequest : Type 0 where
  pub identity_key : String
  pub registration_id : ℤ
  pub signed_pre_key : SignedPreKeyRequest
  pub one_time_keys : List OneTimeKeyRequest

-- a number below 0 or above its limit
abbrev pub out_of_range : ℤ → ℤ → Bool
out_of_range n limit = ltb_ℤ n (pos 0) || ltb_ℤ limit n

module _ (decode : String → Option (List ℕ)) where
  unfoldable pub validate_base64_key : String → ℕ → Result String (List ℕ)
  validate_base64_key key expected_len = elim (decode key) [
    | none ↦ err "Invalid Base64 encoding"
    | some decoded ↦
        if not (length decoded == expected_len) then err "Invalid key length" else ok decoded
  ]

  -- `if let Err(e) = validate_base64_key(…) { return … format!(…, e) }`
  unfoldable pub check_key : String → String → ℕ → Check
  unfolding validate_base64_key
  check_key what key len = elim (validate_base64_key key len) [
    | ok _ ↦ ok tt
    | err e ↦ err (text 400 (what ++ e))
  ]

  unfoldable pub check_one_time_keys : List OneTimeKeyRequest → Check
  check_one_time_keys [] = ok tt
  check_one_time_keys (otk ∷ rest) =
      let later = check_one_time_keys rest in
      refuse_if (out_of_range otk.key_id max_key_id) "Invalid one-time key ID"
      >> check_key "Invalid one-time key: " otk.public_key curve25519_key_len
      >> later

  unfoldable pub validate : UploadKeysRequest → Check
  validate p =
      refuse_if (out_of_range p.registration_id max_registration_id) "Invalid registration_id"
      >> refuse_if (out_of_range p.signed_pre_key.key_id max_key_id) "Invalid signed pre key ID"
      >> check_key "Invalid identity_key: " p.identity_key curve25519_key_len
      >> check_key "Invalid signed pre key: " p.signed_pre_key.public_key curve25519_key_len
      >> check_key "Invalid signature: " p.signed_pre_key.signature curve25519_signature_len
      >> refuse_if (ltb max_keys_per_request (length p.one_time_keys)) "Too many one-time keys"
      >> check_one_time_keys p.one_time_keys
