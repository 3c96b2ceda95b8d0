-- ===== src/Api/Keys/Accepts.antt =====
-- api/src/e2ee.rs: which bundles upload_keys accepts.
use invisible_backend.Prelude.{
  ℕ, ◌≤◌, String, ◌≡◌, ◌↔◌, List, [], ◌∷◌, Option, some, length, All, arith, refl, Option-cases,
  inl, inr,
}
use invisible_backend.Prelude.Int.{ℤ, pos}
use invisible_backend.Postgres.{ok, err}
use invisible_backend.Api.Keys.Validate.{
  UploadKeysRequest, OneTimeKeyRequest, validate, check_key, check_one_time_keys,
}
use invisible_backend.Api.{text, json, Reply, IsRefusal}

-- 0 ≤ n ≤ limit
abbrev pub InRange : ℤ → ℕ → Type 0
InRange n limit = (m : ℕ) × (n ≡ pos m) × (m ≤ limit)

module _ (decode : String → Option (List ℕ)) where
  -- Base64 for exactly `len` bytes
  abbrev pub IsKey : String → ℕ → Type 0
  IsKey key len = (bytes : List ℕ) × (decode key ≡ some bytes) × (length bytes ≡ len)

  pub record IsBundle (p : UploadKeysRequest) : Type 0 where
    pub registration : InRange p.registration_id 16380
    pub pre_key_id : InRange p.signed_pre_key.key_id 1000000
    pub identity : IsKey p.identity_key 32
    pub pre_key : IsKey p.signed_pre_key.public_key 32
    pub signature : IsKey p.signed_pre_key.signature 64
    pub few : length p.one_time_keys ≤ 100
    pub each : All (λ k. InRange k.key_id 1000000 × IsKey k.public_key 32) p.one_time_keys

  check_key_iff :
      (what key : String) (len : ℕ) → (check_key decode what key len ≡ ok tt) ↔ IsKey key len
  unfolding check_key
  check_key_iff what key len = (
    λ h. elim (Option-cases (decode key)) [
      | inl e ↦ absurd (ground arith)
      | inr (bytes, e) ↦ (bytes, e, ground arith)
    ],
    λ h. let (bytes, e, l) = h in ground arith,
  )

  check_one_time_keys_iff :
      (ks : List OneTimeKeyRequest)
      → (check_one_time_keys decode ks ≡ ok tt)
        ↔ All (λ k. InRange k.key_id 1000000 × IsKey k.public_key 32) ks
  unfolding check_one_time_keys
  check_one_time_keys_iff [] = (λ _. tt, λ _. refl)
  check_one_time_keys_iff (k ∷ ks) = (
    λ h.
        ground (
          arith,
          check_one_time_keys_iff ks,
          check_key_iff "Invalid one-time key: " k.public_key 32,
        ),
    λ h.
        ground (
          arith,
          check_one_time_keys_iff ks,
          check_key_iff "Invalid one-time key: " k.public_key 32,
        ),
  )

  -- The checks pass exactly for a bundle whose numbers are in range, whose keys are Base64 of 32
  -- bytes and whose signature is Base64 of 64, with at most 100 one-time keys.
  pub validate_iff : (p : UploadKeysRequest) → (validate decode p ≡ ok tt) ↔ IsBundle p
  unfolding validate
  validate_iff p =
      let identity = check_key_iff "Invalid identity_key: " p.identity_key 32 in
      let pre_key = check_key_iff "Invalid signed pre key: " p.signed_pre_key.public_key 32 in
      let signature = check_key_iff "Invalid signature: " p.signed_pre_key.signature 64 in
      let each = check_one_time_keys_iff p.one_time_keys in (λ h. ground arith, λ h. ground arith)

  check_key-IsRefusal :
      (what key : String) (len : ℕ) (r : Reply (Unit {0}))
      → check_key decode what key len ≡ err r
      → IsRefusal r
  unfolding check_key
  check_key-IsRefusal what key len (text s y) h = ground arith
  check_key-IsRefusal what key len (json s y) h = ground arith

  check_one_time_keys-IsRefusal :
      (ks : List OneTimeKeyRequest) (r : Reply (Unit {0}))
      → check_one_time_keys decode ks ≡ err r
      → IsRefusal r
  unfolding check_one_time_keys
  check_one_time_keys-IsRefusal [] r h = cc
  check_one_time_keys-IsRefusal (k ∷ ks) r h = ground (
    arith,
    check_one_time_keys-IsRefusal ks r,
    check_key-IsRefusal "Invalid one-time key: " k.public_key 32 r,
  )

  -- A refused bundle is answered with an error status.
  pub validate-IsRefusal :
      (p : UploadKeysRequest) (r : Reply (Unit {0})) → validate decode p ≡ err r → IsRefusal r
  unfolding validate
  validate-IsRefusal p r h =
      let identity = check_key-IsRefusal "Invalid identity_key: " p.identity_key 32 r in
      let pre_key =
        check_key-IsRefusal "Invalid signed pre key: " p.signed_pre_key.public_key 32 r in
      let signature = check_key-IsRefusal "Invalid signature: " p.signed_pre_key.signature 64 r in
      let each = check_one_time_keys-IsRefusal p.one_time_keys r in ground arith
