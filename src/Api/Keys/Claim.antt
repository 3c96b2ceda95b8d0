-- ===== src/Api/Keys/Claim.antt =====
-- api/src/e2ee.rs: claim_keys, which hands out key bundles and one-time keys. Where a SELECT or a
-- RETURNING gives no order, rows come as they stand in the table.
pub mod Handed
pub mod Answer
pub mod Single
pub mod Starved
use invisible_backend.Prelude.{
  ℕ, String, Bool, true, ◌&&◌, not, List, [], ◌∷◌, ◌++◌, map, Option, none, some, length, take,
  drop, retain, any, find, count, leb, ◌==◌, nat_eq, string_eq, if◌then◌else◌,
}
use invisible_backend.Prelude.Int.{ℤ, pos, negsuc, min_ℤ, max_ℤ, pos_part}
use invisible_backend.Models.{Claims}
use invisible_backend.Postgres.{
  World, ok, err, Sql, query, ◌>>=◌, pure, throw, or_default, negative_limit,
}
use invisible_backend.Postgres.Schema.{Uuid, IdentityKey, SignedPreKey, OneTimeKey}
use invisible_backend.Api.{Reply, text, json, Handler, respond, database_error}

abbrev pub max_devices_per_claim : ℤ
max_devices_per_claim = pos 100

pub record ClaimKeysQuery : Type 0 where
  pub limit : Option ℤ
  pub offset : Option ℤ

pub record SignedPreKeyResponse : Type 0 where
  pub key_id : ℤ
  pub public_key : String
  pub signature : String

pub record OneTimeKeyResponse : Type 0 where
  pub key_id : ℤ
  pub public_key : String

pub record DeviceKeys : Type 0 where
  pub device_id : String
  pub identity_key : String
  pub registration_id : ℤ
  pub signed_pre_key : SignedPreKeyResponse
  pub one_time_key : Option OneTimeKeyResponse
  pub one_time_keys_remaining : ℕ

-- a row of the first SELECT
pub record Bundle : Type 0 where
  pub identity : IdentityKey
  pub pre_key : SignedPreKey

abbrev pub unwrap_or {ℓ} : {A : Type ℓ} → Option A → A → A
unwrap_or none d = d
unwrap_or (some a) d = a

abbrev pub page_limit : ClaimKeysQuery → ℤ
page_limit q = min_ℤ (unwrap_or q.limit max_devices_per_claim) max_devices_per_claim

abbrev pub page_offset : ClaimKeysQuery → ℕ
page_offset q = pos_part (max_ℤ (unwrap_or q.offset (pos 0)) (pos 0))

-- JOIN device_signed_pre_keys spk ON spk.device_id = d.device_id
abbrev pub join_pre_keys : List SignedPreKey → List IdentityKey → List Bundle
join_pre_keys spks [] = []
join_pre_keys spks (d ∷ ds) =
    map (λ s. record { identity = d; pre_key = s }) (retain (λ s. s.device_id == d.device_id) spks)
    ++ join_pre_keys spks ds

-- the first SELECT, with LIMIT and OFFSET; PostgreSQL refuses a negative LIMIT
unfoldable pub select_bundles : String → ℤ → ℕ → Sql (List Bundle)
select_bundles target (negsuc n) offset db = err negative_limit
select_bundles target (pos limit) offset db = ok (
  take limit (
      drop offset (
        join_pre_keys db.device_signed_pre_keys
          (retain (λ d. d.user_username == target) db.device_identity_keys))),
  db,
)

-- ORDER BY device_id
unfoldable pub insert_by_device : OneTimeKey → List OneTimeKey → List OneTimeKey
insert_by_device k [] = k ∷ []
insert_by_device k (j ∷ js) =
    if leb k.device_id j.device_id then k ∷ j ∷ js else j ∷ insert_by_device k js

unfoldable pub order_by_device : List OneTimeKey → List OneTimeKey
unfolding insert_by_device
order_by_device [] = []
order_by_device (k ∷ ks) = insert_by_device k (order_by_device ks)

-- device_id = ANY($1) AND consumed = FALSE
abbrev pub is_open : List Uuid → OneTimeKey → Bool
is_open ids k = any (λ id. id == k.device_id) ids && not k.consumed

-- SELECT id FROM device_one_time_keys WHERE … ORDER BY device_id LIMIT $2
unfoldable pub chosen : List Uuid → ℕ → List OneTimeKey → List ℕ
unfolding order_by_device
chosen ids limit ks = map (λ k. k.id) (take limit (order_by_device (retain (is_open ids) ks)))

abbrev pub is_chosen : List ℕ → OneTimeKey → Bool
is_chosen picked k = any (λ id. id == k.id) picked

-- SET consumed = TRUE WHERE id IN (…)
unfoldable pub mark_consumed : List ℕ → List OneTimeKey → List OneTimeKey
mark_consumed picked = map (λ k. if is_chosen picked k then record k { consumed = true } else k)

-- UPDATE device_one_time_keys SET consumed = TRUE … RETURNING device_id, key_id, public_key
unfoldable pub consume_keys : List Uuid → ℕ → Sql (List OneTimeKey)
unfolding chosen mark_consumed
consume_keys ids limit db =
    let picked = chosen ids limit db.device_one_time_keys in
    ok (
      retain (is_chosen picked) db.device_one_time_keys,
      record db { device_one_time_keys = mark_consumed picked db.device_one_time_keys },
    )

-- the map that the handler collects from the counts: a device with no open key has no entry
abbrev pub open_count : List Uuid → List OneTimeKey → Uuid → Option ℕ
open_count ids ks id =
    let n = count (λ k. k.device_id == id && is_open ids k) ks in if n == 0 then none else some n

-- SELECT device_id, COUNT(*) … WHERE device_id = ANY($1) AND consumed = FALSE GROUP BY device_id
unfoldable pub count_keys : List Uuid → Sql (Uuid → Option ℕ)
count_keys ids db = ok (open_count ids db.device_one_time_keys, db)

abbrev pub to_one_time : OneTimeKey → OneTimeKeyResponse
to_one_time k = record { key_id = k.key_id; public_key = k.public_key }

abbrev pub one_time_of : Option OneTimeKey → Option OneTimeKeyResponse
one_time_of none = none
one_time_of (some k) = some (to_one_time k)

module _ (format_uuid : Uuid → String) where
  -- one round of `for id_key in id_keys`
  abbrev pub device_keys : List OneTimeKey → (Uuid → Option ℕ) → Bundle → DeviceKeys
  device_keys consumed_otks otk_remaining b = record {
    device_id = format_uuid b.identity.device_id;
    identity_key = b.identity.identity_key;
    registration_id = b.identity.registration_id;
    signed_pre_key = record {
      key_id = b.pre_key.key_id;
      public_key = b.pre_key.public_key;
      signature = b.pre_key.signature;
    };
    one_time_key = one_time_of (find (λ k. k.device_id == b.identity.device_id) consumed_otks);
    one_time_keys_remaining = unwrap_or (otk_remaining b.identity.device_id) 0;
  }

  unfoldable pub answer_claim : List Bundle → Handler (List DeviceKeys)
  answer_claim [] = throw (text 404 "No keys found for user")
  answer_claim (b ∷ bs) = do
    let ids = map (λ c. c.identity.device_id) (b ∷ bs)
    consumed ← λ w. or_default [] (query database_error (consume_keys ids (length ids)) w)
    remaining ← λ w. or_default (λ _. none) (query database_error (count_keys ids) w)
    pure (json 200 (map (device_keys consumed remaining) (b ∷ bs)))

  unfoldable pub claim_keys :
      Claims → String → ClaimKeysQuery → World → Reply (List DeviceKeys) × World
  unfolding answer_claim
  claim_keys user target q = respond (do
    id_keys ← query database_error (select_bundles target (page_limit q) (page_offset q))
    answer_claim id_keys)
