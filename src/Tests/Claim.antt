-- ===== src/Tests/Claim.antt =====
-- api/src/e2ee.rs: claims of the keys of a user with one device and with two.
use invisible_backend.Prelude.{
  ℕ, true, false, List, [], ◌∷◌, map, Option, ◌≡◌, refl, some, none, All, ◌≢◌, arith,
}
use invisible_backend.Prelude.Int.{ℤ, pos}
use invisible_backend.Postgres.{World, query, ◌>>=◌}
use invisible_backend.Postgres.Schema.{Uuid, IdentityKey, SignedPreKey, OneTimeKey}
use invisible_backend.Api.{Reply, text, json}
use invisible_backend.Api.Keys.Claim.{
  ClaimKeysQuery, DeviceKeys, OneTimeKeyResponse, claim_keys, select_bundles, consume_keys,
  count_keys, answer_claim, chosen, mark_consumed, order_by_device, insert_by_device, Bundle,
}
use invisible_backend.Api.Keys.Claim.Answer.{HandsOut, claim_keys-HandsOut}
use invisible_backend.Tests.{alice, sample, sample_db, format_uuid}
use invisible_backend.Api.Keys.Claim.Single.{claim_keys-one_device}
use invisible_backend.Api.Keys.Claim.Starved.{claim_keys-starves}

abbrev identity : Uuid → IdentityKey
identity id = record {
  user_username = "alice";
  device_id = id;
  registration_id = pos 5;
  identity_key = "k32";
}

abbrev pre_key : Uuid → SignedPreKey
pre_key id = record {
  user_username = "alice";
  device_id = id;
  key_id = pos 1;
  public_key = "k32";
  signature = "k64";
}

abbrev one_time : ℕ → Uuid → ℤ → OneTimeKey
one_time row id key_id = record {
  id = row;
  user_username = "alice";
  device_id = id;
  key_id = key_id;
  public_key = "k32";
  consumed = false;
}

abbrev one_device : World
one_device = record sample {
  db = record sample_db {
    device_identity_keys = identity 1 ∷ [];
    device_signed_pre_keys = pre_key 1 ∷ [];
    device_one_time_keys = one_time 50 1 (pos 1) ∷ one_time 51 1 (pos 2) ∷ [];
  };
}

abbrev two_devices : World
two_devices = record sample {
  db = record sample_db {
    device_identity_keys = identity 1 ∷ identity 2 ∷ [];
    device_signed_pre_keys = pre_key 1 ∷ pre_key 2 ∷ [];
    device_one_time_keys =
        one_time 50 1 (pos 1)
        ∷ one_time 51 1 (pos 2)
        ∷ one_time 52 2 (pos 1)
        ∷ one_time 53 2 (pos 2)
        ∷ [];
  };
}

abbrev claimed : DeviceKeys
claimed = record {
  device_id = "one";
  identity_key = "k32";
  registration_id = pos 5;
  signed_pre_key = record { key_id = pos 1; public_key = "k32"; signature = "k64" };
  one_time_key = some (record { key_id = pos 1; public_key = "k32" });
  one_time_keys_remaining = 1;
}

abbrev whole_page : ClaimKeysQuery
whole_page = record { limit = none; offset = none }

claim_keys-HandsOut_example :
    All
      (HandsOut format_uuid one_device.db
        (claim_keys format_uuid alice "alice" whole_page one_device).1.db)
      (claimed ∷ [])
unfolding claim_keys answer_claim select_bundles consume_keys count_keys chosen mark_consumed
    order_by_device insert_by_device query ◌>>=◌
claim_keys-HandsOut_example =
    claim_keys-HandsOut format_uuid alice "alice" whole_page one_device (claimed ∷ [])
      (refl, (refl, tt)) refl

abbrev one_time_key_of : DeviceKeys → Option OneTimeKeyResponse
one_time_key_of d = d.one_time_key

abbrev keys_of : Reply (List DeviceKeys) → List (Option OneTimeKeyResponse)
keys_of (text _ _) = []
keys_of (json _ ds) = map one_time_key_of ds

-- Both keys of the first device are consumed, and the second device, which has two, shows none.
claim_two_devices :
    (keys_of (claim_keys format_uuid alice "alice" whole_page two_devices).0
      ≡ some (record { key_id = pos 1; public_key = "k32" }) ∷ none ∷ [])
    × (map
          (λ k. k.consumed)
          (claim_keys format_uuid alice "alice" whole_page two_devices).1.db.device_one_time_keys
        ≡ true ∷ true ∷ false ∷ false ∷ [])
unfolding claim_keys answer_claim select_bundles consume_keys count_keys chosen mark_consumed
    order_by_device insert_by_device query ◌>>=◌
claim_two_devices = (refl, refl)

abbrev only_bundle : Bundle
only_bundle = record { identity = identity 1; pre_key = pre_key 1 }

claim_keys-one_device_example :
    (d : DeviceKeys) × (k : OneTimeKeyResponse) × ((claim_keys format_uuid alice "alice" whole_page
        (record { db = one_device.db; outages = [] })).0
      ≡ json 200 (d ∷ []))
    × (d.one_time_key ≡ some k)
unfolding select_bundles
claim_keys-one_device_example =
    claim_keys-one_device format_uuid alice "alice" whole_page one_device.db only_bundle refl refl

abbrev bundle : Uuid → Bundle
bundle id = record { identity = identity id; pre_key = pre_key id }

claim_keys-starves_example :
    (answer : Bundle → DeviceKeys) × ((claim_keys format_uuid alice "alice" whole_page
        (record { db = two_devices.db; outages = [] })).0
      ≡ json 200 (map answer (bundle 1 ∷ bundle 2 ∷ [])))
    × ((c : Bundle) → c.identity.device_id ≢ 1 → (answer c).one_time_key ≡ none)
unfolding select_bundles
claim_keys-starves_example =
    claim_keys-starves format_uuid alice "alice" whole_page two_devices.db (bundle 1)
      (bundle 2 ∷ []) 1 refl (refl, (refl, (refl, (refl, tt))))
      (omega arith, (omega arith, (omega arith, (omega arith, tt)))) (omega arith)
