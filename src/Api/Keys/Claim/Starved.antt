-- ===== src/Api/Keys/Claim/Starved.antt =====
-- api/src/e2ee.rs: a claim that finds several devices, whose one-time keys one LIMIT is for.
use invisible_backend.Api.Keys.Claim.Handed.{UniqueIds, UniqueIds-eq, is_chosen-In, In-order}
use invisible_backend.Api.Keys.Claim.{
  insert_by_device, order_by_device, chosen, is_open, claim_keys, answer_claim, is_chosen,
  consume_keys, count_keys, Bundle, ClaimKeysQuery, select_bundles, page_limit, page_offset,
  DeviceKeys, open_count, mark_consumed, device_keys, one_time_of,
}
use invisible_backend.Prelude.{
  [], ◌∷◌, suc, zero, inl, inr, none, refl, ◌==◌, map, ◌≡◌, List, All, ◌≤◌, Bool-cases, Bool, ◌<◌,
  ℕ, In, String, leb, count, retain, find, nat_eq, arith, take, In-retain, sym, All-map, eq_of_==,
  In-take, ==_refl, subst, ◌∙◌, All-In, length, ◌≢◌, ap,
}
use invisible_backend.Postgres.{ok, query, ◌>>=◌}
use invisible_backend.Postgres.Schema.{Uuid, OneTimeKey, Database}
use invisible_backend.Models.{Claims}
use invisible_backend.Api.{json}

-- no device of a list is before this one
abbrev pub IsFirst : Uuid → List OneTimeKey → Type 0
IsFirst d = All (λ k. d ≤ k.device_id)

abbrev IsByDevice : List OneTimeKey → Type 0
IsByDevice [] = Unit
IsByDevice (k ∷ ks) = IsFirst k.device_id ks × IsByDevice ks

insert_by_device-IsFirst :
    (d : Uuid) (k : OneTimeKey) (ks : List OneTimeKey)
    → d ≤ k.device_id
    → IsFirst d ks
    → IsFirst d (insert_by_device k ks)
unfolding insert_by_device
insert_by_device-IsFirst d k [] h a = (h, tt)
insert_by_device-IsFirst d k (j ∷ js) h a = elim (Bool-cases (leb k.device_id j.device_id)) [
  | inl before ↦ rw before (h, a)
  | inr after ↦ rw after (a.0, insert_by_device-IsFirst d k js h a.1)
]

insert_by_device-IsByDevice :
    (k : OneTimeKey) (ks : List OneTimeKey) → IsByDevice ks → IsByDevice (insert_by_device k ks)
unfolding insert_by_device
insert_by_device-IsByDevice k [] h = (tt, tt)
insert_by_device-IsByDevice k (j ∷ js) h = elim (Bool-cases (leb k.device_id j.device_id)) [
  | inl before ↦
      let le : k.device_id ≤ j.device_id = ground arith in
      rw before ((le, All-map _ _ js (λ x q. omega (arith, le, q)) h.0), h)
  | inr after ↦
      let le : j.device_id ≤ k.device_id = ground arith in
      rw after
        (insert_by_device-IsFirst j.device_id k js le h.0, insert_by_device-IsByDevice k js h.1)
]

order_by_device-IsByDevice : (ks : List OneTimeKey) → IsByDevice (order_by_device ks)
unfolding order_by_device
order_by_device-IsByDevice [] = tt
order_by_device-IsByDevice (k ∷ ks) =
    insert_by_device-IsByDevice k (order_by_device ks) (order_by_device-IsByDevice ks)

order_by_device-IsFirst :
    (d : Uuid) (ks : List OneTimeKey) → IsFirst d ks → IsFirst d (order_by_device ks)
unfolding order_by_device
order_by_device-IsFirst d [] a = tt
order_by_device-IsFirst d (k ∷ ks) a =
    insert_by_device-IsFirst d k (order_by_device ks) a.0 (order_by_device-IsFirst d ks a.1)

count-insert_by_device :
    (p : OneTimeKey → Bool) (k : OneTimeKey) (ks : List OneTimeKey)
    → count p (insert_by_device k ks) ≡ count p (k ∷ ks)
unfolding insert_by_device
count-insert_by_device p k [] = refl
count-insert_by_device p k (j ∷ js) = ground (arith, count-insert_by_device p k js)

count-order_by_device :
    (p : OneTimeKey → Bool) (ks : List OneTimeKey) → count p (order_by_device ks) ≡ count p ks
unfolding order_by_device
count-order_by_device p [] = refl
count-order_by_device p (k ∷ ks) =
    ground (arith, count-insert_by_device p k (order_by_device ks), count-order_by_device p ks)

abbrev of_device : Uuid → OneTimeKey → Bool
of_device d k = k.device_id == d

count-later :
    (d e : Uuid) (ks : List OneTimeKey) → d < e → IsFirst e ks → count (of_device d) ks ≡ 0
count-later d e [] h a = refl
count-later d e (k ∷ ks) h a = ground (arith, count-later d e ks h a.1, a.0, eq_of_== k.device_id d)

-- Of an ordered list whose first device has n keys, the first n keys are of that device.
take-IsFirst :
    (d : Uuid) (n : ℕ) (ks : List OneTimeKey)
    → IsByDevice ks
    → IsFirst d ks
    → n ≤ count (of_device d) ks
    → All (λ k. k.device_id ≡ d) (take n ks)
take-IsFirst d zero ks ordered first enough = tt
take-IsFirst d (suc n) [] ordered first enough = tt
take-IsFirst d (suc n) (k ∷ ks) ordered first enough = elim (Bool-cases (k.device_id == d)) [
  | inl same ↦ (eq_of_== k.device_id d same, take-IsFirst d n ks ordered.1 first.1 (ground arith))
  | inr other ↦ absurd (ground (arith, count-later d k.device_id ks, first.0, ==_refl d, ordered.0))
]

-- what the UPDATE of a claim returns
abbrev consumed_rows : List Uuid → ℕ → List OneTimeKey → List OneTimeKey
consumed_rows ids n ks = retain (is_chosen (chosen ids n ks)) ks

consumed_rows-device :
    (d : Uuid) (ids : List Uuid) (n : ℕ) (ks : List OneTimeKey) (k : OneTimeKey)
    → UniqueIds ks
    → IsFirst d (retain (is_open ids) ks)
    → n ≤ count (of_device d) (retain (is_open ids) ks)
    → In k (consumed_rows ids n ks)
    → k.device_id ≡ d
unfolding chosen
consumed_rows-device d ids n ks k unique first enough here =
    let opens = retain (is_open ids) ks in
    let (there, picked) = In-retain k _ ks here in
    let (j, taken, same) = is_chosen-In k _ picked in
    let (j_there, opened) = In-retain j _ ks (In-order j _ (In-take j n _ taken)) in
    let all =
      take-IsFirst d n (order_by_device opens) (order_by_device-IsByDevice opens)
        (order_by_device-IsFirst d opens first)
        (omega (arith, enough, count-order_by_device (of_device d) opens)) in
    subst (λ x. x.device_id ≡ d) (UniqueIds-eq j k ks unique j_there there same)
      (All-In (λ x. x.device_id ≡ d) j _ all taken)

find-none :
    (d e : Uuid) (ks : List OneTimeKey)
    → ((k : OneTimeKey) → In k ks → k.device_id ≡ d)
    → (e ≡ d → ⊥)
    → find (of_device e) ks ≡ none
find-none d e [] all other = refl
find-none d e (k ∷ ks) all other = elim (Bool-cases (k.device_id == e)) [
  | inl same ↦ absurd (other (sym (eq_of_== k.device_id e same) ∙ all k (inl refl)))
  | inr no_match ↦ ground (arith, find-none d e ks (λ j h. all j (inr h)) other)
]

module _ (format_uuid : Uuid → String) where
  abbrev pub found_ids : List Bundle → List Uuid
  found_ids = map (λ c. c.identity.device_id)

  -- A claim of several devices, on a server that answers, where the device with the lowest id has at
  -- least as many keys that are not consumed as there are devices, hands out no one-time key of any
  -- other device, however many of its keys are not consumed.
  pub claim_keys-starves :
      (user : Claims) (target : String) (q : ClaimKeysQuery) (db : Database) (b : Bundle)
      (bs : List Bundle) (d : Uuid)
      → select_bundles target (page_limit q) (page_offset q) db ≡ ok (b ∷ bs, db)
      → UniqueIds db.device_one_time_keys
      → let ids = found_ids (b ∷ bs) in
        let opens = retain (is_open ids) db.device_one_time_keys in
        IsFirst d opens
        → length ids ≤ count (of_device d) opens
        → (answer : Bundle → DeviceKeys) × ((claim_keys format_uuid user target q
              (record { db = db; outages = [] })).0
            ≡ json 200 (map answer (b ∷ bs)))
          × ((c : Bundle) → c.identity.device_id ≢ d → (answer c).one_time_key ≡ none)
  unfolding claim_keys answer_claim consume_keys count_keys query ◌>>=◌
  claim_keys-starves user target q db b bs d found unique first enough =
      let ids = found_ids (b ∷ bs) in
      let picked = chosen ids (length ids) db.device_one_time_keys in
      let rows = retain (is_chosen picked) db.device_one_time_keys in
      let left = open_count ids (mark_consumed picked db.device_one_time_keys) in
      (
        device_keys format_uuid rows left,
        rw found refl,
        λ c other. ap one_time_of (
            find-none d c.identity.device_id rows
              (λ k here.
                consumed_rows-device d ids (length ids) db.device_one_time_keys k unique first
                  enough here)
              other),
      )
