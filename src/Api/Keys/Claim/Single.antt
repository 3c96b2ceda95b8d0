-- ===== src/Api/Keys/Claim/Single.antt =====
-- api/src/e2ee.rs: a claim that finds one device.
use invisible_backend.Prelude.{
  [], ◌∷◌, inl, inr, some, true, refl, ◌==◌, map, ◌≡◌, ◌&&◌, Bool, List, String, any, Bool-cases,
  In, arith, retain, leb, find, nat_eq, subst, ap, ◌∙◌, sym, In-retain, take, ==_refl,
}
use invisible_backend.Api.{json}
use invisible_backend.Postgres.{ok, query, ◌>>=◌}
use invisible_backend.Postgres.Schema.{OneTimeKey, Uuid, Database}
use invisible_backend.Api.Keys.Claim.{
  insert_by_device, order_by_device, chosen, is_open, claim_keys, answer_claim, is_chosen,
  consume_keys, count_keys, ClaimKeysQuery, Bundle, select_bundles, page_limit, page_offset,
  DeviceKeys, OneTimeKeyResponse, open_count, mark_consumed, device_keys, to_one_time, one_time_of,
}
use invisible_backend.Models.{Claims}
use invisible_backend.Api.Keys.Claim.Handed.{In-order}

any-found :
    (p : OneTimeKey → Bool) (ks : List OneTimeKey)
    → any p ks ≡ true
    → (j : OneTimeKey) × (js : List OneTimeKey) × (retain p ks ≡ j ∷ js)
any-found p [] h = absurd (ground arith)
any-found p (k ∷ ks) h = elim (Bool-cases (p k)) [
  | inl here ↦ (k, retain p ks, ground arith)
  | inr there ↦ let (j, js, e) = any-found p ks (ground arith) in (j, js, ground arith)
]

insert_by_device-some :
    (k : OneTimeKey) (ks : List OneTimeKey)
    → (j : OneTimeKey) × (js : List OneTimeKey) × (insert_by_device k ks ≡ j ∷ js)
unfolding insert_by_device
insert_by_device-some k [] = (k, [], refl)
insert_by_device-some k (j ∷ js) = elim (Bool-cases (leb k.device_id j.device_id)) [
  | inl before ↦ (k, j ∷ js, ground arith)
  | inr after ↦ (j, insert_by_device k js, ground arith)
]

order_by_device-some :
    (k : OneTimeKey) (ks : List OneTimeKey)
    → (j : OneTimeKey) × (js : List OneTimeKey) × (order_by_device (k ∷ ks) ≡ j ∷ js)
unfolding order_by_device
order_by_device-some k ks = insert_by_device-some k (order_by_device ks)

find-retain :
    (p q : OneTimeKey → Bool) (k : OneTimeKey) (ks : List OneTimeKey)
    → In k ks
    → p k ≡ true
    → q k ≡ true
    → (j : OneTimeKey) × (find p (retain q ks) ≡ some j)
find-retain p q k [] here hp hq = elim here [ ]
find-retain p q k (j ∷ ks) (inl e) hp hq =
    let pj = subst (λ x. p x ≡ true) e hp in
    let qj = subst (λ x. q x ≡ true) e hq in (j, ground arith)
find-retain p q k (j ∷ ks) (inr here) hp hq =
    let (i, e) = find-retain p q k ks here hp hq in
    elim (Bool-cases (p j && q j)) [ inl this ↦ (j, ground arith) | inr other ↦ (i, ground arith) ]

is_open-device :
    (id : Uuid) (k : OneTimeKey) → is_open (id ∷ []) k ≡ true → (k.device_id == id) ≡ true
is_open-device id k h = ground arith

-- An open key of the only device is among the rows that the UPDATE returns.
consumed-some :
    (id : Uuid) (ks : List OneTimeKey)
    → any (is_open (id ∷ [])) ks ≡ true
    → (j : OneTimeKey) × (find
          (λ k. k.device_id == id)
          (retain (is_chosen (chosen (id ∷ []) 1 ks)) ks)
        ≡ some j)
unfolding chosen
consumed-some id ks h =
    let (k, rest, e) = any-found (is_open (id ∷ [])) ks h in
    let (j, js, e') = order_by_device-some k rest in
    let ordered : order_by_device (retain (is_open (id ∷ [])) ks) ≡ j ∷ js =
      ap order_by_device e ∙ e' in
    let here : In j (order_by_device (retain (is_open (id ∷ [])) ks)) =
      subst (In j) (sym ordered) (inl refl) in
    let (there, opened) = In-retain j (is_open (id ∷ [])) ks (In-order j _ here) in
    subst
      (λ l.
        (i : OneTimeKey) × (find (λ k. k.device_id == id)
            (retain (is_chosen (map (λ (x : OneTimeKey). x.id) (take 1 l))) ks)
          ≡ some i))
      (sym ordered)
      (find-retain (λ k. k.device_id == id) (is_chosen (j.id ∷ [])) j ks there
        (is_open-device id j opened) (ground (arith, ==_refl j.id)))

module _ (format_uuid : Uuid → String) where
  -- A claim that finds one device of the user, on a server that answers, hands out a one-time key of
  -- it whenever the device has one that is not consumed.
  pub claim_keys-one_device :
      (user : Claims) (target : String) (q : ClaimKeysQuery) (db : Database) (b : Bundle)
      → select_bundles target (page_limit q) (page_offset q) db ≡ ok (b ∷ [], db)
      → any (is_open (b.identity.device_id ∷ [])) db.device_one_time_keys ≡ true
      → (d : DeviceKeys) × (k : OneTimeKeyResponse) × ((claim_keys format_uuid user target q
            (record { db = db; outages = [] })).0
          ≡ json 200 (d ∷ []))
        × (d.one_time_key ≡ some k)
  unfolding claim_keys answer_claim consume_keys count_keys query ◌>>=◌
  claim_keys-one_device user target q db b found opened =
      let (j, e) = consumed-some b.identity.device_id db.device_one_time_keys opened in
      let ids = b.identity.device_id ∷ [] in
      let picked = chosen ids 1 db.device_one_time_keys in
      let rows = retain (is_chosen picked) db.device_one_time_keys in
      let left = open_count ids (mark_consumed picked db.device_one_time_keys) in
      (device_keys format_uuid rows left b, to_one_time j, rw found refl, ap one_time_of e)
