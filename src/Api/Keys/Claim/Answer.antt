-- ===== src/Api/Keys/Claim/Answer.antt =====
-- api/src/e2ee.rs: the one-time keys in the answer of claim_keys.
use invisible_backend.Models.{Claims}
use invisible_backend.Postgres.{query, ◌>>=◌, or_default, Sql, World, Result, DbError, ok}
use invisible_backend.Postgres.Rules.{query-err, query-ok, Result-cases, Fails-query}
use invisible_backend.Postgres.Schema.{OneTimeKey, Uuid, Database}
use invisible_backend.Api.{Reply, json, respond, database_error, IsRefusal}
use invisible_backend.Api.Keys.Claim.{
  claim_keys, answer_claim, select_bundles, count_keys, consume_keys, ClaimKeysQuery, DeviceKeys,
  Bundle, device_keys, to_one_time, one_time_of, page_limit, page_offset,
}
use invisible_backend.Api.Keys.Claim.Handed.{UniqueIds, IsHandedOut, consume_keys-IsHandedOut}
use invisible_backend.Prelude.{
  [], ◌∷◌, inl, inr, none, some, true, Bool, String, List, ◌≡◌, find, ◌⊎◌, Option, length, In,
  Bool-cases, ℕ, arith, sym, Option-cases, All, subst, ◌==◌, map, ap, eq_of_==, nat_eq, ◌∙◌,
}

find-In :
    {A : Type 0} (p : A → Bool) (xs : List A) (a : A) → find p xs ≡ some a → In a xs × (p a ≡ true)
find-In p [] a h = cc
find-In p (x ∷ xs) a h = elim (Bool-cases (p x)) [
  | inl e ↦ let q : x ≡ a = ground arith in (inl (sym q), subst (λ y. p y ≡ true) q e)
  | inr e ↦ let (there, q) = find-In p xs a (ground arith) in (inr there, q)
]

abbrev page : String → ClaimKeysQuery → Sql (List Bundle)
page target q = select_bundles target (page_limit q) (page_offset q)

page_db :
    (target : String) (q : ClaimKeysQuery) (db db' : Database) (bs : List Bundle)
    → page target q db ≡ ok (bs, db')
    → db' ≡ db
unfolding select_bundles
page_db target q db db' bs h = ground arith

module _ (format_uuid : Uuid → String) where
  -- The one-time key of a device in the answer is one of that device's keys.
  abbrev pub HandsOut : Database → Database → DeviceKeys → Type 0
  HandsOut before after d =
      (d.one_time_key ≡ none)
      ⊎ ((k : OneTimeKey) × IsHandedOut before after k
          × (format_uuid k.device_id ≡ d.device_id)
          × (d.one_time_key ≡ some (to_one_time k)))

  device_keys-HandsOut :
      (before after : Database) (rows : List OneTimeKey) (left : Uuid → Option ℕ) (b : Bundle)
      → ((k : OneTimeKey) → In k rows → IsHandedOut before after k)
      → HandsOut before after (device_keys format_uuid rows left b)
  device_keys-HandsOut before after rows left b h =
      elim (Option-cases (find (λ k. k.device_id == b.identity.device_id) rows)) [
        | inl e ↦ inl (ap one_time_of e)
        | inr (k, e) ↦
            let (here, same) = find-In _ rows k e in
            inr (
              k,
              h k here,
              ap format_uuid (eq_of_== k.device_id b.identity.device_id same),
              ap one_time_of e,
            )
      ]

  All-HandsOut :
      (before after : Database) (rows : List OneTimeKey) (left : Uuid → Option ℕ) (bs : List Bundle)
      → ((k : OneTimeKey) → In k rows → IsHandedOut before after k)
      → All (HandsOut before after) (map (device_keys format_uuid rows left) bs)
  All-HandsOut before after rows left [] h = tt
  All-HandsOut before after rows left (b ∷ bs) h =
      (device_keys-HandsOut before after rows left b h, All-HandsOut before after rows left bs h)

  abbrev failed : DbError → Reply (List DeviceKeys)
  failed = database_error

  -- the two statements that a claim puts up with the failure of
  abbrev consumed_keys :
      List Uuid → World → Result (Reply (List DeviceKeys)) (List OneTimeKey) × World
  consumed_keys ids w = or_default [] (query database_error (consume_keys ids (length ids)) w)

  abbrev counted : List Uuid → World → Result (Reply (List DeviceKeys)) (Uuid → Option ℕ) × World
  counted ids w = or_default (λ _. none) (query database_error (count_keys ids) w)

  consumed_keys-rows :
      (ids : List Uuid) (w : World)
      → UniqueIds w.db.device_one_time_keys
      → (rows : List OneTimeKey) × ((consumed_keys ids w).0 ≡ ok rows)
        × ((k : OneTimeKey) → In k rows → IsHandedOut w.db (consumed_keys ids w).1.db k)
  consumed_keys-rows ids w u =
      elim (Result-cases (query failed (consume_keys ids (length ids)) w).0) [
        | inl (rows, e) ↦ (
          rows,
          ground arith,
          λ k h.
              subst (λ d. IsHandedOut w.db d k)
                {x = (query failed (consume_keys ids (length ids)) w).1.db}
                {y = (consumed_keys ids w).1.db} (ground arith)
                (consume_keys-IsHandedOut ids (length ids) w.db _ rows k u
                  (query-ok failed _ w rows e) h),
        )
        | inr (r, e) ↦ ([], ground arith, λ k h. absurd h)
      ]

  counted-rows :
      (ids : List Uuid) (w : World)
      → (left : Uuid → Option ℕ) × ((counted ids w).0 ≡ ok left) × ((counted ids w).1.db ≡ w.db)
  unfolding count_keys
  counted-rows ids w = elim (Result-cases (query failed (count_keys ids) w).0) [
    | inl (left, e) ↦
        let same = query-ok failed (count_keys ids) w left e in (left, ground arith, ground arith)
    | inr (r, e) ↦
        let same = query-err failed (count_keys ids) w r e in
        (λ _. none, ground arith, ground arith)
  ]

  answer_claim-HandsOut :
      (bs : List Bundle) (w : World) (ds : List DeviceKeys)
      → UniqueIds w.db.device_one_time_keys
      → (respond (answer_claim format_uuid bs) w).0 ≡ json 200 ds
      → All (HandsOut w.db (respond (answer_claim format_uuid bs) w).1.db) ds
  unfolding answer_claim ◌>>=◌
  answer_claim-HandsOut [] w ds u e = cc
  answer_claim-HandsOut (b ∷ bs) w ds u e =
      let ids = map (λ (c : Bundle). c.identity.device_id) (b ∷ bs) in
      let (rows, consumed, handed) = consumed_keys-rows ids w u in
      let (left, found, same) = counted-rows ids (consumed_keys ids w).1 in
      let after : (consumed_keys ids w).1.db
          ≡ (respond (answer_claim format_uuid (b ∷ bs)) w).1.db =
        ground arith in
      let shown : map (device_keys format_uuid rows left) (b ∷ bs) ≡ ds = ground arith in
      subst (λ d. All (HandsOut w.db d) ds) after
        (subst (All (HandsOut w.db (consumed_keys ids w).1.db)) shown
          (All-HandsOut w.db (consumed_keys ids w).1.db rows left (b ∷ bs) handed))

  -- Each one-time key in the answer to a claim belongs to the device that it is listed under, had
  -- been handed out to nobody before, and is marked as handed out afterwards.
  pub claim_keys-HandsOut :
      (user : Claims) (target : String) (q : ClaimKeysQuery) (w : World) (ds : List DeviceKeys)
      → UniqueIds w.db.device_one_time_keys
      → (claim_keys format_uuid user target q w).0 ≡ json 200 ds
      → All (HandsOut w.db (claim_keys format_uuid user target q w).1.db) ds
  unfolding claim_keys ◌>>=◌
  claim_keys-HandsOut user target q w ds u e =
      elim (Result-cases (query failed (page target q) w).0) [
        | inr (r, h) ↦ absurd (
            subst IsRefusal {x = r} {y = json 200 ds} (ground arith)
              ((Fails-query IsRefusal failed (page target q) (λ x. omega arith)).at w r h))
        | inl (bs, h) ↦
            let v = (query failed (page target q) w).1 in
            let same : v.db ≡ w.db =
              page_db target q w.db v.db bs (query-ok failed (page target q) w bs h) in
            let whole : respond (answer_claim format_uuid bs) v
                ≡ claim_keys format_uuid user target q w =
              ground arith in
            subst {A = Database × (Reply (List DeviceKeys) × World)}
              (λ x. All (HandsOut x.0 x.1.1.db) ds)
              {x = (v.db, respond (answer_claim format_uuid bs) v)}
              {y = (w.db, claim_keys format_uuid user target q w)} (λ i. (same i, whole i))
              (answer_claim-HandsOut bs v ds
                (subst (λ d. UniqueIds d.device_one_time_keys) (sym same) u)
                (ap (λ x. x.0) whole ∙ e))
      ]
