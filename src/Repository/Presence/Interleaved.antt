-- ===== src/Repository/Presence/Interleaved.antt =====
-- shared/src/repository.rs, add_connection: the commands of several connections of one user, in any
-- order. Each sends SADD and then SCARD.
use invisible_backend.Repository.Presence.{add_connection, Redis, presence_key}
use invisible_backend.Prelude.{
  [], ◌∷◌, inl, inr, none, some, true, ◌==◌, ◌≡◌, ◌&&◌, String, List, ℕ, Option, arith, In, Bool,
  retain, length, ==_refl, ap, sym, not, eq_of_==, In-retain, ◌∙◌, string_eq, ltb, nat_eq, subst,
  refl, false, Bool-cases,
}
use invisible_backend.Repository.Presence.{sadd, has, scard}

-- The sets, the connections between their two commands with the reply to SADD, and what the others
-- were told.
pub record Race : Type 0 where
  pub sets : String → List String
  pub waiting : List (String × ℕ)
  pub told : List (String × Bool)

module _ (key : String) where
  pub data Turn : Race → Race → Type 0 where
    adds :
        (r : Race) (conn : String)
        → Turn r (record r {
          sets = (sadd key conn r.sets).1;
          waiting = (conn, (sadd key conn r.sets).0) ∷ r.waiting;
        })
    counts :
        (r : Race) (conn : String) (added : ℕ)
        → In (conn, added) r.waiting
        → Turn r (record r {
          waiting = retain (λ w. not (w.0 == conn)) r.waiting;
          told = (conn, ltb 0 added && ((scard key r.sets).0 == 1)) ∷ r.told;
        })

  pub data Reach (r : Race) : Race → Type 0 where
    here : Reach r r
    next : {s t : Race} → Reach r s → Turn s t → Reach r t

-- the connection that was added before all others
abbrev oldest : List String → Option String
oldest [] = none
oldest (x ∷ []) = some x
oldest (x ∷ y ∷ l) = oldest (y ∷ l)

oldest-cons : (x c : String) (l : List String) → oldest l ≡ some c → oldest (x ∷ l) ≡ some c
oldest-cons x c [] h = absurd (ground arith)
oldest-cons x c (y ∷ l) h = h

oldest-single :
    (c : String) (l : List String) → has c l ≡ true → (length l == 1) ≡ true → oldest l ≡ some c
oldest-single c [] there single = absurd (ground arith)
oldest-single c (x ∷ []) there single = ap some (eq_of_== x c (ground arith))
oldest-single c (x ∷ y ∷ l) there single = absurd (ground arith)

module _ (key : String) where
  -- Who waits is a connection, and who was told to be the first is the oldest.
  record IsFair (r : Race) : Type 0 where
    joined : (conn : String) (added : ℕ) → In (conn, added) r.waiting → has conn (r.sets key) ≡ true
    first : (c : String) → In (c, true) r.told → oldest (r.sets key) ≡ some c

  has-sadd :
      (conn c : String) (sets : String → List String)
      → has c (sets key) ≡ true
      → has c ((sadd key conn sets).1 key) ≡ true
  unfolding sadd
  has-sadd conn c sets h = ground (arith, ==_refl key)

  has_self-sadd :
      (conn : String) (sets : String → List String) → has conn ((sadd key conn sets).1 key) ≡ true
  unfolding sadd
  has_self-sadd conn sets = ground (arith, ==_refl key, ==_refl conn)

  oldest-sadd :
      (conn c : String) (sets : String → List String)
      → oldest (sets key) ≡ some c
      → oldest ((sadd key conn sets).1 key) ≡ some c
  unfolding sadd
  oldest-sadd conn c sets h = ground (arith, ==_refl key, oldest-cons conn c (sets key))

  Turn-IsFair : {r s : Race} → Turn key r s → IsFair r → IsFair s
  unfolding scard
  Turn-IsFair (adds r conn) f = record {
    joined = λ c n i. elim i [
      | inl new ↦ rw (ap (λ w. w.0) new) (has_self-sadd conn r.sets)
      | inr old ↦ has-sadd conn c r.sets (f.joined c n old)
    ];
    first = λ c i. oldest-sadd conn c r.sets (f.first c i);
  }
  Turn-IsFair (counts r conn added i) f = record {
    joined = λ c n j. f.joined c n (In-retain (c, n) (λ w. not (w.0 == conn)) r.waiting j).0;
    first = λ c j. elim j [
      | inl new ↦
          let name : conn ≡ c = ap (λ w. w.0) (sym new) in
          let one : true ≡ (ltb 0 added && (length (r.sets key) == 1)) = ap (λ w. w.1) new in
          subst (λ x. oldest (r.sets key) ≡ some x) name
            (oldest-single conn (r.sets key) (f.joined conn added i) (ground arith))
      | inr old ↦ f.first c old
    ];
  }

  Reach-IsFair : {r s : Race} → IsFair r → Reach key r s → IsFair s
  Reach-IsFair f here = f
  Reach-IsFair f (next r t) = Turn-IsFair t (Reach-IsFair f r)

-- A call of `add_connection` that no other interrupts, and whose commands are answered, is one run of
-- these steps, and its reply is what the connection is told.
pub add_connection-Reach :
    (user conn : String) (r : Redis)
    → r.outages ≡ []
    → let key = presence_key user in
      let (reply, r') = add_connection user conn r in
      (answer : Bool) × (reply ≡ some answer)
      × Reach key
          (record { sets = r.sets; waiting = []; told = [] })
          (record { sets = r'.sets; waiting = []; told = (conn, answer) ∷ [] })
unfolding add_connection scard
add_connection-Reach user conn r calm =
    let key = presence_key user in
    let start : Race = record { sets = r.sets; waiting = []; told = [] } in
    let (added, sets) = sadd key conn r.sets in
    let answer = ltb 0 added && (length (sets key) == 1) in
    let between : Race = record { sets = sets; waiting = (conn, added) ∷ []; told = [] } in
    let run : Reach key start (record between {
      waiting = retain (λ w. not (w.0 == conn)) between.waiting;
      told = (conn, answer) ∷ [];
    }) =
      next (next here (adds start conn)) (counts between conn added (inl refl)) in
    (answer, ground (arith, calm), subst (Reach key start) (ground (arith, ==_refl conn, calm)) run)

has-oldest : (c : String) (l : List String) → oldest l ≡ some c → has c l ≡ true
has-oldest c [] h = absurd (ground arith)
has-oldest c (x ∷ []) h = ground (arith, ==_refl c)
has-oldest c (x ∷ y ∷ l) h = ground (arith, has-oldest c (y ∷ l) h)

sadd-present :
    (key conn : String) (sets : String → List String)
    → has conn (sets key) ≡ true
    → (sadd key conn sets).0 ≡ 0
unfolding sadd
sadd-present key conn sets h = ground (arith, h)

-- However the commands of connections that only come have interleaved, each SADD and each SCARD a step of
-- its own: once one of them was told that it is the first, `add_connection` with a Redis that answers
-- tells every connection of the user that it is not.
pub add_connection-first :
    (user conn c : String) (sets : String → List String) (r : Race) (s : Redis)
    → Reach (presence_key user) (record { sets = sets; waiting = []; told = [] }) r
    → In (c, true) r.told
    → s.sets ≡ r.sets
    → s.outages ≡ []
    → (add_connection user conn s).0 ≡ some false
unfolding add_connection scard
add_connection-first user conn c sets r s reach told same calm =
    let key = presence_key user in
    let start : IsFair key (record { sets = sets; waiting = []; told = [] }) = record {
      joined = λ x n i. absurd i;
      first = λ x i. absurd i;
    } in
    let first = (Reach-IsFair key start reach).first c told in
    let (added, sets') = sadd key conn r.sets in
    let after = oldest-sadd key conn c r.sets first in
    let answered : (add_connection user conn s).0
        ≡ some (ltb 0 added && (length (sets' key) == 1)) =
      ground (arith, calm, ap (sadd key conn) same) in
    answered
    ∙ ap some (elim (Bool-cases (length (sets' key) == 1)) [
      | inl single ↦
          let self = oldest-single conn (sets' key) (has_self-sadd key conn r.sets) single in
          let name : conn ≡ c = ground (arith, self, after) in
          let was =
            subst (λ x. has x (r.sets key) ≡ true) (sym name) (has-oldest c (r.sets key) first) in
          ground (arith, sadd-present key conn r.sets was)
      | inr several ↦ ground (arith, several)
    ])
