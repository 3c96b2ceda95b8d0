-- ===== src/Api/Accounts/Life.antt =====
-- api/src/lib.rs with relay/src/lib.rs: a session from its login to its logout.
use invisible_backend.Prelude.{
  [], ◌∷◌, some, true, false, ◌==◌, ◌≡◌, ◌++◌, String, Bool, Option, List, any, arith, find, ap,
  ==_refl, nat_eq, string_eq, none, refl, subst, sym, inl, inr, Option-cases,
}
use invisible_backend.Api.{json, IsRefusal}
use invisible_backend.Sessions.{Gate, session_key, set_ex}
use invisible_backend.Relay.Upgrade.{valid_of}
use invisible_backend.Postgres.{ok, World, query, DbError}
use invisible_backend.Postgres.Schema.{Session, has_session, Database, has_user, Uuid, User}
use invisible_backend.Api.Accounts.{
  AuthRequest, insert_session, Drawn, session_row, create_session, login_handler, login_claims,
  select_user, AuthResponse, when_connected, with_verdict, with_row, internal_error,
}
use invisible_backend.Models.{Claims}
use invisible_backend.Postgres.Rules.{
  query-ok, bind-ok, Fails, Result-cases, Fails-throw, Fails-bind, Fails-query,
}

find-append :
    (p : Session → Bool) (xs : List Session) (s : Session)
    → any p xs ≡ false
    → p s ≡ true
    → find p (xs ++ s ∷ []) ≡ some s
find-append p [] s none_before here = ground arith
find-append p (x ∷ xs) s none_before here = ground (arith, find-append p xs s)

-- The session is new, its user is there, and its row comes after the others.
pub record IsCreated (p : AuthRequest) (d : Drawn) (before after : Database) : Type 0 where
  pub fresh : has_session before d.session_id ≡ false
  pub known : has_user before p.username ≡ true
  pub added : after ≡ record before {
    sessions = before.sessions ++ session_row p d.session_id d.refresh_token before.now ∷ [];
  }

insert_session-IsCreated :
    (p : AuthRequest) (d : Drawn) (before after : Database) (u : Unit {0})
    → insert_session p d.session_id d.refresh_token before ≡ ok (u, after)
    → IsCreated p d before after
unfolding insert_session
insert_session-IsCreated p d before after u h = ground arith

pub IsCreated-valid :
    (p : AuthRequest) (d : Drawn) (before after : Database)
    → IsCreated p d before after
    → valid_of (find (λ s. s.id == d.session_id) after.sessions) ≡ some true
unfolding has_session
IsCreated-valid p d before after c =
    let row = session_row p d.session_id d.refresh_token before.now in
    rw c.added (
      ap valid_of (
        find-append (λ s. s.id == d.session_id) before.sessions row c.fresh (==_refl d.session_id)))

module _ (verify_password : String → String → Option Bool) where
  -- The user is there, and its stored hash verifies the password.
  abbrev pub IsVerified : AuthRequest → Database → Type 0
  IsVerified p db =
      (user : User) × (find (λ u. u.username == p.username) db.users ≡ some user)
      × (verify_password p.password user.password_hash ≡ some true)

  with_verdict-IsCreated :
      (p : AuthRequest) (d : Drawn) (v : Option Bool) (w : World) (x : Unit {0})
      → (with_verdict verify_password p d v w).0 ≡ ok x
      → (v ≡ some true) × IsCreated p d w.db (with_verdict verify_password p d v w).1.db
  with_verdict-IsCreated p d none w x h = cc
  with_verdict-IsCreated p d (some false) w x h = cc
  with_verdict-IsCreated p d (some true) w x h = (
    refl,
    insert_session-IsCreated p d w.db _ x
        (query-ok internal_error (insert_session p d.session_id d.refresh_token) w x h),
  )

  with_row-IsCreated :
      (p : AuthRequest) (d : Drawn) (row : Option User) (w : World) (x : Unit {0})
      → (with_row verify_password p d row w).0 ≡ ok x
      → (user : User) × (row ≡ some user)
        × (verify_password p.password user.password_hash ≡ some true)
        × IsCreated p d w.db (with_row verify_password p d row w).1.db
  with_row-IsCreated p d none w x h = cc
  with_row-IsCreated p d (some u) w x h =
      let (v, created) =
        with_verdict-IsCreated p d (verify_password p.password u.password_hash) w x h in
      (u, refl, v, created)

  create_session-IsCreated :
      (p : AuthRequest) (d : Drawn) (w : World) (x : Unit {0})
      → (create_session verify_password p d w).0 ≡ ok x
      → IsVerified p w.db × IsCreated p d w.db (create_session verify_password p d w).1.db
  unfolding create_session select_user
  create_session-IsCreated p d w x h =
      let sel = query (internal_error {A = AuthResponse}) (select_user p.username) in
      let (row, one, rest, e) = bind-ok sel (with_row verify_password p d) w x h in
      let read = query-ok internal_error (select_user p.username) w row one in
      let (user, is_row, verified, created) = with_row-IsCreated p d row (sel w).1 x rest in
      let same : (sel w).1.db ≡ w.db = ground arith in
      (
        (user, ground arith, verified),
        subst (λ b. IsCreated p d b (create_session verify_password p d w).1.db) same
            (subst (λ r. IsCreated p d (sel w).1.db r.1.db) (sym e) created),
      )

  internal_error-IsRefusal : (e : DbError) → IsRefusal {A = AuthResponse} (internal_error e)
  internal_error-IsRefusal e = omega arith

  with_verdict-Fails :
      (p : AuthRequest) (d : Drawn) (v : Option Bool)
      → Fails IsRefusal (with_verdict verify_password p d v)
  with_verdict-Fails p d none = Fails-throw IsRefusal _ (omega arith)
  with_verdict-Fails p d (some false) = Fails-throw IsRefusal _ (omega arith)
  with_verdict-Fails p d (some true) = Fails-query IsRefusal _ _ internal_error-IsRefusal

  with_row-Fails :
      (p : AuthRequest) (d : Drawn) (row : Option User)
      → Fails IsRefusal (with_row verify_password p d row)
  with_row-Fails p d none = Fails-throw IsRefusal _ (omega arith)
  with_row-Fails p d (some u) = with_verdict-Fails p d (verify_password p.password u.password_hash)

  create_session-Fails :
      (p : AuthRequest) (d : Drawn) → Fails IsRefusal (create_session verify_password p d)
  unfolding create_session
  create_session-Fails p d =
      Fails-bind IsRefusal _ _ (Fails-query IsRefusal _ _ internal_error-IsRefusal)
        (with_row-Fails p d)

  module _ (encode : Claims → Option String) (format_uuid : Uuid → String) (connected : Bool) where
    -- What a login that answers 200 has found and made.
    pub record IsLoggedIn (p : AuthRequest) (d : Drawn) (t : String) (g g' : Gate) : Type 0 where
      pub verified : IsVerified p g.world.db
      pub signed : encode (login_claims format_uuid p d) ≡ some t
      pub created : IsCreated p d g.world.db g'.world.db
      pub cached :
          g'.cache
          ≡ when_connected connected
              (set_ex (session_key (format_uuid d.session_id)) "valid")
              g.cache

    -- A login answers 200 only for a user that is there and a password that its stored hash verifies;
    -- it then has made one new valid session of that user after the others, touched no other table,
    -- and signed a token that names both.
    pub login_handler-IsLoggedIn :
        (p : AuthRequest) (d : Drawn) (g : Gate) (r : AuthResponse)
        → (login_handler encode format_uuid connected verify_password p d g).0 ≡ json 200 r
        → IsLoggedIn p d r.token g
            (login_handler encode format_uuid connected verify_password p d g).1
    unfolding login_handler
    login_handler-IsLoggedIn p d g r h =
        let made = create_session verify_password p d g.world in
        elim (Result-cases made.0) [
          | inl (x, done) ↦
              let (verified, created) = create_session-IsCreated p d g.world x done in
              elim (Option-cases (encode (login_claims format_uuid p d))) [
                | inl unsigned ↦ absurd (ground arith)
                | inr (t, signed) ↦ record {
                  verified = verified;
                  signed = ground arith;
                  created = subst (IsCreated p d g.world.db) (ground arith) created;
                  cached = ground arith;
                }
              ]
          | inr (refusal, failed) ↦ absurd (
              subst IsRefusal {x = refusal} {y = json 200 r} (ground arith)
                ((create_session-Fails p d).at g.world refusal failed))
        ]
