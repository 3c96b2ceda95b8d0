-- ===== src/Api/Accounts/Admission.antt =====
-- api/src/lib.rs with relay/src/lib.rs: what a login and a logout mean for the WebSocket.
use invisible_backend.Prelude.{
  [], ◌∷◌, inl, inr, some, true, ◌==◌, map, ◌≡◌, String, List, Option, find, Bool, ◌≢◌, arith,
  ==_refl, nat_eq, string_eq, subst, sym, Option-cases, ℕ, ◌≤◌, ◌+◌,
}
use invisible_backend.Api.{json}
use invisible_backend.Sessions.{Gate, session_key, get, del}
use invisible_backend.Relay.Upgrade.{ws_handler, upgraded, refused, select_valid, valid_of}
use invisible_backend.Postgres.Schema.{Uuid, Session}
use invisible_backend.Models.{Claims}
use invisible_backend.Postgres.{query}
use invisible_backend.Api.Accounts.{
  logout_handler, invalidated, AuthRequest, invalidate, Drawn, AuthResponse, login_handler,
  login_claims, token_lifetime,
}
use invisible_backend.Api.Accounts.Life.{login_handler-IsLoggedIn, IsCreated-valid}

-- A session that was marked invalid is not valid.
invalidated-valid_of :
    (id : Uuid) (ss : List Session)
    → valid_of (find (λ s. s.id == id) (map (invalidated id) ss)) ≢ some true
invalidated-valid_of id [] h = cc
invalidated-valid_of id (s ∷ ss) h = ground (arith, invalidated-valid_of id ss)

module _ (decode_token : ℕ → String → Option Claims) (parse_uuid : String → Option Uuid)
    (format_uuid : Uuid → String) where
  -- Once a login has answered 200, its token opens a WebSocket for its user and session for seven days, on
  -- any world whose tables and cached sessions the login left and whose servers answer. Tokens are read
  -- back as they were signed until they expire, and UUIDs as they were printed.
  pub ws_handler-login_handler :
      (verify_password : String → String → Option Bool) (encode : Claims → Option String)
      (connected : Bool) (p : AuthRequest) (d : Drawn) (g v : Gate) (r : AuthResponse) (now : ℕ)
      → ((c : Claims) (t : String) (at : ℕ)
          → encode c ≡ some t
          → at ≤ c.exp
          → decode_token at t ≡ some c)
      → ((id : Uuid) → parse_uuid (format_uuid id) ≡ some id)
      → (login_handler encode format_uuid connected verify_password p d g).0 ≡ json 200 r
      → v.world.db ≡ (login_handler encode format_uuid connected verify_password p d g).1.world.db
      → v.cache.entries
        ≡ (login_handler encode format_uuid connected verify_password p d g).1.cache.entries
      → v.world.outages ≡ []
      → v.cache.outages ≡ []
      → now ≤ d.seconds + token_lifetime
      → (ws_handler decode_token parse_uuid format_uuid true now r.token v).0
        ≡ upgraded p.username d.session_id
  unfolding ws_handler get select_valid query
  ws_handler-login_handler verify_password encode connected p d g v r now decodes parses done tables
        entries calm quiet in_time =
      let l = login_handler-IsLoggedIn verify_password encode format_uuid connected p d g r done in
      let valid = IsCreated-valid p d g.world.db _ l.created in
      let row =
        subst (λ b. valid_of (find (λ s. s.id == d.session_id) b.sessions) ≡ some true) (sym tables)
          valid in
      let decoded = decodes (login_claims format_uuid p d) r.token now l.signed in_time in
      let parsed = parses d.session_id in
      elim (Option-cases (v.cache.entries (session_key (format_uuid d.session_id)))) [
        | inl miss ↦ ground arith
        | inr (value, hit) ↦ ground arith
      ]

  -- After a logout whose calls succeed, a token of the session is refused at the WebSocket, where its
  -- session id is spelled as UUIDs are printed.
  pub ws_handler-logout_handler :
      (user : Claims) (id : Uuid) (now : ℕ) (token : String) (g : Gate)
      → decode_token now token ≡ some user
      → parse_uuid user.session_id ≡ some id
      → user.session_id ≡ format_uuid id
      → g.world.outages ≡ []
      → g.cache.outages ≡ []
      → (ws_handler decode_token parse_uuid format_uuid true now token
          (logout_handler parse_uuid true user g).1).0
        ≡ refused 401 "Session invalid or expired"
  unfolding ws_handler get select_valid logout_handler del invalidate query
  ws_handler-logout_handler user id now token g decoded parsed spelled calm quiet =
      let key = session_key user.session_id in
      ground (arith, ==_refl key, invalidated-valid_of id g.world.db.sessions)
