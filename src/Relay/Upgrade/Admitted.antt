-- ===== src/Relay/Upgrade/Admitted.antt =====
-- relay/src/lib.rs: what an upgrade proves about its token and session.
use invisible_backend.Prelude.{
  inl, inr, none, some, true, false, refl, ◌==◌, ◌≡◌, String, Option, arith, ◌⊎◌, Bool, find,
  Option-cases, nat_eq, Bool-cases, subst, sym, ℕ,
}
use invisible_backend.Relay.Upgrade.{
  upgraded, valid_of, select_valid, ws_handler, after_select, after_get,
}
use invisible_backend.Postgres.{ok, err, Result, DbError, World, query, same_error}
use invisible_backend.Postgres.Schema.{Uuid}
use invisible_backend.Models.{Claims}
use invisible_backend.Postgres.Rules.{query-ok}
use invisible_backend.Sessions.{Gate, Cache, get, session_key}

-- a session that may connect: it is cached, or its row is there and valid
abbrev pub IsLive : String → Uuid → Gate → Type 0
IsLive key id g =
    ((v : String) × (g.cache.entries key ≡ some v))
    ⊎ (valid_of (find (λ s. s.id == id) g.world.db.sessions) ≡ some true)

after_select-live :
    (user key : String) (id : Uuid) (c : Cache) (r : Result DbError (Option Bool)) (w : World)
    (u : String) (i : Uuid)
    → (after_select user id key c (r, w)).0 ≡ upgraded u i
    → (r ≡ ok (some true)) × (u ≡ user) × (i ≡ id)
after_select-live user key id c (err e) w u i h = absurd (ground arith)
after_select-live user key id c (ok none) w u i h = absurd (ground arith)
after_select-live user key id c (ok (some false)) w u i h = absurd (ground arith)
after_select-live user key id c (ok (some true)) w u i h = (refl, ground arith, ground arith)

get-entries : (key v : String) (c : Cache) → (get key c).0 ≡ some v → c.entries key ≡ some v
unfolding get
get-entries key v c h = ground arith

module _ (decode_token : ℕ → String → Option Claims) (parse_uuid : String → Option Uuid)
    (format_uuid : Uuid → String) (connected : Bool) where
  after_get-IsLive :
      (user : String) (id : Uuid) (g : Gate) (u : String) (i : Uuid)
      → (after_get user id
          (session_key (format_uuid id))
          g.world
          (get (session_key (format_uuid id)) g.cache)).0
        ≡ upgraded u i
      → (u ≡ user) × (i ≡ id) × IsLive (session_key (format_uuid id)) id g
  unfolding select_valid
  after_get-IsLive user id g u i h =
      let key = session_key (format_uuid id) in
      elim (Option-cases (get key g.cache).0) [
        | inr (v, hit) ↦ (ground arith, ground arith, inl (v, get-entries key v g.cache hit))
        | inl miss ↦
            let (r, w) = query same_error (select_valid id) g.world in
            let (valid, same_user, same_id) =
              after_select-live user key id (get key g.cache).1 r w u i (ground arith) in
            let row = query-ok same_error (select_valid id) g.world (some true) valid in
            (same_user, same_id, inr (ground arith))
      ]

  -- A WebSocket is opened only for a token that passes its check at the time, for the user that it names, and for
  -- a session that is cached or whose row is valid, whatever fails on the way.
  pub ws_handler-IsLive :
      (now : ℕ) (token : String) (g : Gate) (u : String) (i : Uuid)
      → (ws_handler decode_token parse_uuid format_uuid connected now token g).0 ≡ upgraded u i
      → (c : Claims) × (decode_token now token ≡ some c)
        × (u ≡ c.sub)
        × (parse_uuid c.session_id ≡ some i)
        × IsLive (session_key (format_uuid i)) i g
  unfolding ws_handler
  ws_handler-IsLive now token g u i h = elim (Option-cases (decode_token now token)) [
    | inl bad ↦ absurd (ground arith)
    | inr (c, decoded) ↦ elim (Option-cases (parse_uuid c.session_id)) [
      | inl bad ↦ absurd (ground arith)
      | inr (id, parsed) ↦ elim (Bool-cases connected) [
        | inr down ↦ absurd (ground arith)
        | inl up ↦
            let (same_user, same_id, live) = after_get-IsLive c.sub id g u i (ground arith) in
            (
              c,
              decoded,
              same_user,
              ground arith,
              subst (λ j. IsLive (session_key (format_uuid j)) j g) (sym same_id) live,
            )
      ]
    ]
  ]
