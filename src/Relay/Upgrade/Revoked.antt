-- ===== src/Relay/Upgrade/Revoked.antt =====
-- relay/src/lib.rs with api/src/lib.rs and api/src/e2ee.rs: a device that is deleted after its login.
use invisible_backend.Prelude.{
  String, Option, some, true, ◌≡◌, arith, ℕ, ◌≤◌, ◌+◌, [], Bool, ap, ==_refl, ◌∙◌, string_eq,
}
use invisible_backend.Models.{Claims}
use invisible_backend.Postgres.Schema.{Uuid}
use invisible_backend.Api.{text, json}
use invisible_backend.Api.Accounts.{
  AuthRequest, Drawn, AuthResponse, login_handler, login_claims, token_lifetime,
}
use invisible_backend.Api.Accounts.Life.{login_handler-IsLoggedIn}
use invisible_backend.Api.Keys.Devices.{delete_device_at}
use invisible_backend.Api.Keys.Devices.Delete.{IsGone, delete_device-IsGone}
use invisible_backend.Relay.Upgrade.{ws_handler, upgraded}
use invisible_backend.Sessions.{Gate, get, session_key, set_ex, Cache}

get-set_ex :
    (key value : String) (c : Cache)
    → c.outages ≡ []
    → (get key (set_ex key value c)).0 ≡ some value
unfolding get set_ex
get-set_ex key value c quiet = ground (arith, ==_refl key)

module _ (decode_token : ℕ → String → Option Claims) (parse_uuid : String → Option Uuid)
    (format_uuid : Uuid → String) where
  -- After a login with a Redis that answers, and the deletion of its device, no row of the session is left,
  -- and yet the token of the login opens a WebSocket until it expires, with the session that the login has
  -- cached. Tokens are read back as they were signed until they expire, and UUIDs as they were printed.
  pub ws_handler-delete_device :
      (verify_password : String → String → Option Bool) (encode : Claims → Option String)
      (p : AuthRequest) (d : Drawn) (g : Gate) (r : AuthResponse) (user : Claims) (now : ℕ)
      → ((c : Claims) (t : String) (at : ℕ)
          → encode c ≡ some t
          → at ≤ c.exp
          → decode_token at t ≡ some c)
      → ((id : Uuid) → parse_uuid (format_uuid id) ≡ some id)
      → g.cache.outages ≡ []
      → let after = login_handler encode format_uuid true verify_password p d g in
        after.0 ≡ json 200 r
        → let deleted = delete_device_at user d.session_id after.1 in
          deleted.0 ≡ text 200 "Device deleted successfully"
          → now ≤ d.seconds + token_lifetime
          → IsGone d.session_id user.sub deleted.1.world.db
            × ((ws_handler decode_token parse_uuid format_uuid true now r.token deleted.1).0
                ≡ upgraded p.username d.session_id)
  unfolding ws_handler delete_device_at
  ws_handler-delete_device verify_password encode p d g r user now decodes parses quiet done gone
        in_time =
      let after = login_handler encode format_uuid true verify_password p d g in
      let l = login_handler-IsLoggedIn verify_password encode format_uuid true p d g r done in
      let (s, found, left) = delete_device-IsGone user d.session_id after.1.world gone in
      let decoded = decodes (login_claims format_uuid p d) r.token now l.signed in_time in
      let parsed = parses d.session_id in
      let key = session_key (format_uuid d.session_id) in
      let hit : (get key after.1.cache).0 ≡ some "valid" =
        ap (λ c. (get key c).0) l.cached ∙ get-set_ex key "valid" g.cache quiet in
      (left, ground arith)
