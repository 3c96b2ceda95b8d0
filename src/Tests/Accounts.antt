-- ===== src/Tests/Accounts.antt =====
-- api/src/lib.rs: Carol registers, Alice logs in and out.
use invisible_backend.Postgres.Schema.{has_session, has_user}
use Prim.Native.String.{◌++◌ as append}
use invisible_backend.Prelude.{
  [], suc, zero, none, some, true, refl, if◌then◌else◌, ◌==◌, ◌≡◌, ◌&&◌, ℕ, String, Option, Bool,
  ap, arith, string_eq, ltb, nat_eq, inl, inr, and-eq-true_iff, Bool-cases, sym, subst, eq_of_==,
  leb, ◌≤◌, ◌↔◌,
}
use invisible_backend.Postgres.{ok, query, ◌>>=◌}
use invisible_backend.Api.Accounts.Username.{check_account}
use invisible_backend.Api.Accounts.{
  insert_session, select_user, create_session, AuthRequest, register_handler, Drawn, login_claims,
  login_handler, logout_handler,
}
use invisible_backend.Models.{Claims}
use invisible_backend.Sessions.{set_ex, Gate}
use invisible_backend.Api.Accounts.Life.{IsLoggedIn, login_handler-IsLoggedIn}
use invisible_backend.Api.{Reply}
use invisible_backend.Api.Keys.Devices.{
  delete_device_at, delete_device, select_owned, delete_session,
}
use invisible_backend.Api.Keys.Devices.Delete.{IsGone}
use invisible_backend.Relay.Upgrade.Revoked.{ws_handler-delete_device}
use invisible_backend.Relay.Upgrade.{ws_handler, upgraded, refused}
use invisible_backend.Tests.{sample, alice, parse_uuid, format_uuid}
use invisible_backend.Api.Accounts.Registered.{
  Outcome, IsAccount, check_account_iff, register_handler-Outcome,
}
use invisible_backend.Api.Accounts.Admission.{ws_handler-login_handler, ws_handler-logout_handler}

abbrev is_whitespace : ℕ → Bool
is_whitespace c = c == 32

abbrev is_alphanumeric : ℕ → Bool
is_alphanumeric c = ltb 96 c && ltb c 123

abbrev hash_password : String → String → Option String
hash_password password salt = some (append salt password)

abbrev carol : AuthRequest
carol = record { username = "carol"; password = "password"; device_info = none }

register_handler-Outcome_example :
    let (r, w') =
      register_handler is_whitespace is_alphanumeric hash_password carol "salt" sample in
    Outcome is_whitespace is_alphanumeric hash_password carol "salt" r sample.db w'.db
register_handler-Outcome_example =
    register_handler-Outcome is_whitespace is_alphanumeric hash_password carol "salt" sample

check_account_iff_example :
    (check_account is_whitespace is_alphanumeric " carol " "password" ≡ ok tt)
    ↔ IsAccount is_whitespace is_alphanumeric " carol " "password"
check_account_iff_example = check_account_iff is_whitespace is_alphanumeric " carol " "password"

-- UUIDs are spelled in unary here.
abbrev unary : ℕ → String
unary zero = ""
unary (suc n) = String.◌∷◌ "x" (unary n)

abbrev suc_of : Option ℕ → Option ℕ
suc_of none = none
suc_of (some n) = some (suc n)

abbrev parse_unary : String → Option ℕ
parse_unary String.[] = some 0
parse_unary (String.◌∷◌ c s) = suc_of (parse_unary s)

parse_unary-unary : (n : ℕ) → parse_unary (unary n) ≡ some n
parse_unary-unary zero = refl
parse_unary-unary (suc n) = ap suc_of (parse_unary-unary n)

abbrev login : AuthRequest
login = record { username = "alice"; password = "x"; device_info = none }

abbrev drawn : Drawn
drawn = record { session_id = 4; refresh_token = "r"; seconds = 0 }

abbrev verify_password : String → String → Option Bool
verify_password password hash = some (password == hash)

abbrev signed : Claims
signed = login_claims unary login drawn

abbrev is_signed : Claims → Bool
is_signed c =
    (c.sub == signed.sub) && ((c.session_id == signed.session_id) && (c.exp == signed.exp))

-- One token is signed, and read back until it expires.
abbrev encode : Claims → Option String
encode c = if is_signed c then some "token" else none

abbrev decode_token : ℕ → String → Option Claims
decode_token now t = if t == "token" && leb now signed.exp then some signed else none

is_signed-eq : (c : Claims) → is_signed c ≡ true → signed ≡ c
is_signed-eq c h =
    let (name, rest) = (and-eq-true_iff (c.sub == signed.sub) _).0 h in
    let (id, time) =
      (and-eq-true_iff (c.session_id == signed.session_id) (c.exp == signed.exp)).0 rest in
    λ i. record {
      sub = sym (eq_of_== c.sub signed.sub name) i;
      session_id = sym (eq_of_== c.session_id signed.session_id id) i;
      exp = sym (eq_of_== c.exp signed.exp time) i;
    }

decode_token-encode :
    (c : Claims) (t : String) (at : ℕ) → encode c ≡ some t → at ≤ c.exp → decode_token at t ≡ some c
decode_token-encode c t at h in_time = elim (Bool-cases (is_signed c)) [
  | inl same ↦
      let token : "token" ≡ t = ground arith in
      let late : at ≤ signed.exp =
        subst (λ e. at ≤ e) (ap (λ x. x.exp) (sym (is_signed-eq c same))) in_time in
      subst (λ x. decode_token at x ≡ some c) token (ground (arith, late, is_signed-eq c same))
  | inr other ↦ absurd (ground arith)
]

abbrev gate : Gate
gate = record { world = sample; cache = record { entries = λ k. none; outages = [] } }

abbrev after_login : Gate
after_login = (login_handler encode unary true verify_password login drawn gate).1

login_handler-IsLoggedIn_example :
    IsLoggedIn verify_password encode unary true login drawn "token" gate after_login
unfolding login_handler create_session ◌>>=◌ query select_user insert_session has_session has_user
login_handler-IsLoggedIn_example =
    login_handler-IsLoggedIn verify_password encode unary true login drawn gate
      (record { token = "token" }) refl

ws_handler-login_handler_example :
    (ws_handler decode_token parse_unary unary true 60 "token" after_login).0 ≡ upgraded "alice" 4
unfolding login_handler create_session ◌>>=◌ query select_user insert_session has_session has_user
    set_ex
ws_handler-login_handler_example =
    ws_handler-login_handler decode_token parse_unary unary verify_password encode true login drawn
      gate after_login (record { token = "token" }) 60 decode_token-encode parse_unary-unary refl
      refl refl refl refl (omega arith)

-- The session of the login is deleted like a device.
abbrev after_deletion : Reply (Unit {0}) × Gate
after_deletion = delete_device_at alice 4 after_login

ws_handler-delete_device_example :
    IsGone 4 "alice" after_deletion.1.world.db
    × ((ws_handler decode_token parse_unary unary true 60 "token" after_deletion.1).0
        ≡ upgraded "alice" 4)
unfolding login_handler create_session ◌>>=◌ query select_user insert_session has_session has_user
    set_ex delete_device_at delete_device select_owned delete_session
ws_handler-delete_device_example =
    ws_handler-delete_device decode_token parse_unary unary verify_password encode login drawn gate
      (record { token = "token" }) alice 60 decode_token-encode parse_unary-unary refl refl refl
      (omega arith)

abbrev token_of_alice : ℕ → String → Option Claims
token_of_alice now t = if t == "token" then some alice else none

ws_handler-logout_handler_example :
    (ws_handler token_of_alice parse_uuid format_uuid true 60 "token"
      (logout_handler parse_uuid true alice gate).1).0
    ≡ refused 401 "Session invalid or expired"
ws_handler-logout_handler_example =
    ws_handler-logout_handler token_of_alice parse_uuid format_uuid alice 1 60 "token" gate refl
      refl refl refl refl
