-- ===== src/Api/Accounts.antt =====
-- api/src/lib.rs: accounts and their sessions (register_handler, login_handler, logout_handler). The
-- parameters are argon2, the signer of tokens, the printer and the parser of UUIDs, and what the
-- operating system draws: the salt, the UUIDs and the time.
pub mod Username
pub mod Registered
pub mod Spaces
pub mod Life
pub mod Admission
use invisible_backend.Prelude.{
  ℕ, ◌+◌, ◌*◌, String, Bool, true, false, [], ◌∷◌, ◌++◌, map, Option, none, some, find, any, ◌==◌,
  string_eq, nat_eq, if◌then◌else◌,
}
use invisible_backend.Models.{Claims, DeviceInfo}
use invisible_backend.Postgres.{
  World, DbError, Result, ok, err, Sql, Exec, query, ◌>>=◌, ◌>>◌, pure, throw, same_error,
  unique_violation, foreign_key_violation,
}
use invisible_backend.Postgres.Schema.{User, Session, Uuid, has_user, has_session}
use invisible_backend.Sessions.{Cache, Gate, session_key, set_ex, del}
use invisible_backend.Api.{Reply, text, json, Check, respond}
use Username.{check_account}

-- DeviceInfoPayload has the fields of DeviceInfo.
pub record AuthRequest : Type 0 where
  pub username : String
  pub password : String
  pub device_info : Option DeviceInfo

pub record AuthResponse : Type 0 where
  pub token : String

abbrev pub internal_error : {A : Type 0} → DbError → Reply A
internal_error e = text 500 "Internal server error"

-- `Err(sqlx::Error::Database(err)) if err.is_unique_violation()`, and any other error
abbrev pub register_error : DbError → Reply (Unit {0})
register_error unique_violation = text 409 "Username already exists"
register_error e = internal_error e

-- INSERT INTO users (username, password_hash) VALUES ($1, $2)
unfoldable pub insert_user : User → Sql (Unit {0})
insert_user u db =
    if has_user db u.username
    then err unique_violation
    else ok (tt, record db { users = db.users ++ u ∷ [] })

abbrev pub passed : Check → Exec (Reply (Unit {0})) (Unit {0})
passed (ok a) = pure a
passed (err r) = throw r

abbrev pub some_or : {R A : Type 0} → R → Option A → Exec R A
some_or r none = throw r
some_or r (some a) = pure a

module _ (is_whitespace is_alphanumeric : ℕ → Bool)
    (hash_password : String → String → Option String) where
  -- `salt` is the one drawn for this request
  unfoldable pub register_handler : AuthRequest → String → World → Reply (Unit {0}) × World
  register_handler payload salt = respond (do
    passed (check_account is_whitespace is_alphanumeric payload.username payload.password)
    hash ← some_or (text 500 "Internal server error") (hash_password payload.password salt)
    query register_error
        (insert_user (record { username = payload.username; password_hash = hash }))
    pure (text 201 "User created successfully"))

-- SELECT id, password_hash FROM users WHERE username = $1
unfoldable pub select_user : String → Sql (Option User)
select_user username db = ok (find (λ u. u.username == username) db.users, db)

abbrev pub field_of : Option DeviceInfo → (DeviceInfo → String) → Option String
field_of none f = none
field_of (some info) f = some (f info)

abbrev pub session_row : AuthRequest → Uuid → String → ℕ → Session
session_row payload session_id refresh_token now = record {
  id = session_id;
  user_username = payload.username;
  device_name = field_of payload.device_info (λ i. i.device_name);
  device_model = field_of payload.device_info (λ i. i.device_model);
  platform = field_of payload.device_info (λ i. i.platform);
  hwid = field_of payload.device_info (λ i. i.hwid);
  refresh_token = refresh_token;
  created_at = now;
  last_accessed_at = now;
  is_valid = true;
}

-- INSERT INTO sessions …, with the device's columns or without
unfoldable pub insert_session : AuthRequest → Uuid → String → Sql (Unit {0})
insert_session payload session_id refresh_token db =
    if has_session db session_id
    then err unique_violation
    else if any (λ s. s.refresh_token == refresh_token) db.sessions
    then err unique_violation
    else if has_user db payload.username
    then ok (
      tt,
      record db {
        sessions = db.sessions ++ session_row payload session_id refresh_token db.now ∷ [];
      },
    )
    else err foreign_key_violation

-- days(7), in seconds
abbrev pub token_lifetime : ℕ
token_lifetime = 7 * 24 * 60 * 60

-- what a login draws: its session's id, the refresh token, and the time in seconds
pub record Drawn : Type 0 where
  pub session_id : Uuid
  pub refresh_token : String
  pub seconds : ℕ

abbrev pub when_connected : Bool → (Cache → Cache) → Cache → Cache
when_connected true command c = command c
when_connected false command c = c

module _ (verify_password : String → String → Option Bool) where
  -- by what `verify_password` says; `none` is a stored hash that does not parse
  abbrev pub with_verdict : AuthRequest → Drawn → Option Bool → Exec (Reply AuthResponse) (Unit {0})
  with_verdict payload d none = throw (text 500 "Internal server error")
  with_verdict payload d (some false) = throw (text 401 "Invalid username or password")
  with_verdict payload d (some true) =
      query internal_error (insert_session payload d.session_id d.refresh_token)

  abbrev pub with_row : AuthRequest → Drawn → Option User → Exec (Reply AuthResponse) (Unit {0})
  with_row payload d none = throw (text 401 "Invalid username or password")
  with_row payload d (some u) =
      with_verdict payload d (verify_password payload.password u.password_hash)

  unfoldable pub create_session : AuthRequest → Drawn → Exec (Reply AuthResponse) (Unit {0})
  create_session payload d = do
    row ← query internal_error (select_user payload.username)
    with_row payload d row

abbrev pub login_claims : (Uuid → String) → AuthRequest → Drawn → Claims
login_claims format_uuid payload d = record {
  sub = payload.username;
  session_id = format_uuid d.session_id;
  exp = d.seconds + token_lifetime;
}

abbrev pub token_reply : Option String → Reply AuthResponse
token_reply none = text 500 "Internal server error"
token_reply (some t) = json 200 (record { token = t })

module _ (encode : Claims → Option String) (format_uuid : Uuid → String) (connected : Bool) where
  abbrev pub after_session :
      AuthRequest
      → Drawn
      → Cache
      → Result (Reply AuthResponse) (Unit {0}) × World
      → Reply AuthResponse × Gate
  after_session payload d c (err r, w) = (r, record { world = w; cache = c })
  after_session payload d c (ok _, w) = (
    token_reply (encode (login_claims format_uuid payload d)),
    record {
      world = w;
      cache = when_connected connected (set_ex (session_key (format_uuid d.session_id)) "valid") c;
    },
  )

  unfoldable pub login_handler :
      (String → String → Option Bool) → AuthRequest → Drawn → Gate → Reply AuthResponse × Gate
  login_handler verify_password payload d g =
      after_session payload d g.cache (create_session verify_password payload d g.world)

abbrev pub invalidated : Uuid → Session → Session
invalidated id s = if s.id == id then record s { is_valid = false } else s

-- UPDATE sessions SET is_valid = false WHERE id = $1
unfoldable pub invalidate : Uuid → Sql (Unit {0})
invalidate id db = ok (tt, record db { sessions = map (invalidated id) db.sessions })

module _ (parse_uuid : String → Option Uuid) (connected : Bool) where
  abbrev pub invalidate_parsed : Option Uuid → World → World
  invalidate_parsed none w = w
  invalidate_parsed (some id) w = (query same_error (invalidate id) w).1

  unfoldable pub logout_handler : Claims → Gate → Reply (Unit {0}) × Gate
  logout_handler user g = (
    text 200 "Logged out successfully",
    record {
      world = invalidate_parsed (parse_uuid user.session_id) g.world;
      cache = when_connected connected (del (session_key user.session_id)) g.cache;
    },
  )
