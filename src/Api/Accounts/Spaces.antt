-- ===== src/Api/Accounts/Spaces.antt =====
-- api/src/lib.rs: names that differ in their spaces alone.
use Prim.Native.Char.{Char, code}
use invisible_backend.Api.{text}
use invisible_backend.Prelude.{ℕ, [], some, true, false, ◌≡◌, Bool, String, Option, arith, ap}
use invisible_backend.Postgres.{◌>>=◌, ok, query}
use invisible_backend.Api.Accounts.Username.{check_account, trim, trim_start, trim_end}
use invisible_backend.Api.Accounts.Registered.{check_account_iff, IsAccount}
use invisible_backend.Api.Accounts.{register_handler, insert_user, AuthRequest}
use invisible_backend.Postgres.Schema.{Database, has_user}

module _ (is_whitespace : ℕ → Bool) where
  trim_start-space :
      (c : Char) (s : String)
      → is_whitespace (code c) ≡ true
      → trim_start is_whitespace (String.◌∷◌ c s) ≡ trim_start is_whitespace s
  unfolding trim_start
  trim_start-space c s space = ground arith

module _ (is_whitespace is_alphanumeric : ℕ → Bool) where
  -- A leading space changes nothing for the checks, unless they refuse the whole request as empty.
  check_account-space :
      (c : Char) (name password : String)
      → is_whitespace (code c) ≡ true
      → check_account is_whitespace is_alphanumeric name password ≡ ok tt
      → check_account is_whitespace is_alphanumeric (String.◌∷◌ c name) password ≡ ok tt
  unfolding trim
  check_account-space c name password space h =
      let a = (check_account_iff is_whitespace is_alphanumeric name password).0 h in
      let same : trim is_whitespace (String.◌∷◌ c name) ≡ trim is_whitespace name =
        ap (trim_end is_whitespace) (trim_start-space is_whitespace c name space) in
      (check_account_iff is_whitespace is_alphanumeric (String.◌∷◌ c name) password).1 (record {
        long = rw same a.long;
        short = rw same a.short;
        allowed = rw same a.allowed;
        secret = a.secret;
      })

  module _ (hash_password : String → String → Option String) where
    -- Whenever a name and a password pass the checks, a server that answers registers the same name
    -- with white space in front as another user, whoever has the name without it.
    pub register_handler-space :
        (p : AuthRequest) (c : Char) (salt hash : String) (db : Database)
        → is_whitespace (code c) ≡ true
        → IsAccount is_whitespace is_alphanumeric p.username p.password
        → hash_password p.password salt ≡ some hash
        → has_user db (String.◌∷◌ c p.username) ≡ false
        → (register_handler is_whitespace is_alphanumeric hash_password
            (record p { username = String.◌∷◌ c p.username })
            salt
            (record { db = db; outages = [] })).0
          ≡ text 201 "User created successfully"
    unfolding register_handler insert_user query ◌>>=◌
    register_handler-space p c salt hash db space account hashed fresh =
        let good =
          check_account-space c p.username p.password space
            ((check_account_iff is_whitespace is_alphanumeric p.username p.password).1 account) in
        ground arith
