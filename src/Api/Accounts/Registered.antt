-- ===== src/Api/Accounts/Registered.antt =====
-- api/src/lib.rs: which accounts register_handler makes.
use Prim.Native.Char.{Char, len_utf8, len_utf8_def}
use Prim.Native.String.len
use invisible_backend.Api.{text}
use invisible_backend.Postgres.{
  unavailable, unique_violation, foreign_key_violation, negative_limit, type_mismatch,
  integer_out_of_range,
}
use Prim.Native.String.{len}
use invisible_backend.Prelude.{
  ℕ, [], ◌∷◌, inl, inr, some, true, false, ◌≡◌, ◌++◌, Bool, String, ◌≤◌, ◌↔◌, Option, arith,
  Option-cases, refl, subst, sym, ◌<◌, ◌⊎◌,
}
use invisible_backend.Postgres.{ok, err, DbError, ◌>>=◌, World, query}
use invisible_backend.Api.Accounts.Username.{trim, check_account, all_allowed, trim_start, trim_end}
use invisible_backend.Api.{Reply, IsRefusal}
use invisible_backend.Api.Accounts.{AuthRequest, insert_user, register_handler, register_error}
use invisible_backend.Postgres.Schema.{Database, User, has_user}
use invisible_backend.Postgres.Rules.{Result-cases, query-ok, Fails-query, query-err}

len_utf8_pos : (c : Char) → 0 < len_utf8 c
len_utf8_pos c = rw (len_utf8_def c) (ground arith)

module _ (is_whitespace is_alphanumeric : ℕ → Bool) where
  -- The trimmed name has 3 to 32 bytes, all letters, digits or underscores, and the password has 8
  -- bytes at least.
  pub record IsAccount (name password : String) : Type 0 where
    pub long : 3 ≤ len (trim is_whitespace name)
    pub short : len (trim is_whitespace name) ≤ 32
    pub allowed : all_allowed is_alphanumeric (trim is_whitespace name) ≡ true
    pub secret : 8 ≤ len password

  trim_empty : (s : String) → len s ≡ 0 → len (trim is_whitespace s) ≡ 0
  unfolding trim trim_start trim_end
  trim_empty String.[] h = refl
  trim_empty (String.◌∷◌ c s) h = absurd (omega (arith, len.cons c s, len_utf8_pos c))

  -- The checks of a registration pass exactly the names that are, trimmed, 3 to 32 bytes long with no
  -- character that is not allowed, with passwords of at least 8 bytes; the check for an empty name refuses
  -- nothing that the others pass.
  pub check_account_iff :
      (name password : String)
      → (check_account is_whitespace is_alphanumeric name password ≡ ok tt)
        ↔ IsAccount name password
  unfolding check_account
  check_account_iff name password =
      let empty = trim_empty name in (λ h. ground arith, λ h. ground arith)

  check_account-IsRefusal :
      (name password : String) (r : Reply (Unit {0}))
      → check_account is_whitespace is_alphanumeric name password ≡ err r
      → IsRefusal r
  unfolding check_account
  check_account-IsRefusal name password r h = ground arith

  module _ (hash_password : String → String → Option String) where
    -- A new user, under the name as it was sent, after the others, and no other change.
    pub record IsRegistered (p : AuthRequest) (salt : String) (d d' : Database) : Type 0 where
      pub account : IsAccount p.username p.password
      pub fresh : has_user d p.username ≡ false
      pub hash : String
      pub hashed : hash_password p.password salt ≡ some hash
      pub added : d' ≡ record d {
        users = d.users ++ record { username = p.username; password_hash = hash } ∷ [];
      }

    abbrev pub Outcome : AuthRequest → String → Reply (Unit {0}) → Database → Database → Type 0
    Outcome p salt r d d' =
        ((r ≡ text 201 "User created successfully") × IsRegistered p salt d d')
        ⊎ (IsRefusal r × (d' ≡ d))

    insert_user-ok :
        (u : User) (d d' : Database) (x : Unit {0})
        → insert_user u d ≡ ok (x, d')
        → (has_user d u.username ≡ false) × (d' ≡ record d { users = d.users ++ u ∷ [] })
    unfolding insert_user
    insert_user-ok u d d' x h = ground arith

    register_error-IsRefusal : (e : DbError) → IsRefusal (register_error e)
    register_error-IsRefusal unavailable = omega arith
    register_error-IsRefusal unique_violation = omega arith
    register_error-IsRefusal foreign_key_violation = omega arith
    register_error-IsRefusal negative_limit = omega arith
    register_error-IsRefusal type_mismatch = omega arith
    register_error-IsRefusal integer_out_of_range = omega arith

    -- An answer of 201 was to a name and a password that pass the checks, whose name, spaces included, no
    -- user had; and it put the user after the others, with the hash of the password, and touched no
    -- other table. Every other answer has an error status and leaves all tables as they were.
    pub register_handler-Outcome :
        (p : AuthRequest) (salt : String) (w : World)
        → let (r, w') = register_handler is_whitespace is_alphanumeric hash_password p salt w in
          Outcome p salt r w.db w'.db
    unfolding register_handler ◌>>=◌
    register_handler-Outcome p salt w =
        let answer = register_handler is_whitespace is_alphanumeric hash_password p salt w in
        let says = λ (x : Reply (Unit {0}) × World). Outcome p salt x.0 w.db x.1.db in
        elim (Result-cases (check_account is_whitespace is_alphanumeric p.username p.password)) [
          | inr (r, refused) ↦
              let e : answer ≡ (r, w) = ground arith in
              subst says (sym e)
                (inr (check_account-IsRefusal p.username p.password r refused, refl))
          | inl (_, good) ↦ elim (Option-cases (hash_password p.password salt)) [
            | inl unhashed ↦
                let e : answer ≡ (text 500 "Internal server error", w) = ground arith in
                subst says (sym e) (inr (omega arith, refl))
            | inr (hash, hashed) ↦
                let u : User = record { username = p.username; password_hash = hash } in
                let call = query register_error (insert_user u) in
                elim (Result-cases (call w).0) [
                  | inl (x, done) ↦
                      let e : answer ≡ (text 201 "User created successfully", (call w).1) =
                        ground arith in
                      let (fresh, added) =
                        insert_user-ok u w.db (call w).1.db x
                          (query-ok register_error (insert_user u) w x done) in
                      subst says (sym e) (
                        inl (
                          refl,
                          record {
                            account = (check_account_iff p.username p.password).0 good;
                            fresh = fresh;
                            hash = hash;
                            hashed = hashed;
                            added = added;
                          },
                        ))
                  | inr (r, failed) ↦
                      let e : answer ≡ (r, (call w).1) = ground arith in
                      subst says (sym e) (
                        inr (
                          (Fails-query IsRefusal register_error (insert_user u)
                                register_error-IsRefusal).at
                              w r failed,
                          query-err register_error (insert_user u) w r failed,
                        ))
                ]
          ]
        ]
