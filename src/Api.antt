-- ===== src/Api.antt =====
-- The HTTP service of the crate api: a handler returns a reply and the world after it. A handler that
-- takes AuthenticatedUser is given the claims of its token.
pub mod Token
pub mod Accounts
pub mod Backup
pub mod Keys
pub mod Messages
pub mod ReadStates
pub mod MarkRead
pub mod Dialogs
pub mod Files
pub mod Worker
use invisible_backend.Prelude.{ℕ, String, ◌≡◌, refl, ◌<◌, arith, if◌then◌else◌, Bool}
use invisible_backend.Postgres.{World, DbError, Result, ok, err, Exec}

-- A status with a text or a JSON body, as `into_response` builds it.
pub data Reply (A : Type 0) : Type 0 where
  text : (status : ℕ) (body : String) → Reply A
  json : (status : ℕ) (body : A) → Reply A

-- An early `return` and the last expression both answer the request.
abbrev pub Handler : Type 0 → Type 0
Handler A = Exec (Reply A) (Reply A)

abbrev answer {ℓ} : {R : Type ℓ} → Result R R × World → R × World
answer (ok r, w) = (r, w)
answer (err r, w) = (r, w)

abbrev pub respond : {A : Type 0} → Handler A → World → Reply A × World
respond h w = answer (h w)

answer-world {ℓ} : {R : Type ℓ} (r : Result R R) (w : World) → (answer (r, w)).1 ≡ w
answer-world (ok r) w = refl
answer-world (err r) w = refl

pub respond-world : {A : Type 0} (h : Handler A) (w : World) → (respond h w).1 ≡ (h w).1
respond-world h w = answer-world (h w).0 (h w).1

abbrev pub database_error : {A : Type 0} → DbError → Reply A
database_error e = text 500 "Database error"

-- An answer with an error status.
abbrev pub IsRefusal : {A : Type 0} → Reply A → Type 0
IsRefusal (text status why) = 399 < status
IsRefusal (json status body) = ⊥

-- An error status is none of the answers below 400.
pub not-IsRefusal :
    {A : Type 0} (r : Reply A) (status : ℕ) (body : String)
    → r ≡ text status body
    → status < 400
    → ¬ IsRefusal r
not-IsRefusal (text s b) status body e low h = ground arith
not-IsRefusal (json s b) status body e low h = h

-- the checks that a handler makes before it touches the database
abbrev pub Check : Type 0
Check = Result (Reply (Unit {0})) (Unit {0})

infixl 5 ◌>>◌
abbrev pub ◌>>◌ : Check → Check → Check
ok _ >> next = next
err r >> next = err r

-- `if test { return (StatusCode::BAD_REQUEST, why) }`
abbrev pub refuse_if : Bool → String → Check
refuse_if test why = if test then err (text 400 why) else ok tt
