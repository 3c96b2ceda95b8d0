-- ===== src/Api/Accounts/Username.antt =====
-- api/src/lib.rs: the checks of register_handler. Which code points are white space and which are
-- letters or digits are the parameters `is_whitespace` and `is_alphanumeric`.
use Prim.Native.Char.{Char, code}
use Prim.Native.String.{len}
use invisible_backend.Prelude.{
  ℕ, String, Bool, true, ◌&&◌, ◌||◌, not, ltb, ◌==◌, nat_eq, string_eq, if◌then◌else◌,
}
use invisible_backend.Api.{Check, ◌>>◌, refuse_if}

abbrev pub username_min_len : ℕ
username_min_len = 3

abbrev pub username_max_len : ℕ
username_max_len = 32

abbrev pub password_min_len : ℕ
password_min_len = 8

module _ (is_whitespace : ℕ → Bool) where
  unfoldable pub trim_start : String → String
  trim_start String.[] = String.[]
  trim_start (String.◌∷◌ c s) =
      let rest = trim_start s in if is_whitespace (code c) then rest else String.◌∷◌ c s

  -- a character before what is left of the text behind it
  abbrev pub before_end : Char → String → String
  before_end c String.[] = if is_whitespace (code c) then String.[] else String.◌∷◌ c String.[]
  before_end c (String.◌∷◌ d s) = String.◌∷◌ c (String.◌∷◌ d s)

  unfoldable pub trim_end : String → String
  trim_end String.[] = String.[]
  trim_end (String.◌∷◌ c s) = before_end c (trim_end s)

  -- `payload.username.trim()`
  unfoldable pub trim : String → String
  trim s = trim_end (trim_start s)

module _ (is_alphanumeric : ℕ → Bool) where
  -- `username.chars().all(|c| c.is_alphanumeric() || c == '_')`
  unfoldable pub all_allowed : String → Bool
  all_allowed String.[] = true
  all_allowed (String.◌∷◌ c s) = (is_alphanumeric (code c) || code c == b'_') && all_allowed s

abbrev pub is_empty : String → Bool
is_empty s = len s == 0

module _ (is_whitespace is_alphanumeric : ℕ → Bool) where
  unfoldable pub check_account : String → String → Check
  check_account name password =
      let username = trim is_whitespace name in
      refuse_if (ltb (len username) username_min_len || ltb username_max_len (len username))
        "Username must be 3 to 32 characters"
      >> refuse_if (not (all_allowed is_alphanumeric username))
          "Username can only contain letters, numbers, and underscores"
      >> refuse_if (ltb (len password) password_min_len) "Password must be at least 8 characters"
      >> refuse_if (is_empty name || is_empty password) "Username and password are required"
