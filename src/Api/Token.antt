-- ===== src/Api/Token.antt =====
-- api/src/lib.rs, the extractor of AuthenticatedUser: where a request carries its token. The check of a
-- token is the parameter `decode_token`.
pub mod Carried
use Prim.Native.Char.{Char, code}
use Prim.Native.String
use invisible_backend.Prelude.{
  ℕ, String, List, [], ◌∷◌, Option, none, some, ◌==◌, nat_eq, string_eq, if◌then◌else◌,
}
use invisible_backend.Models.{Claims}
use invisible_backend.Postgres.{Result, ok, err}

-- (StatusCode, &'static str)
abbrev pub Rejection : Type 0
Rejection = ℕ × String

-- `val.strip_prefix(prefix)`
unfoldable pub strip_prefix : String → String → Option String
strip_prefix String.[] s = some s
strip_prefix (String.◌∷◌ c p) String.[] = none
strip_prefix (String.◌∷◌ c p) (String.◌∷◌ d s) =
    let rest = strip_prefix p s in if code c == code d then rest else none

abbrev pub onto_first : Char → List String → List String
onto_first c [] = String.◌∷◌ c String.[] ∷ []
onto_first c (p ∷ ps) = String.◌∷◌ c p ∷ ps

-- `text.split(separator)`
unfoldable pub split : ℕ → String → List String
split separator String.[] = String.[] ∷ []
split separator (String.◌∷◌ c s) =
    let rest = split separator s in
    if code c == separator then String.[] ∷ rest else onto_first c rest

-- `parts_iter.next() == Some("token") && let Some(t) = parts_iter.next()`
abbrev pub token_of : List String → Option String
token_of [] = none
token_of (name ∷ []) = none
token_of (name ∷ t ∷ _) = if name == "token" then some t else none

abbrev pub or_later : Option String → Option String → Option String
or_later none later = later
or_later (some t) later = some t

-- `for pair in query.split('&')`, up to its `break`
unfoldable pub first_token : List String → Option String
first_token [] = none
first_token (pair ∷ pairs) = or_later (token_of (split b'=' pair)) (first_token pairs)

abbrev pub text_or_empty : Option String → String
text_or_empty none = ""
text_or_empty (some s) = s

abbrev pub bearer : Option String → Option String
bearer none = none
bearer (some value) = strip_prefix "Bearer " value

module _ (decode_token : String → Option Claims) where
  abbrev pub checked : Option String → Result Rejection Claims
  checked none = err (401, "Missing authorization token")
  checked (some token) = elim (decode_token token) [
    | none ↦ err (401, "Invalid or expired token")
    | some claims ↦ ok claims
  ]

  -- `header` is the Authorization header, where there is one that reads as text
  unfoldable pub from_request_parts : Option String → Option String → Result Rejection Claims
  from_request_parts header query =
      checked (or_later (bearer header) (first_token (split b'&' (text_or_empty query))))
