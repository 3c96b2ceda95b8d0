-- ===== src/Relay/Upgrade.antt =====
-- relay/src/lib.rs, ws_handler: who may open a WebSocket. The parameters are the check of a token at a
-- time (Validation::default() refuses one that has expired), the parser and the printer of UUIDs, and whether Redis takes a connection.
pub mod Admitted
pub mod Revoked
use invisible_backend.Prelude.{
  ℕ, String, Bool, true, Option, none, some, find, ◌==◌, nat_eq, string_eq, if◌then◌else◌,
}
use invisible_backend.Models.{Claims}
use invisible_backend.Postgres.{World, DbError, Result, ok, err, Sql, query, same_error}
use invisible_backend.Postgres.Schema.{Database, Session, Uuid}
use invisible_backend.Sessions.{Cache, Gate, set_ex, expire, session_key, get}

-- A task that sets last_accessed_at of the session is spawned with every upgrade.
pub data Answer : Type 0 where
  refused : (status : ℕ) (body : String) → Answer
  upgraded : (user_id : String) (session_id : Uuid) → Answer

-- SELECT is_valid FROM sessions WHERE id = $1
abbrev pub valid_of : Option Session → Option Bool
valid_of none = none
valid_of (some s) = some s.is_valid

unfoldable pub select_valid : Uuid → Sql (Option Bool)
select_valid id db = ok (valid_of (find (λ s. s.id == id) db.sessions), db)

abbrev pub after_select :
    String → Uuid → String → Cache → Result DbError (Option Bool) × World → Answer × Gate
after_select user_id id key c (err e, w) =
    (refused 500 "Database error", record { world = w; cache = c })
after_select user_id id key c (ok (some true), w) =
    (upgraded user_id id, record { world = w; cache = set_ex key user_id c })
after_select user_id id key c (ok _, w) =
    (refused 401 "Session invalid or expired", record { world = w; cache = c })

abbrev pub after_get : String → Uuid → String → World → Option String × Cache → Answer × Gate
after_get user_id id key w (some _, c) =
    (upgraded user_id id, record { world = w; cache = expire c })
after_get user_id id key w (none, c) =
    after_select user_id id key c (query same_error (select_valid id) w)

module _ (decode_token : ℕ → String → Option Claims) (parse_uuid : String → Option Uuid)
    (format_uuid : Uuid → String) (connected : Bool) where
  abbrev pub after_parse : String → Option Uuid → Gate → Answer × Gate
  after_parse user_id none g = (refused 401 "Invalid session ID format", g)
  after_parse user_id (some id) g =
      let key = session_key (format_uuid id) in
      if connected
      then after_get user_id id key g.world (get key g.cache)
      else (refused 500 "Redis connection error", g)

  abbrev pub after_decode : Option Claims → Gate → Answer × Gate
  after_decode none g = (refused 401 "Invalid or expired token", g)
  after_decode (some claims) g = after_parse claims.sub (parse_uuid claims.session_id) g

  unfoldable pub ws_handler : ℕ → String → Gate → Answer × Gate
  ws_handler now token g = after_decode (decode_token now token) g
