-- ===== src/Tests.antt =====
-- Sample data, and runs of the handlers on it.
pub mod Vault
pub mod Keys
pub mod Claim
pub mod Worker
pub mod Routing
pub mod Queue
pub mod Presence
pub mod Opening
pub mod Upgrade
pub mod Accounts
pub mod Loop
pub mod History
pub mod Backend
pub mod Config
pub mod Tasks
use invisible_backend.Prelude.{
  ℕ, String, true, List, [], ◌∷◌, Option, none, some, ◌==◌, string_eq, if◌then◌else◌, suc, zero,
  nat_eq,
}
use invisible_backend.Models.{Claims}
use invisible_backend.Postgres.{World}
use invisible_backend.Postgres.Schema.{Database, Uuid, Session, empty_database}

abbrev pub alice : Claims
alice = record { sub = "alice"; session_id = "one"; exp = 100 }

abbrev pub session : Uuid → String → Session
session id name = record {
  id = id;
  user_username = name;
  device_name = none;
  device_model = none;
  platform = none;
  hwid = none;
  refresh_token = "token";
  created_at = id;
  last_accessed_at = id;
  is_valid = true;
}

-- Alice has the sessions 1 and 2, Bob has the session 3.
abbrev pub sample_db : Database
sample_db = record empty_database {
  users =
      record { username = "alice"; password_hash = "x" }
      ∷ record { username = "bob"; password_hash = "y" }
      ∷ [];
  sessions = session 1 "alice" ∷ session 2 "alice" ∷ session 3 "bob" ∷ [];
  now = 7;
  next_id = 50;
}

abbrev pub sample : World
sample = record { db = sample_db; outages = [] }

abbrev pub parse_uuid : String → Option Uuid
parse_uuid s =
    if s == "one"
    then some 1
    else if s == "two"
    then some 2
    else if s == "three"
    then some 3
    else none

abbrev pub format_uuid : Uuid → String
format_uuid id =
    if id == 1 then "one" else if id == 2 then "two" else if id == 3 then "three" else "other"

abbrev pub zeros : ℕ → List ℕ
zeros zero = []
zeros (suc n) = 0 ∷ zeros n

abbrev pub decode : String → Option (List ℕ)
decode s = if s == "k32" then some (zeros 32) else if s == "k64" then some (zeros 64) else none
