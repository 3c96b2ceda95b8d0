-- ===== src/Api/Keys/Devices.antt =====
-- api/src/e2ee.rs: list_devices and delete_device. A device is a session.
pub mod Delete
use invisible_backend.Sessions.{Gate}
use invisible_backend.Prelude.{
  ℕ, String, Bool, ◌&&◌, not, List, [], ◌∷◌, ◌++◌, map, Option, none, some, retain, find, count,
  leb, ◌==◌, nat_eq, string_eq, if◌then◌else◌,
}
use invisible_backend.Prelude.Int.{ℤ}
use invisible_backend.Models.{Claims}
use invisible_backend.Postgres.{World, ok, Sql, query, ◌>>=◌, pure}
use invisible_backend.Postgres.Schema.{Database, Uuid, Session, IdentityKey}
use invisible_backend.Api.{Reply, text, json, Handler, respond, database_error}

pub record DeviceInfoResponse : Type 0 where
  pub device_id : Uuid
  pub device_name : Option String
  pub device_model : Option String
  pub platform : Option String
  pub registration_id : Option ℤ
  pub one_time_keys_remaining : ℕ
  pub created_at : ℕ

-- ORDER BY s.created_at DESC
abbrev pub insert_newest : Session → List Session → List Session
insert_newest s [] = s ∷ []
insert_newest s (t ∷ ts) =
    if leb t.created_at s.created_at then s ∷ t ∷ ts else t ∷ insert_newest s ts

abbrev pub newest_first : List Session → List Session
newest_first [] = []
newest_first (s ∷ ss) = insert_newest s (newest_first ss)

-- (SELECT COUNT(*) FROM device_one_time_keys WHERE device_id = s.id AND consumed = FALSE)
abbrev pub open_keys : Database → Uuid → ℕ
open_keys db id = count (λ k. k.device_id == id && not k.consumed) db.device_one_time_keys

abbrev pub device_info : Database → Session → Option ℤ → DeviceInfoResponse
device_info db s registration = record {
  device_id = s.id;
  device_name = s.device_name;
  device_model = s.device_model;
  platform = s.platform;
  registration_id = registration;
  one_time_keys_remaining = open_keys db s.id;
  created_at = s.created_at;
}

-- LEFT JOIN device_identity_keys dik ON dik.device_id = s.id, for one session
abbrev pub left_join : Database → Session → List IdentityKey → List DeviceInfoResponse
left_join db s [] = device_info db s none ∷ []
left_join db s (k ∷ ks) = map (λ j. device_info db s (some j.registration_id)) (k ∷ ks)

abbrev pub device_rows : Database → List Session → List DeviceInfoResponse
device_rows db [] = []
device_rows db (s ∷ ss) =
    left_join db s (retain (λ k. k.device_id == s.id) db.device_identity_keys) ++ device_rows db ss

unfoldable pub select_devices : String → Sql (List DeviceInfoResponse)
select_devices username db = ok (
  device_rows db
      (newest_first (retain (λ s. s.user_username == username && s.is_valid) db.sessions)),
  db,
)

unfoldable pub list_devices : Claims → World → Reply (List DeviceInfoResponse) × World
list_devices user =
    respond (do rows ← query database_error (select_devices user.sub); pure (json 200 rows))

abbrev pub is_owned : Uuid → String → Session → Bool
is_owned id username s = s.id == id && s.user_username == username

-- SELECT id FROM sessions WHERE id = $1 AND user_username = $2 AND is_valid = TRUE
unfoldable pub select_owned : Uuid → String → Sql (Option Session)
select_owned id username db = ok (find (λ s. is_owned id username s && s.is_valid) db.sessions, db)

-- The rows of the tables that reference sessions(id) ON DELETE CASCADE.
unfoldable pub cascade : Uuid → Database → Database
cascade id db = record db {
  device_identity_keys = retain (λ k. not (k.device_id == id)) db.device_identity_keys;
  device_signed_pre_keys = retain (λ k. not (k.device_id == id)) db.device_signed_pre_keys;
  device_one_time_keys = retain (λ k. not (k.device_id == id)) db.device_one_time_keys;
}

-- DELETE FROM sessions WHERE id = $1 AND user_username = $2, with rows_affected()
unfoldable pub delete_session : Uuid → String → Sql ℕ
unfolding cascade
delete_session id username db =
    let n = count (is_owned id username) db.sessions in
    let rest = retain (λ s. not (is_owned id username s)) db.sessions in
    ok (n, if n == 0 then db else cascade id (record db { sessions = rest }))

abbrev pub deleted : ℕ → Reply (Unit {0})
deleted n =
    if n == 0
    then text 403 "Device not found or access denied"
    else text 200 "Device deleted successfully"

abbrev pub delete_found : Uuid → String → Option Session → Handler (Unit {0})
delete_found id username none = pure (text 403 "Device not found or access denied")
delete_found id username (some _) = do
  n ← query database_error (delete_session id username)
  pure (deleted n)

unfoldable pub delete_device : Claims → Uuid → World → Reply (Unit {0}) × World
delete_device user device_id = respond (do
  row ← query database_error (select_owned device_id user.sub)
  delete_found device_id user.sub row)

-- The handler as it is called, with all of the state that it is given: it sends nothing to Redis.
unfoldable pub delete_device_at : Claims → Uuid → Gate → Reply (Unit {0}) × Gate
delete_device_at user device_id g =
    let (reply, w) = delete_device user device_id g.world in (reply, record g { world = w })
