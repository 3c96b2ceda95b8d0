-- ===== src/Sessions.antt =====
-- The sessions that both services look up: their rows in Postgres, and the keys session:<id> in Redis
-- (api/src/lib.rs, relay/src/lib.rs). A Redis command fails where the next entry of `outages` is true,
-- and its caller goes on; the time to live of a key is not kept.
use Prim.Native.String.{◌++◌ as append}
use invisible_backend.Prelude.{
  String, Bool, true, false, List, [], ◌∷◌, Option, none, some, ◌==◌, string_eq, if◌then◌else◌,
}
use invisible_backend.Postgres.{World}

pub record Cache : Type 0 where
  pub entries : String → Option String
  pub outages : List Bool

pub record Gate : Type 0 where
  pub world : World
  pub cache : Cache

-- format!("session:{}", session_id)
unfoldable pub session_key : String → String
session_key id = append "session:" id

abbrev pub get_now : String → (String → Option String) → List Bool → Option String × Cache
get_now key entries [] = (entries key, record { entries = entries; outages = [] })
get_now key entries (true ∷ rest) = (none, record { entries = entries; outages = rest })
get_now key entries (false ∷ rest) = (entries key, record { entries = entries; outages = rest })

-- `redis_conn.get(&session_key).await.unwrap_or(None)`
unfoldable pub get : String → Cache → Option String × Cache
get key c = get_now key c.entries c.outages

abbrev pub with_entry : String → Option String → (String → Option String) → String → Option String
with_entry key value entries k = if key == k then value else entries k

abbrev pub write_now : String → Option String → (String → Option String) → List Bool → Cache
write_now key value entries [] = record { entries = with_entry key value entries; outages = [] }
write_now key value entries (true ∷ rest) = record { entries = entries; outages = rest }
write_now key value entries (false ∷ rest) = record {
  entries = with_entry key value entries;
  outages = rest;
}

-- `redis_conn.set_ex(…).await`, its error put up with
unfoldable pub set_ex : String → String → Cache → Cache
set_ex key value c = write_now key (some value) c.entries c.outages

-- `conn.del(session_key).await`, its error put up with
unfoldable pub del : String → Cache → Cache
del key c = write_now key none c.entries c.outages

abbrev pub expire_now : (String → Option String) → List Bool → Cache
expire_now entries [] = record { entries = entries; outages = [] }
expire_now entries (_ ∷ rest) = record { entries = entries; outages = rest }

-- `redis_conn.expire(…).await`, its error put up with
unfoldable pub expire : Cache → Cache
expire c = expire_now c.entries c.outages
