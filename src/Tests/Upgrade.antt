-- ===== src/Tests/Upgrade.antt =====
-- relay/src/lib.rs: tokens of Alice's first session, with an empty cache and a full one.
use invisible_backend.Prelude.{
  ℕ, String, Option, some, none, ◌≡◌, refl, true, ◌==◌, string_eq, if◌then◌else◌, [],
}
use invisible_backend.Models.{Claims}
use invisible_backend.Postgres.{query}
use invisible_backend.Relay.Upgrade.{ws_handler, select_valid}
use invisible_backend.Relay.Upgrade.Admitted.{IsLive, ws_handler-IsLive}
use invisible_backend.Tests.{alice, sample, parse_uuid, format_uuid}
use invisible_backend.Sessions.{Cache, Gate, get, session_key}

abbrev decode_token : ℕ → String → Option Claims
decode_token now t = if t == "token of alice" then some alice else none

abbrev empty_cache : Cache
empty_cache = record { entries = λ k. none; outages = [] }

abbrev gate : Gate
gate = record { world = sample; cache = empty_cache }

ws_handler-IsLive_example :
    (c : Claims) × (decode_token 50 "token of alice" ≡ some c)
    × ("alice" ≡ c.sub)
    × (parse_uuid c.session_id ≡ some 1)
    × IsLive (session_key (format_uuid 1)) 1 gate
unfolding ws_handler get select_valid query
ws_handler-IsLive_example =
    ws_handler-IsLive decode_token parse_uuid format_uuid true 50 "token of alice" gate "alice" 1
      refl
