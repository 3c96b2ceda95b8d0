-- ===== src/Tests/Loop.antt =====
-- api/src/worker.rs, the loop: one entry left pending, one new, of which one parses.
use invisible_backend.Api.Worker.Loop.Reached.{redis, goes_on}
use invisible_backend.Prelude.{
  [], ◌∷◌, inl, none, some, true, refl, if◌then◌else◌, ◌==◌, ◌≡◌, String, ℕ, Option, ◌+◌, arith,
  string_eq, ◌⊎◌,
}
use invisible_backend.Postgres.{err, DbError}
use invisible_backend.Api.Worker.Loop.{
  StreamId, Stream, Loop, steps, process_key, step, stream_name, sort_ids,
}
use invisible_backend.Api.Worker.Loop.Reached.{IsSound, Reach-IsSound, next, here}
use invisible_backend.Tests.{sample, parse_uuid}
use invisible_backend.Models.{DatabaseEvent}
use invisible_backend.Api.Worker.Loop.Drained.{steps_drain}
use invisible_backend.Api.Worker.Loop.Acked.{unread}
use invisible_backend.Api.Worker.Loop.Kept.{AreStored, process_key-Outcome}
use invisible_backend.Api.Worker.{process_events_batch}

abbrev from_str : String → Option DatabaseEvent
from_str json =
    if json == "text m1"
    then some (DatabaseEvent.new_message "m1" "alice" "bob" "text" (some "hello") none none none)
    else none

abbrev new_v4 : ℕ → ℕ
new_v4 i = 900 + i

abbrev good : StreamId
good = record { id = "1-0"; event = some "text m1" }

abbrev bad : StreamId
bad = record { id = "2-0"; event = some "?" }

abbrev stream : Stream
stream = record { pending = good ∷ []; fresh = bad ∷ []; group = true; outages = [] }

abbrev lost : Loop
lost = record { backoff = 8; read_id = none; stream = stream; world = sample }

steps_drain_example :
    ((steps from_str parse_uuid new_v4 4 lost).stream.pending ≡ [])
    × ((steps from_str parse_uuid new_v4 4 lost).stream.fresh ≡ [])
    × ((steps from_str parse_uuid new_v4 4 lost).read_id ≡ some ">")
steps_drain_example = steps_drain from_str parse_uuid new_v4 lost 4 refl refl (omega arith)

abbrev cut_off : Loop
cut_off = record lost { stream = record stream { outages = true ∷ [] } }

Reach-IsSound_example : IsSound from_str parse_uuid new_v4 (step from_str parse_uuid new_v4 cut_off)
Reach-IsSound_example =
    Reach-IsSound from_str parse_uuid new_v4 {m = lost}
      {l = step from_str parse_uuid new_v4 cut_off}
      (record { at_least = omega arith; at_most = omega arith; reads = inl refl })
      (next (next here (redis lost (true ∷ []))) (goes_on cut_off))

process_key-Outcome_example :
    let (s', w') =
      process_key from_str parse_uuid new_v4
        (record { key = stream_name; ids = good ∷ bad ∷ [] })
        stream
        sample in
    (s'.pending ≡ unread (good ∷ bad ∷ []) stream.pending)
    × (AreStored from_str parse_uuid new_v4 (sort_ids from_str (good ∷ bad ∷ [])).events sample w'
        ⊎ ((w'.db ≡ sample.db)
            × ((failure : DbError) × ((process_events_batch parse_uuid new_v4
                    (sort_ids from_str (good ∷ bad ∷ [])).events
                    sample).0
                  ≡ err failure))))
process_key-Outcome_example =
    process_key-Outcome from_str parse_uuid new_v4 (good ∷ bad ∷ []) stream sample refl
