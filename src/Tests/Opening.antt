-- ===== src/Tests/Opening.antt =====
-- relay/src/lib.rs: a connection that opens and closes, with the services in memory.
use invisible_backend.Prelude.{List, [], ◌∷◌, ◌≡◌, refl, map}
use invisible_backend.Models.{OutgoingMessage}
use invisible_backend.Relay.Memory.{Memory, memory, plain_codec, plain_codec-IsTotal}
use invisible_backend.Relay.Session.{open_session}
use invisible_backend.Relay.Session.Announce.{spell, receipts, open_session-Flushed}

abbrev watched : Memory
watched = record { channels = λ c. []; listeners = λ c. 1; queues = λ u. []; stream = [] }

abbrev waiting : List OutgoingMessage
waiting = OutgoingMessage.text "bob" "m0" "hi" ∷ OutgoingMessage.typing "bob" ∷ []

open_session-Flushed_example :
    let o = open_session plain_codec memory "alice" "c1" watched in
    (o.outbox ≡ map (spell plain_codec memory plain_codec-IsTotal) waiting)
    × (o.spawned ≡ receipts plain_codec memory plain_codec-IsTotal "alice" waiting)
open_session-Flushed_example =
    open_session-Flushed plain_codec memory plain_codec-IsTotal "alice" "c1" watched waiting refl
