-- ===== src/Relay/Route/Sender.antt =====
-- relay/src/lib.rs: whom the messages of a client name as their sender.
use invisible_backend.Models.{IncomingMessage, OutgoingMessage, DatabaseEvent}
use invisible_backend.Relay.Route.{Plan, planned, plan, db_event}
use invisible_backend.Prelude.{String, Option, some, none, ◌≡◌, arith}

-- whom a message says it comes from
abbrev pub claimed_sender : OutgoingMessage → Option String
claimed_sender (OutgoingMessage.encrypted from _ _) = some from
claimed_sender (OutgoingMessage.text from _ _) = some from
claimed_sender (OutgoingMessage.file from _ _ _ _) = some from
claimed_sender (OutgoingMessage.typing from) = some from
claimed_sender (OutgoingMessage.read_receipt from _) = some from
claimed_sender (OutgoingMessage.delivery_receipt _ _) = none
claimed_sender (OutgoingMessage.presence_update _ _) = none

-- whom a history event says it comes from, and the user it is for, where it names one
abbrev pub author : DatabaseEvent → String
author (DatabaseEvent.new_encrypted_message _ sender _ _) = sender
author (DatabaseEvent.new_message _ sender _ _ _ _ _ _) = sender
author (DatabaseEvent.read_receipt _ reader) = reader

abbrev pub addressee : DatabaseEvent → Option String
addressee (DatabaseEvent.new_encrypted_message _ _ recipient _) = some recipient
addressee (DatabaseEvent.new_message _ _ recipient _ _ _ _ _) = some recipient
addressee (DatabaseEvent.read_receipt _ _) = none

-- Whatever the client writes, the message that goes out names the client's own user as its sender, and
-- so does the event for the history, which names the same recipient as the route if it names one.
pub plan-claimed_sender :
    (me : String) (m : IncomingMessage) (p : Plan)
    → plan me m ≡ planned p
    → (claimed_sender p.outgoing ≡ some me)
      × ((e : DatabaseEvent)
          → db_event me p.to p.outgoing ≡ some e
          → (author e ≡ me) × ((to : String) → addressee e ≡ some to → to ≡ p.to))
unfolding plan db_event
plan-claimed_sender me (IncomingMessage.encrypted to id cs) p h = ground arith
plan-claimed_sender me (IncomingMessage.text to id content) p h = ground arith
plan-claimed_sender me (IncomingMessage.file to id name mime url) p h = ground arith
plan-claimed_sender me (IncomingMessage.typing to) p h = ground arith
plan-claimed_sender me (IncomingMessage.watch_presence ids) p h = ground arith
plan-claimed_sender me (IncomingMessage.read_receipt to id) p h = ground arith
