-- ===== src/Api/Worker/Loop.antt =====
-- api/src/worker.rs, start_database_worker: the loop that reads the stream message_events. The stream
-- is what its group db_workers knows of it: the entries that worker1 has read and not acknowledged,
-- oldest first, and those that no worker has read. A Redis command fails where the next entry of
-- `outages` is true. How long a read blocks is not kept; one that times out answers no key.
-- `from_str` parses the JSON of an event.
pub mod Acked
pub mod Drained
pub mod Kept
pub mod Reached
use invisible_backend.Prelude.{
  ℕ, zero, suc, ◌+◌, ◌*◌, String, Bool, false, not, ◌&&◌, ◌||◌, List, [], ◌∷◌, ◌++◌, Option, none,
  some, any, retain, take, drop, length, ◌==◌, string_eq, ltb, if◌then◌else◌,
}
use invisible_backend.Models.{DatabaseEvent}
use invisible_backend.Postgres.{World, Result, ok, err, DbError}
use invisible_backend.Postgres.Schema.{Uuid}
use invisible_backend.Api.Worker.{process_events_batch}

-- an entry, with the text of its field `event` where it has one
pub record StreamId : Type 0 where
  pub id : String
  pub event : Option String

pub record StreamKey : Type 0 where
  pub key : String
  pub ids : List StreamId

pub record Stream : Type 0 where
  pub pending : List StreamId
  pub fresh : List StreamId
  pub group : Bool
  pub outages : List Bool

-- the variables of the function; `read_id` is there while the inner loop runs
pub record Loop : Type 0 where
  pub backoff : ℕ
  pub read_id : Option String
  pub stream : Stream
  pub world : World

abbrev pub stream_name : String
stream_name = "message_events"

abbrev pub fails : List Bool → Bool
fails [] = false
fails (b ∷ rest) = b

abbrev pub later : List Bool → List Bool
later [] = []
later (b ∷ rest) = rest

-- XGROUP CREATE message_events db_workers 0 MKSTREAM, its error put up with
unfoldable pub create_group : Stream → Stream
create_group s = record s { group = s.group || not (fails s.outages); outages = later s.outages }

abbrev pub is_read : List String → StreamId → Bool
is_read ids e = any (λ i. i == e.id) ids

-- XACK message_events db_workers ids, its error put up with
unfoldable pub xack : List String → Stream → Stream
xack ids s = record s {
  pending = if fails s.outages then s.pending else retain (λ e. not (is_read ids e)) s.pending;
  outages = later s.outages;
}

-- what XREADGROUP answers: with > the next entries, which become pending, and no key where there is
-- none; with 0 the pending entries, under their key also where there is none
abbrev pub read_new : List StreamId → Stream → Option (List StreamKey) × Stream
read_new [] s = (some [], s)
read_new (e ∷ es) s = (
  some (record { key = stream_name; ids = take 100 (e ∷ es) } ∷ []),
  record s { pending = s.pending ++ take 100 (e ∷ es); fresh = drop 100 (e ∷ es) },
)

abbrev pub read_pending : Stream → Option (List StreamKey) × Stream
read_pending s = (some (record { key = stream_name; ids = take 100 s.pending } ∷ []), s)

-- `conn.xread_options(&[stream_name], &[read_id], &opts).await`, with `count(100)`
unfoldable pub xread_options : String → Stream → Option (List StreamKey) × Stream
xread_options read_id s =
    let s' = record s { outages = later s.outages } in
    if fails s.outages || not s.group
    then (none, s')
    else if read_id == ">"
    then read_new s.fresh s'
    else read_pending s'

-- `events`, `parseable_ids` and `unparseable_ids`
pub record Sorted : Type 0 where
  pub events : List DatabaseEvent
  pub parseable_ids : List String
  pub unparseable_ids : List String

abbrev pub ack_unparseable : List String → Stream → Stream
ack_unparseable [] s = s
ack_unparseable (id ∷ ids) s = xack (id ∷ ids) s

-- both branches of `if let Err(e) = process_events_batch(…)`
abbrev pub ack_parseable : List String → Result DbError (Unit {0}) → Stream → Stream
ack_parseable ids (err e) s = xack ids s
ack_parseable ids (ok u) s = xack ids s

abbrev pub processed_any : List StreamKey → Bool
processed_any = any (λ k. (k.key == stream_name) && ltb 0 (length k.ids))

abbrev pub min : ℕ → ℕ → ℕ
min a b = if ltb b a then b else a

-- one round of the outer loop, up to the inner one
unfoldable pub connect : Loop → Loop
connect m =
    let s = record m.stream { outages = later m.stream.outages } in
    if fails m.stream.outages
    then record m { backoff = min (m.backoff * 2) 60; stream = s }
    else record m { backoff = 1; read_id = some "0"; stream = create_group s }

module _ (from_str : String → Option DatabaseEvent) where
  abbrev pub event_of : Option String → Option DatabaseEvent
  event_of none = none
  event_of (some json_str) = from_str json_str

  abbrev pub sort_id : String → Option DatabaseEvent → Sorted → Sorted
  sort_id id none p = record p { unparseable_ids = id ∷ p.unparseable_ids }
  sort_id id (some event) p = record p {
    events = event ∷ p.events;
    parseable_ids = id ∷ p.parseable_ids;
  }

  -- `for stream_id in key.ids`, from the back
  unfoldable pub sort_ids : List StreamId → Sorted
  sort_ids [] = record { events = []; parseable_ids = []; unparseable_ids = [] }
  sort_ids (e ∷ es) = sort_id e.id (event_of e.event) (sort_ids es)

  module _ (parse_uuid : String → Option Uuid) (new_v4 : ℕ → Uuid) where
    abbrev pub save_events : List DatabaseEvent → List String → Stream → World → Stream × World
    save_events [] ids s w = (s, w)
    save_events (e ∷ es) ids s w =
        let (r, w') = process_events_batch parse_uuid new_v4 (e ∷ es) w in
        (ack_parseable ids r s, w')

    abbrev pub process_ids : Sorted → Stream → World → Stream × World
    process_ids p s w = save_events p.events p.parseable_ids (ack_unparseable p.unparseable_ids s) w

    -- one round of `for key in reply.keys`
    unfoldable pub process_key : StreamKey → Stream → World → Stream × World
    process_key k s w = if k.key == stream_name then process_ids (sort_ids k.ids) s w else (s, w)

    unfoldable pub process_keys : List StreamKey → Stream → World → Stream × World
    process_keys [] s w = (s, w)
    process_keys (k ∷ ks) s w = let (s', w') = process_key k s w in process_keys ks s' w'

    abbrev pub with_reply : String → Option (List StreamKey) → Stream → Loop → Loop
    with_reply read_id none s m = record m { read_id = none; stream = s }
    with_reply read_id (some []) s m = record m {
      read_id = some (if read_id == "0" then ">" else read_id);
      stream = s;
    }
    with_reply read_id (some (k ∷ ks)) s m =
        let (s', w') = process_keys (k ∷ ks) s m.world in
        record m {
          read_id =
              some (if (read_id == "0") && not (processed_any (k ∷ ks)) then ">" else read_id);
          stream = s';
          world = w';
        }

    -- one round of the inner loop
    unfoldable pub round : String → Loop → Loop
    round read_id m =
        let (reply, s) = xread_options read_id m.stream in with_reply read_id reply s m

    abbrev pub step_at : Option String → Loop → Loop
    step_at none m = connect m
    step_at (some read_id) m = round read_id m

    unfoldable pub step : Loop → Loop
    step m = step_at m.read_id m

    unfoldable pub steps : ℕ → Loop → Loop
    steps zero m = m
    steps (suc n) m = steps n (step m)
