-- ===== src/Lib.antt =====
-- A model of the messenger's backend, with theorems on its handlers.
--
-- The program is two services over PostgreSQL and Redis. The HTTP service (api/src) keeps accounts, the
-- public keys of each device, key backups and the history; the WebSocket service (relay/src) passes the
-- messages of connected clients on through Redis Pub/Sub, stores them for users without a connection,
-- and adds an event for each to a Redis stream. A worker inside the HTTP service (api/src/worker.rs)
-- reads that stream in batches and writes the history. The crate shared holds the types that they
-- exchange and the repositories.
--
-- Which file models what:
--   Models            shared/src/models.rs: tokens, client messages, outgoing messages, history events
--   Config            shared/src/config.rs
--   Postgres          calls of sqlx: a statement is a function on the tables (Sql), a chain of calls that
--                     may return early is a function on the world (Exec, with do blocks), and
--                     `transaction` is begin, body and commit, with the rollback of a dropped one
--   Postgres.Schema   migrations/*.sql: one record per table, and all tables together (Database)
--   Postgres.Tables   INSERT with ON CONFLICT on a table with a unique key
--   Postgres.Ordered  ORDER BY and LIMIT
--   Postgres.Rules    what holds of every chain of calls
--   Sessions          the keys session:<id> in Redis, which both services read and write
--   Api               a handler: its early returns and its last expression both answer
--   Api.Token         api/src/lib.rs: the extractor AuthenticatedUser, where a request carries its token
--   Api.Accounts      api/src/lib.rs: register_handler (its checks in Username), login_handler,
--                     logout_handler
--   Api.Messages      api/src/lib.rs: messages_handler, a page of the history
--   Api.Dialogs       api/src/lib.rs: dialogs_handler
--   Api.ReadStates    api/src/lib.rs: get_read_state_handler
--   Api.MarkRead      api/src/lib.rs: mark_read_handler
--   Api.Files         api/src/lib.rs: presign_handler, download_handler
--   Api.Keys          api/src/e2ee.rs: upload_keys; its checks in Validate; claim_keys in Claim;
--                     list_devices and delete_device in Devices
--   Api.Backup        api/src/backup.rs: upload_backup, get_backup, delete_backup
--   Api.Worker        api/src/worker.rs: process_events_batch; what a row says of an event (Rows)
--   Api.Worker.Loop   api/src/worker.rs: start_database_worker, one round after the other
--   Relay             the interfaces that relay/src/lib.rs calls (the repositories of
--                     shared/src/repository.rs, XADD, serde_json) and what their laws are
--   Relay.Route       relay/src/lib.rs, handle_socket: what the receiving task does with one text
--   Relay.Upgrade     relay/src/lib.rs, ws_handler: the token, the cached session, the row of the session
--   Relay.Session     relay/src/lib.rs, handle_socket: what comes before and after the tasks of a connection
--   Relay.Receiving   relay/src/lib.rs, handle_socket: the receiving task, one call after the other (the body
--                     of its loop in one piece is `receive` of Relay.Route; Whole compares the two)
--   Relay.Feed        relay/src/lib.rs, handle_socket: a subscription that is forwarded to the client
--   Relay.Tasks       relay/src/lib.rs, handle_socket: the sending task, pubsub_task, the receiving task, the
--                     tasks that watch presence or publish a receipt, and tokio::select!, side by side
--   Relay.Later       what the calls of the relay leave standing, failing calls included
--   Repository        shared/src/repository.rs: the queue of waiting messages (Offline), over Postgres, the
--                     connections of each user (Presence), over Redis sets, command by command, and
--                     PUBLISH (PubSub)
--   Relay.Backend     the repositories put together as relay/src/main.rs does, as the services of Relay;
--                     how an event gets from a message to the history (Logged), and a message
--                     to a user who was away (Waited)
--   Relay.Memory      the interfaces of Relay in memory, for the runs
--   Tests             sample data, and runs of the theorems on it
--
-- How the state corresponds. The tables are lists of records, one field for a column; a UUID, a time
-- stamp and a serial number are natural numbers, and a 64-bit or 32-bit signed column is an integer. `now`
-- is the server's clock and `next_id` the next serial number. A handler takes the claims of its token,
-- its payload and the world, and gives its reply (a status with a text or a JSON body) and the world
-- after it. The client of the relay is the state of the services, the texts queued for it and the
-- presence channels that it watches.
--
-- Failures. `outages` of the world says for each call of the database whether the server is gone: a
-- theorem that holds for every world holds for every place where the database may fail. Statements
-- fail as well where they break a key of the migrations. A commit that fails is taken to have
-- rolled back.
--
-- The stream. A round of the worker's loop is a function on its variables, the stream and the world. The
-- stream is what the group db_workers knows: the entries that are pending and those that are new. What
-- else may happen between two rounds (a relay adds an entry, another service changes the tables, a
-- server fails or recovers, the process starts again) is the relation Turn of Api.Worker.Loop.Reached.
--
-- The tasks. Each step of Relay.Tasks.Step is what one task does between two of its awaits, or the end of a
-- task, or its abort; others may change the services in between, as the relation Others allows. A
-- subscription is what the channel had been sent before it and what was forwarded since, `wire` what
-- the socket took and `outbox` what was handed to the queue and not taken. Redis counts a subscription
-- for as long as its task goes on, and drops it some time after, the step `drops`.
--
-- Columns. messages.id and dialog_read_states.last_read_message_id are VARCHAR columns that api/src/lib.rs
-- reads as UUIDs and compares with UUIDs. What sqlx and PostgreSQL make of that is the parameter
-- Columns; the hypothesis IsTyped says what they document, that neither is possible. Theorems without
-- IsTyped hold for any Columns.
--
-- What stands as a parameter: argon2 (hash_password, verify_password), the signer and the check of a token (at a time, since the
-- check refuses a token that has expired),
-- which code points are white space, letters and digits, what the operating system draws (salt,
-- UUIDs, time), the S3 client, the reading of the environment, Uuid::parse_str, to_string and new_v4, the Base64
-- decoder, the spelling of messages as JSON (Codec), and for the relay the services (Services), of which
-- Laws says what PUBLISH, INSERT, XADD, SADD and SREM do, Growth that none but the fetch and the end of a
-- subscription takes anything away,
-- and IsUp that no call fails.
--
-- Order. Where a SELECT or RETURNING has no ORDER BY, rows come in the order of the table, and a new row
-- goes to its end; the theorems do not depend on it. Sorting is stable.
--
-- Every definition is structurally recursive, so that there is no fuel; the endless loop of the worker is the
-- function `steps`, which takes a number of rounds, and theorems say how many are enough.
--
-- What is not modelled. Interleavings: a handler of the HTTP service runs alone; what runs side by side
-- is add_connection (Repository.Presence.Interleaved), the worker with everything else
-- (Api.Worker.Loop.Reached) and the tasks of a connection with everything else (Relay.Tasks). Length limits
-- of VARCHAR columns and the range of integers on the wire. Log lines. A panic of a task, the time to live
-- of cached sessions, how long the worker sleeps and how long a read blocks. Start-up (main.rs of both
-- services, shared/src/db.rs), which is I/O, and the tools that try S3 by hand.
pub mod Prelude
pub mod Models
pub mod Config
pub mod Postgres
pub mod Sessions
pub mod Api
pub mod Repository
pub mod Relay
pub mod Tests
