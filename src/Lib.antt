-- ===== src/Lib.antt =====
-- AstroPlant: the back-end of a network of plant kits. Kits publish measurements and media, and ask
-- the server for their configuration, over MQTT; people manage the kits over a REST API. This
-- library models parts of the workspace's crates as functions, and proves what the routes and the
-- message handlers rely on.
--
-- Prelude: lists and texts (a text is the list of its codes), Rust's `Result` with `?` as a bind,
-- equality tests as an interface with instances, `HashMap` as a sealed component with its laws
-- (Prelude.Map), and tables whose rows have ids (Prelude.Keyed).
--
-- Api: astroplant-api/src.
--   Problem: problem.rs, the problems and their status codes.
--   Models: models/*.rs, the rows.
--   Database: the tables as lists of rows with the next value of each sequence. A handler runs in
--     one transaction, so it is a function from a state to a problem, which leaves the state as it
--     was, or to a value and a new state (`Tx`, `after`). Concurrent transactions are not modelled:
--     a sequence of requests runs one after the other. Where SQL or a migration decides (unique
--     indexes, foreign keys, triggers, generated columns), the statement's definition says what
--     the database does. Ids are natural numbers, and `serial` columns do not run over.
--   Authorization and Helpers: authorization/mod.rs and helpers.rs, who may do what to a kit.
--   Members: controllers/kit/mod.rs, the routes that create a kit and add, change and remove
--     members, with models/kit_membership.rs.
--   Configurations: controllers/kit_configuration/*.rs with models/kit_configuration.rs and
--     models/peripheral.rs. Compiling and running a JSON schema is a parameter (`valid`), and so is
--     the printing of an id. Configurations.Requests makes the routes the steps of a server.
--   Deletion: the deletions of kits, configurations and media, which put the media in a queue from
--     which their objects are deleted later.
--   Pages: models/measurement.rs and cursors.rs, the pages of the aggregate measurements of a kit. A
--     client that follows the links is bounded by a number of pages, and the theorem says how many
--     are enough.
--   NewKits: models/kit.rs, the serial and the password of a new kit.
--   Users: models/user.rs and controllers/user/mod.rs, creating and patching users. Unicode, `ILIKE`
--     and the test of email addresses are parameters.
--   Session: controllers/me/auth.rs and extract.rs, logging in, refreshing a session, and the user of
--     a request. Times are seconds since 1970 and are given to each operation.
--   Archive: controllers/kit/archive.rs, the token for a download, and the file of configurations.
-- Mqtt: astroplant-mqtt/src.
--   Topic: lib.rs, the topics of publications.
--   Timestamp: lib.rs, from a time stamp to the calendar, which is a parameter.
--   ServerRpc: server_rpc.rs and lib.rs, requests of kits to the server. The handler and the rate
--     limiter are parameters.
--   KitRpc: kit_rpc.rs, requests of the server to kits: decoding, the driver as a function of the
--     events that it selects from, and what a caller makes of an answer. Cap'n Proto's readers are
--     values in which each part was read or not. A `u64` id wraps around at 2^64, and the theorems
--     that need fresh ids bound the number of requests. KitRpc.Says describes what the body of a
--     response says, apart from how it is decoded.
--   Publications: lib.rs, what is made of a packet: the parsing of measurements and media, and the
--     dispatch to the server RPC and to the driver of kit RPC. A panic of the calendar library is a
--     result of its own.
-- Auth: astroplant-auth/src and random-string/src.
--   RandomString: random-string/src/lib.rs; the numbers that the generator draws are a parameter.
--   Hash: hash.rs, the texts in which the hashes of passwords are stored. Key derivation and Base64 are
--     parameters with their laws.
--   Token: token.rs, refresh and access tokens and those for downloads. The JWT library is a parameter
--     with its laws: what it signs it reads back until a minute after it expired, and it reads nothing
--     else.
-- Ingest: astroplant-mqtt-ingest/src/database.rs and main.rs, the storing of measurements. The API's changes of
--   the tables are steps of the same system.
-- WebSocket: astroplant-websocket/src/lib.rs, the cache of the newest measurements and the registry of
--   the subscribers. The tasks of the registry interleave at every lock.
--
-- No definition but the client of the pages takes fuel: each recurses on a list of rows, parts, events
-- or requests.
--
-- Not modelled: the handler of a WebSocket, its heartbeat and the sending of cached measurements to
-- it, the pool of tasks of the ingestion, the pages of media and kits, the API's own handler of
-- messages, the file of measurements in the archive, and the other read-only routes. Views, responses,
-- the schema, start-up, administration and the object store are serialisation, generated code or
-- calls of libraries.
pub mod Prelude
pub mod Api
pub mod Mqtt
pub mod Auth
pub mod Ingest
pub mod WebSocket
