-- ===== src/Lib.antt =====
-- ZaqorinCore's server, the Python package server/src/zaqorincore_server, as functions on explicit
-- state, with the properties that its parts rely on.
--
-- The server receives events from agents, looks for attacks in them, queues response actions, signs
-- them and sends them to the agents, and passes alerts on to outside (SOAR) services. All paths
-- below are in server/src/zaqorincore_server.
--
-- - Prelude, Dict: Python's texts, integers, dictionaries and exceptions, and lemmas on lists.
-- - RateLimit (rate_limit.py): `Bucket` is `_Bucket`, `Middleware` is `RateLimitMiddleware` with
--   `dispatch`, `throttle` being its part under the lock. `Window`, `Allow`, `Prune`, `Throttle` and
--   `Budget` compare the deques with a log of all accepted requests; `Retry` is about `Retry-After`.
-- - Crypto (crypto.py): the signed text of a command and its signature, with the HMAC as a parameter;
--   `Canonical` and `Verify` are about what the signature binds.
-- - Actions: `Kinds` and `Targets` (action_kinds.py) are the table of kinds and `validate_target`;
--   `Deployment` (deployment.py) the modes; `Store` (detectors/action_service.py, models/action.py)
--   the statements on the table of actions, as functions of its rows. `TargetSafety`, `Modes` and
--   `Lifecycle` are about what they keep.
-- - Dispatcher (dispatcher.py): the registry of connections, `build_command_frame` and `tick`, which
--   reads the table of actions, asks `Actions` about each and signs it with `Crypto`. `Safety` is
--   about what is sent, `Progress` about what is reached.
-- - Soar: `Config` (soar/config.py, soar/__init__.py), `Load` (`load_config`), `Queue` and
--   `Delivery` (soar/worker.py) go from the configuration and a row of the alerts table through the
--   bounded queue to the attempts of one delivery (`run_one`) and its dead letter. `Newest` and
--   `Polled` are about what puts and polls leave in the queue, `Overflow` about what it loses;
--   `Retries`, `Endings`, `Success` and `Exceptions` about how deliveries end, `Loop` about the loop's
--   own condition, `Usable` about what a loaded configuration makes sure of.
-- - Sigma (rule_engine): `Values`, `Conditions` and `Rule` (sigma.py) are the matching of a rule and
--   what it renders; `Runner` (runner.py) is the sliding window, the cooldown and the rows that a fire
--   leaves. `FailClosed` and `Exclusion` are about what a match and its condition's text show, `Storm`
--   about what the cooldown does.
-- - Depth (utils/depth_json.py): the scan that limits how deep JSON may nest. `Json` describes JSON
--   values and their texts without white space, `Nesting` compares the scan with them.
-- - Detectors: `Ssh` is detectors/ssh_bruteforce.py, its regular expression being a function on texts;
--   `SshStorm` is about its cooldown. `Runner` is `_process_one` of detectors/runner.py, with
--   detectors/alert_service.py, over any detectors; it writes the actions that `Dispatcher` sends.
--   `Rows` and `Acks` are about what it leaves of a message. `Web` is detectors/web_attack.py, and
--   `WebStorm` is about its cooldowns.
-- - Stream: `Session` is `ws_agent` of api/v1/stream.py, one agent's connection from its handshake to
--   its end, with service/host_service.py and service/event_service.py; `Frames` (schemas/wire.py) is
--   what it reads. It shares the registry with `Dispatcher`, the table with `Actions` and the decoder
--   with `Depth`. `Authentication`, `Eviction`, `Effects` and `Flood` are about what a peer can do.
-- - Auth (auth.py): the roles of API keys; `Roles` is about who is let in, `Legacy` about the single
--   key beside the roles'.
-- - Evidence (evidence.py): `Store` is `EvidenceStore` with its files; `Signatures` and `Rotation` are
--   about what verifies.
-- - Audit (audit.py): `Log` has the module's globals and functions; `Ring` is about the bounded log,
--   `Opening` and `Lines` about the files.
-- - Provision (api/v1/agents_provision.py): `Quoting` checks hosts, users and key ids and quotes values
--   for TOML and the shell; `Template` is `render_agent_toml` with its endpoint, `DryRun` and `Install`
--   are the commands, `Secrets` the rotation of a secret and the live configuration, on rows that hold
--   the hosts of `Dispatcher`. `Toml`, `Shell`, `Lines` and `HereDocument` have readers of their own for
--   what is written; `Config`, `Paste` and `Rotation` are about what is read back, the last with the
--   handshake of `Stream`.
-- - Ingest: `Values`, `KeyValues` and `Translate` (api/v1/ingest_webhook.py) are the translators of the
--   vendors' bodies, `Webhook` is `_ingest_records` with the rows it stores, `Endpoint` the request from
--   its length to its entry in `Audit`; `Stored`, `Unique`, `Batches` and `Counts` are about what is
--   stored, counted and left alone. `Cloudflare` (api/v1/ingest_cloudflare.py) is the signed log lines,
--   `Logged` and `Published` are about what becomes of a batch of them, and `Newest` about the order in
--   which its rows are read.
-- - Normalizer (self_defense/event_normalizer.py): `ZaqorinEvent` with its metadata, from log records
--   and CSP reports; `RoundTrip` is about what metadata tells.
-- - Envelope (error_envelope.py): the middleware that wraps the bodies of error responses; `Wrapped` is
--   about what it keeps and tells.
-- - The modules `Tests` (also `LoadTests`, `WebTests` and `CloudflareTests`) run the parts on concrete
--   inputs.
--
-- Times are natural numbers, in milliseconds where the source has seconds as floating point; UUIDs
-- and sockets of the dispatcher are numbers. A call that may raise returns an error as a value. What
-- lies outside the program is an argument: the HMAC, what a send or a backend answers, whether the
-- database takes the row of a delivery's attempt or the update after a send, the order of rows that it
-- reads by time, when the worker is stopped, the calls of Redis, what Starlette makes of headers, the
-- engines of regular expressions, the parsers of JSON, TOML, times and addresses, and floating-point
-- numbers. A row of an attempt that the database does not take ends the delivery, and an update that it
-- does not take ends the tick. Letter case, digits and word characters are those of ASCII.
--
-- All loops are recursions on a list or a text, but for the attempts of a delivery: they run on the
-- number of attempts left, `max_retries + 2 - attempt`, which is how often the source's loop can be
-- entered, since each round adds one to `attempt` and the loop ends above `max_retries + 1`;
-- `Soar.Loop` has the loop with that condition, on fuel.
--
-- Not modelled: the agent (Go), the HTTP interface but for its authentication, its error envelope, the
-- provisioning of agents and the two ingests, the database's tables beyond those that the parts above
-- work on, the event streams, the SOAR backends themselves, the other three detectors, the Sigma step of
-- a message, the loading of YAML files, and the background tasks around a tick, a poll or a drain.
-- Deliveries run one at a time, where the source runs up to ten together, and so do the frames of
-- connections and the requests.
mod Prelude
pub mod Dict
pub mod RateLimit
pub mod Crypto
pub mod Actions
pub mod Dispatcher
pub mod Soar
pub mod Sigma
pub mod Detectors
pub mod Stream
pub mod Auth
pub mod Evidence
pub mod Audit
pub mod Provision
pub mod Ingest
pub mod Normalizer
pub mod Envelope
pub mod Depth
