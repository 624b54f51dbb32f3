-- ===== src/Lib.antt =====
-- The smart LLM gateway: a verification library.
--
-- The gateway authenticates a request, plans the routes of the requested model, tries them in order,
-- records every attempt, and forwards one answer, complete or as a stream.
--
-- Parts, and the files that model them:
-- - Prelude: shared names, Boolean tests, results, lists, the integers of timestamps, texts.
-- - Domain: crates/slg-domain/src/lib.rs. Domain/Plan is `candidate_plan` (`visit` is `visit`, `enter`
--   and `expand`); Domain/Failure is `ErrorCategory`; Domain/Credential is `CredentialReference`, with
--   `EnvironmentSecretResolver` of crates/slg-adapter-secrets/src/lib.rs; Domain/Evidence is the
--   validation of provider evidence; Domain/Message is the data of requests, with Domain/Message/Decode
--   the JSON of message content; Domain/Route is data.
-- - Ports: crates/slg-ports/src/lib.rs. A port is a record of functions of the log of all calls so far;
--   what stands behind it is arbitrary.
-- - Application: crates/slg-application/src/lib.rs. Application/Gateway is `Gateway::infer` and what it
--   calls, over the effects of Application/Monad; Application/Attempt is `StreamAttempt`, whose async
--   methods are tasks that wait for calls; Application/Stream is `ManagedInferenceStream`, with
--   `poll_next` as rounds of its loop and `drop`; Application/Stream/Reading reads such a stream to its end.
-- - Storage/Sqlite: crates/slg-adapter-storage-sqlite/src/lib.rs, each SQL statement as its effect on
--   the rows of the tables: Attempts (`record_attempt_internal`), Health (authentication, marks and
--   `candidates_internal`), Accounting (quota snapshots and billing records),
--   Administration (`create_*` and `add_fallback`).
-- - Storage/Postgres: crates/slg-adapter-storage-postgres/src/lib.rs, in the same way. Storage/Postgres is
--   the probe leases, of the tables and of one process, and the marks, which release them; Candidates is
--   `candidates`; Attempts is `record_attempt` and `authenticate`; Export is `control_snapshot_data`;
--   Administration is `create_gateway_key`, `create_model`, `create_account`, `create_route` and
--   `add_fallback`; Accounting is quota snapshots and billing records, whose statements that write are modelled
--   apart from SQLite's (Accounting/Columns); rows are read as SQLite reads them.
-- - Runtime: crates/slg-runtime/src/lib.rs. Runtime/Snapshot is `SnapshotRepository` and
--   `SnapshotFallback`; Runtime/Spool is `DurableUsageSpool` and `flush_usage_spool`;
--   Runtime/Store is `LastKnownGoodSnapshot` and `reject_sensitive_fields`.
-- - Provider: crates/slg-adapter-provider/src/lib.rs, how `classify` turns an error response into a
--   failure (Classify), and `openai_usage_evidence` (Usage).
-- - Upstream: crates/slg-adapter-upstream-openai/src/lib.rs. Upstream/Frame is `complete_frame`,
--   Upstream/Decode is `decode_frame` and the failures, Upstream/Stream is `OpenAiSseDecoder`, with
--   `poll_next` as rounds of its loop; Upstream/Encode is `encode_chat_completion`.
-- - Inbound: crates/slg-adapter-inbound-openai/src/lib.rs. Inbound is `chat_completion`, Inbound/Decode
--   is `decode_request`, Inbound/Render is `application_error_response` and `public_sse_stream`. A response holds
--   all that its stream comes to when it is read to its end.
-- - Cli: crates/smart-llm-gateway/src/main.rs. Cli/Report is `inspect_quota` and `inspect_billing`,
--   Cli/Export is `control_snapshot`, which turns what Storage/Postgres/Export reads into the snapshot of
--   Runtime/Snapshot.
-- The application uses the parts below it through the ports. The stores and the snapshot plan their
-- candidates with Domain/Plan.
--
-- Bounds and fuel: `visit` runs on fuel for the depth of its recursion. `plan_fuel` is enough for every
-- fallback graph, since a model is expanded once. A call of `poll_next` runs for two rounds, which is
-- enough, since a round that goes on has set the end, which the next one polls; a response is read to its end by a poll for
-- each event of the upstream and one more. A poll of the SSE decoder
-- needs a round for each byte and each answer of its source, which is a list of answers. Priorities and scales
-- are numbers that are only compared or bounded.
--
-- Not modelled: connections and migrations, the provider's HTTP client, the
-- command line's arguments and the server; JSON texts, SHA-256, identifiers and
-- the clock, which are parameters or opaque texts; failures of SQLite itself, and of PostgreSQL
-- but for the texts of evidence with U+0000, which it refuses; file permissions and the
-- paths of snapshots. A `Mutex` or a transaction is one step.
pub mod Prelude
pub mod Domain
pub mod Ports
pub mod Application
pub mod Storage
pub mod Runtime
pub mod Provider
pub mod Upstream
pub mod Inbound
pub mod Cli
