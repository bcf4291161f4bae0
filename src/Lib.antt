-- ===== src/Lib.antt =====
-- AiLab runs agents for tenants: an api writes rows and publishes events, a controller turns events
-- into Kubernetes objects and reports back, a builder makes images, and small services ship usage,
-- clean up, and route requests. This development models the parts that decide what is stored,
-- created, published and reached, and proves what they keep.
--
-- How the parts interact. A request passes the middleware, which gives it an identity; the handlers
-- of agents, builds, runs, triggers and secrets act under the tenant of that identity and write the
-- audit trail. The api inserts a run and publishes run.requested; the dispatch consumer creates an
-- AgentRun in the tenant's namespace; the controller creates its Job, follows it, and publishes
-- run.started and run.completed; the status consumer applies these to the runs table, meters them,
-- and hands them to the listeners of the hub, which the event streams read. A run also comes from a
-- webhook or from the scheduler, which keeps a cron entry for each stored trigger. The builder turns
-- build.requested into Jobs and completes the row of builds, which sets the agent's image. A
-- deployment goes from the deploy handler over the dispatch consumer to the AgentDeployment
-- controller, whose Service the gateway sends requests to. Secrets are sealed in a table, and opened
-- and projected into the tenant's namespace for a run or an agent. The billing shipper and the audit
-- export read their logs behind checkpoints; the janitor prunes what has been shipped and collects
-- what is left over in the cluster. WorkOS creates and deletes the tenants.
--
-- Files and sources:
--   Prelude, Prelude/*: library names, tests, lists, texts, SQL tables with their ordered and limited
--     reads (Orders, Batches), keyed stores, splits of texts, and encoding/hex and encoding/base64.
--   Events: pkg/events/events.go, the payloads.
--   Manifest: pkg/manifest/manifest.go (Manifest.Validate as validate, nameRe as name_re_matches).
--     Manifest/Names, Manifest/WellFormed: what it accepts.
--   Usage: internal/usage/repo.go (RecordRun as record_run). Usage/Unique: one row per run and kind.
--   Runs/Rows: internal/runs/repo.go (Create, Get, ListForAgent, MarkStarted, MarkCompleted).
--     Runs/Rows/Lifecycle, Runs/Rows/Queries: what the writes keep and the reads return.
--   Runs/Resources: internal/runs/types.go, and the parts of the Kubernetes objects in use.
--   Runs/Reconcile: internal/runs/controller.go (Reconcile as reconcile, in the parts with_run,
--     with_job, create_missing, follow_job; publishOnTransition, buildJob).
--     Runs/Reconcile/Publication.
--   Runs/Quota: internal/runs/quota.go. Runs/Quota/Upsert.
--   Runs/Dispatch: internal/runs/dispatch_consumer.go (handle as handle_run) and
--     internal/runs/deployment_consumer.go. Runs/Dispatch/Redelivery, Runs/Dispatch/Isolation.
--   Runs/Hub: internal/runs/events_pubsub.go. Runs/Hub/Validity, Runs/Hub/Delivery.
--   Runs/Feedback: internal/runs/status_consumer.go. Runs/Feedback/Redelivery.
--   Builds: internal/builds/repo.go, and failStuckBuilds of cmd/janitor/main.go. Builds/Lifecycle.
--   Builds/Jobs, Builds/Worker: cmd/builder/main.go (the Job builders; handle in the parts
--     with_agent, build_image, scan_and_sign and sign_and_finish, runJob as run_job and poll_job,
--     complete). Builds/Stages, Builds/Promotion.
--   Billing: internal/billing/shipper.go (tick), and gcUsageEvents of cmd/janitor/main.go.
--     Billing/Batches, Billing/Shipping, Billing/Coverage, Billing/Late, Billing/Progress.
--   Gateway: cmd/gateway/main.go (ServeHTTP as serve_http, resolve, the cache, parseHost,
--     targetURL). Gateway/Hosts, Gateway/Routing.
--   Launch: trigger of internal/runs/handlers.go and fire of cmd/triggers/main.go.
--     Launch/Webhook: webhook and verifySignature of internal/triggers/handlers.go.
--     Launch/Effects, Launch/Backing.
--   Agents: internal/agents/repo.go. Agents/Table.
--     Agents/Handlers: internal/agents/handlers.go (create as handle_create, and so on).
--     Agents/Handlers/Effects.
--     Agents/Deploy: internal/agents/deploy_handlers.go. Agents/Deploy/Requests.
--   Builds/Requests: internal/builds/handlers.go. Builds/Requests/Effects.
--   Auth: internal/auth (verifiers, Middleware, CORS). Auth/Tokens, Auth/Origins.
--   Audit: internal/audit (Log, List, the list handler, Exporter.Run as export_run).
--     Audit/Entries, Audit/Exports.
--   Runs/Serving: internal/runs/deployment_controller.go. Runs/Serving/Pods, Runs/Serving/Repeats,
--     Runs/Serving/Routes.
--   Runs/Surface: internal/runs/handlers.go, events_handler.go and logs.go. Runs/Surface/Streams.
--   Vault: internal/cryptobox/crypto.go (Seal, Open) and internal/secrets/repo.go (Upsert, List,
--     Resolve). Vault/Box, Vault/Table.
--     Vault/Projection: internal/secrets/materialize.go and the two projectSecrets.
--     Vault/Projection/Contents. Vault/Surface: internal/secrets/handlers.go.
--   Schedule: internal/triggers/repo.go. Schedule/Table.
--     Schedule/Surface: internal/triggers/handlers.go. Schedule/Scheduler: refresh of
--     cmd/triggers/main.go, with the cron library as a record of operations and its laws as another
--     record. Schedule/Scheduler/Sync, Schedule/Scheduler/Sweep.
--   Tenants: internal/tenants (repo.go, webhook.go, me.go). Tenants/Signatures, Tenants/Removal.
--   Janitor: tick, gcJobs, gcOrphanSecrets and exportAudit of cmd/janitor/main.go.
--     Janitor/Survivors.
--   Examples, Examples/*: concrete runs.
--
-- Conventions. A Go string is the list of its bytes. A table is the list of its rows in the order
-- of insertion, an object store or a map a list under keys. Time and fresh ids are arguments; a
-- time is a number of nanoseconds. The outcome of a call outside the process is a field of a
-- record that the operation takes, so a theorem about all such records is about all outcomes. A
-- log line is dropped. A row of a table with a BIGSERIAL id is listed by its id; where ids and
-- checkpoints are at stake, an insertion is two steps, the draw of its id and its commit, and
-- elsewhere one. A library outside the repository (the cipher, the keyed hash, the JWT and the
-- cron libraries, the decoders) is a parameter, with what the code relies on as laws; the JSON of
-- the manifest column is not modelled. No operation is cut short by fuel: the loops are over rows,
-- over triggers, over objects, and over the looks that runJob takes at its Job up to its deadline,
-- which are given as a list. The only fuel is that of the decimal digits of an int32 port, which
-- are ten at most (Runs/Serving/Pods).
--
-- Not modelled: the fetch and the cache of the JWT key set, the framing of event streams, the event
-- bus's client, telemetry, configuration and process start, the clients of Orb, Loki and Kubernetes,
-- the command line client, the SDKs and the web console: they are I/O, or clients of the api. The
-- reverse proxy behind serve_http and the parsing of quantities, times and JSON belong to libraries.
pub mod Agents
pub mod Audit
pub mod Auth
pub mod Billing
pub mod Builds
pub mod Events
pub mod Examples
pub mod Gateway
pub mod Janitor
pub mod Launch
pub mod Manifest
pub mod Prelude
pub mod Runs
pub mod Schedule
pub mod Tenants
pub mod Usage
pub mod Vault
