-- ===== src/Lib.antt =====
-- Dandori keeps issues of many tenants in PostgreSQL, writes an event to an outbox with each of
-- them, and publishes the events with workers. This library models the code of that path and
-- proves what makes it correct.
--
-- Domain is crates/dandori-domain: commands and their validation, idempotency keys, names,
-- errors. Store is crates/dandori-store. Its Schema has a record for each table of
-- migration_sql.rs, and Db the tables together; a transaction is a function from the tables to a
-- Result that holds the new tables, and an error is a rollback. Store.Issue is
-- repositories/issue.rs, with a file for the rows and fingerprints, the idempotency record, the
-- inserts and the transaction; Store.Outbox is repositories/outbox.rs, split into the lease, the
-- two transactions that end a lease, and the clean-ups; Store.Outbox.History puts them together
-- as a step relation, over which its Invariant, Lifecycle, Attempts and Exclusive follow the
-- table and a row. Store.Partition is repositories/partition.rs and Store.Tenants is
-- repositories/workspace.rs and project.rs. Policy is crates/dandori-policy. App is
-- crates/dandori-app-services: the service (service.rs), its transports (adapters.rs) and the
-- types of crates/dandori-contract. Worker is the directory worker of the same crate: publish.rs,
-- registry.rs (its handlers in Worker.Handlers), service.rs and config.rs; Worker.Service.Batch,
-- Cycle, Poison and Delivery follow a batch from its lease, and an event from its insertion, to
-- the end. Auth is crates/dandori-auth: Algorithms is algorithms.rs, and of lib.rs Keys is the
-- key set, Token the checks of a token, Refresh the task that loads the keys again, and Config
-- the environment. Observability is crates/dandori-observability. Plans has the crates
-- dandori-graph, dandori-workflow, dandori-sync-github and dandori-orchestrator. Bin has the
-- processes: Worker is bin/dandori-worker, Api is bin/dandori-api, Mcp is bin/dandori-mcp, and
-- DepsCheck is bin/dandori-deps-check, whose Walk reads directories and whose Imports reads use
-- trees. Base has the shared helpers, and Store.Table what the SQL statements do to a list of
-- rows. Tests runs the theorems at concrete inputs.
--
-- Api and Mcp authenticate a caller by a token and hand its request to the service. The service
-- asks the policy, makes a command, and gives it to the store, which writes the issue and its
-- outbox row in one transaction. A worker acquires workspaces through partition leases, leases
-- outbox rows of each, publishes them through the registry and a publisher, and marks each
-- delivered or failed; its process runs such cycles with the settings of the environment until it
-- is told to stop, and then releases the leases.
--
-- What the models leave to their arguments: PostgreSQL's clock, the fresh UUIDs, the rows that
-- other transactions hold (SKIP LOCKED), the snapshot that a statement has seen, the answers of
-- the HTTP upstream, the random jitter, serde_json (the records Serde and RpcJson, and `J`, its
-- values), SHA-256, uuid, jsonwebtoken (the record Libraries), what a load of the keys brings,
-- the environment, the output of cargo, the file system and the parser syn (the record Sources).
-- A UUID is a number that is only compared, an instant a count of microseconds after the epoch.
-- An INSERT meets the policy of the tenant, the CHECKs, the unique indexes and the foreign keys
-- in this order. Most functions are structural recursions over lists and texts. Two take fuel:
-- the printing of decimal numbers, where n + 1 digits are enough for n, and the walk over
-- directories, where one round for each directory is enough. The breaker's u32 counter wraps, and
-- its i64 sum saturates, as in the source.
--
-- Not modelled: connection pools and migrations (calls of sqlx and of the migration runner),
-- dandori-migrate, the router of axum and the set-up of the processes, log lines and metrics, and
-- the containers and stub publishers of the test support. A loss of the connection to the
-- database has the place of an argument where a run acquires its partitions and where the
-- shutdown releases them; every other statement fails for the reasons that the tables give it.
-- PostgreSQL refuses the character U+0000 in a text; the models have no such refusal. The i32
-- counters of attempts are unbounded naturals: no message is failed more often than the limit of
-- attempts, which the settings bound far below the range of i32.
pub mod Base
pub mod Domain
pub mod Store
pub mod Policy
pub mod Auth
pub mod Plans
pub mod Observability
pub mod App
pub mod Worker
pub mod Bin
pub mod Tests
