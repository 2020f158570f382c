-- ===== src/Lib.antt =====
-- The background work of MNEMEX, a service that keeps the results of timbersports competitions.
--
-- The parts and how they interact. A worker process runs queues: the queue of security mails to
-- accounts (mnemex/accounts/notifications.py) and the queue of APPLY jobs of the bulk migration of
-- legacy results (mnemex/legacy_migration/jobs.py, over the rows of
-- mnemex/legacy_migration/models.py). The supervisor (mnemex/supervisor.py) calls a bounded batch of
-- each queue in turn. Both queues work alike: a row is claimed under a lease by a worker, which
-- draws a token and raises the claim generation of the row; later calls present the claim, and a row
-- whose lease ended may be taken over by another worker. The rotation of the keys that seal MFA
-- authenticators (mnemex/accounts/key_rotation.py) is a third such queue, whose batches open and seal
-- texts with a ring of versioned keys (mnemex/accounts/keyring.py). The worker also reconciles the
-- uploads of result files with the private store (mnemex/results/artifact_lifecycle.py). Apart from
-- the queues, consent (mnemex/consent/services.py) decides which fields of a profile a partner or the
-- public is shown.
--
-- The files:
-- - Base: the shared names; Base/Failure the exceptions by class (a Result), Base/Moment instants and
--   spans in microseconds with the checks of `now` and of a lease, Base/Rows a table by key,
--   Base/Ordered `order_by(...).first()`, Base/Query queries of a table and their pages, Base/Strip the
--   tests of strings, Base/Lists and Base/Tests.
-- - Notifications: Model (the row, the claim and its assertion), Claims (`_claimable`,
--   `_claim_next_notification_attempt`), Settle (heartbeat, handoff, the settlements, release),
--   Retention (the expiry of recipients), Worker (`run_security_notifications_once`), History (the
--   operations as sequences). Edges, Follows, Evolution and Transitions classify what a write does to
--   a row; Validity, Fencing, Accounting and Selection hold the theorems; Tests the runs.
-- - MigrationJobs: Model, Save (`LegacyMigrationJob.clean` and `save`), Enqueue, Claims, Queue (the
--   loops over organizations), Settle. Legal shows that the writes pass `save`; Advance, Ensures,
--   Grants and Reach follow the jobs through sequences of transactions; Finality,
--   Outcomes, Takeover and Requests hold the theorems; Tests the runs.
-- - MigrationChunks: Model (`_planned_chunks` of mnemex/legacy_migration/services.py, on the list of
--   previews that its query returns), Partition the theorem, Tests the runs.
-- - Keyring: Decimal (decimal numerals as texts), Model (`VersionedKeyRing`, `parse_key_ring_entries`,
--   the ciphertexts `v<version>.<payload>`), Json (`parse_key_ring_json`, with its theorem); Format,
--   Sealing and Validation hold the other theorems, Tests the runs.
-- - KeyRotation: Model, Queue (request, claim, release, failure), Batch
--   (`run_mfa_key_rotation_batch`), Retirement (`required_key_versions`, `key_retirement_blockers`).
--   Versions and Reseal show what happens to one authenticator, Sweep and Progress what happens to a
--   batch; Completion, Claiming and Blockers hold the theorems; Tests the runs.
-- - Artifacts: Model (the rows of mnemex/results/models.py and `ArtifactObjectWrite.save`), Lifecycle (an
--   upload's attempt), Reconcile (`_reconcile_one`, `reconcile_artifact_objects`). Follows, Removal and
--   Operations show what a write, a reconciliation and an operation do to the rows; Safety, History and
--   Counts hold the theorems; Tests the runs.
-- - Consent: Model (the rows), Services (issue, revocation and disclosure of grants of
--   mnemex/consent/services.py), Public (the public profile); Authority and Current say what the tests and
--   the query of the rows mean; Disclosure, Revocation and
--   Projection hold the theorems; Tests the runs.
-- - Supervisor: Model (`_checked_tasks`, `run_supervisor`), Run the counts, Log the log of a run and the
--   schedule, Track the loops over them, Schedule the theorem, Tests the runs.
--
-- The correspondence. A function of the source is a function of the same name that takes the database
-- (a record of lists of rows) and returns it with the result, or the exception's class; a transaction
-- that raises leaves the database as it was. Columns that no modelled operation reads or writes, the
-- texts of exceptions and `updated_at` are left out. A `now` argument is aware, naive or the clock's
-- reading. Tokens, nonces, ciphers, base64, UTF-8, JSON, identifiers of new rows, the rows that other
-- transactions lock (`skip_locked`), decryption, rendering, SMTP, the store of files, the authorization
-- of an account for a migration and the approval of a run are
-- parameters. A write saves a whole row, which is what `update_fields` saves since a row is read under
-- its lock and no other column is changed, with one exception: `_terminalize_review` leaves out the
-- failure_count that its callers raise, so that an operation of a notification (an `Update`) gives the
-- stored row and the instance that is reported apart.
--
-- Bounds and fuel. Rows are lists of any length. The loops over organizations and rows recurse on the
-- list that a query returned; the batch of the notification worker recurses on its limit, of at most
-- 25 rounds, and the supervisor on its cycle limit, of at most 1,000,000, so neither can
-- run out. The partition into chunks takes the number of previews as fuel, which is enough since each
-- table plan and each chunk takes at least one preview. The loop that claims a rotation takes fuel: more
-- than the number of running jobs is enough, since every round but the last one ends a running job.
--
-- Not modelled: the enqueueing of notifications and their metrics, the checkpoints and the completion
-- of a migration (mnemex/legacy_migration/services.py) with `execute_apply_job`, a supervisor without a
-- cycle limit, and the other packages of the service: results, people, export, career,
-- recovery, activation, foundation and the web interface.
pub mod Base
pub mod Keyring
pub mod KeyRotation
pub mod Artifacts
pub mod Consent
pub mod Notifications
pub mod MigrationJobs
pub mod MigrationChunks
pub mod Supervisor
