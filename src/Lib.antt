-- ===== src/Lib.antt =====
-- The measurement substrate of guildmind (src/guildmind): the records of a run, the budget
-- authority, the replay of a run's events, the SQLite ledger that keeps them, the audit of a state
-- directory, and the evidence of a reliability campaign.
--
-- A run is a manifest and a stream of hash-linked events. A client reserves budget before it
-- dispatches a model request, and every step of the run's life is one transaction of the ledger that
-- appends events, saves a new revision of the manifest and updates the budget row. Replay rebuilds
-- the state of a run from its events; the ledger replays before it writes and again before it
-- commits, and compares the manifest and the budget with the replayed state.
--
-- Common: Python's tests, texts, dictionaries and sets as lists, exceptions as results.
-- Domain (src/guildmind/domain/models.py, serialization.py): BudgetUsage and its arithmetic (Usage),
--   BudgetLimits.exceeded_limits (Limits), RunStatus (Status), ArtifactRef and EventRecord with its
--   validators (Event), RunManifest with its lifecycle validator (Manifest), and pydantic's reading
--   of payloads (Parse). Floats are a parameter with the laws of IEEE arithmetic that the proofs use
--   (Float); JSON values are a data type (Json).
-- Budget (src/guildmind/runtime/budget.py): BudgetAuthority, one function per method. A method that
--   raises leaves the authority as it was.
-- Replay (src/guildmind/runtime/replay.py): verify_event_chain (Chain) and replay_events (Stream)
--   with one function for each branch on the event type (Lifecycle, Requests, Artifacts).
-- Store (src/guildmind/storage/events.py): a method is a function from the ledger to a value and a
--   ledger, or an exception (Exec); a raise rolls the transaction back, and the clock is read again
--   from the stamp at which the transaction began. Tables has the four tables and the SQL statements
--   with their constraints, Read the verifying readers, Write the writers and `_transaction`,
--   Lifecycle and Terminal the eight methods of a run's life, Query the public readers, Operation a
--   call of a method as a value. What SQLite, json and pydantic's reading and dumping of records do is
--   the record Wire.
-- Audit (src/guildmind/storage/coordinator.py, integrity.py): audit_storage (Coordinator) over a Site,
--   which is what each look at a path shows and what the two stores answer; the derived report with its
--   validator (Report), the commitment to the ledger's roots (Snapshot), the records of an artifact
--   audit with theirs (Findings), and the audits made without a store (Unread). The audit reads the
--   ledger by verify_integrity of Store.
-- Campaign (src/guildmind/domain/campaign.py, runtime/campaign.py): the full-factorial schedule of a
--   campaign (Manifest), the evidence of one attempt (Evidence), the report whose totals and verdict are
--   derived from it (Report), and the reconciliation of one attempt with its state directory (Attempt,
--   Reconcile), which audits the directory twice and reads the run by Store's readers in between.
--
-- An exception is a value of Common.Error, one constructor for each class that a handler of the program
-- tells apart: RuntimeErrors such as ReplayIntegrityError are not ValueErrors, and each handler catches
-- the classes that its `except` line lists. Raises (in Replay, Store and Audit) has which classes the
-- code can raise.
--
-- All loops are structural recursion on lists; no fuel is used. Event sequences, revisions and counts
-- are Python's unbounded integers.
--
-- Not modelled: opening, creating and inspecting the database file, the artifact store's files and the
-- scan of them, quarantine and maintenance, the orchestration of a run, the sandboxes, the evaluators'
-- processes, the command line, and the semantic digest of a replay.
pub mod Common
pub mod Domain
pub mod Budget
pub mod Replay
pub mod Store
pub mod Audit
pub mod Campaign
