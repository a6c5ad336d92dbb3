-- ===== src/Lib.antt =====
-- Verification of the core of creatidy-kernel: the Program aggregate of
-- `src/creatidy_kernel/core/domain.py`, the operation journal and the store of
-- Programs of `src/creatidy_kernel/adapters/sqlite_store.py`, claims of work and proofs of handoff
-- of `src/creatidy_kernel/core/ownership.py`, the assessment of remediation of
-- `src/creatidy_kernel/core/verification.py`, the progress buffer of
-- `src/creatidy_kernel/core/served.py` and the deadlines of
-- `src/creatidy_kernel/core/deadlines.py`.
--
-- The aggregate is pure: a Program holds a specification (a graph of WorkUnits with inputs,
-- budget and authority), the Attempts at its WorkUnits, and append-only records of satisfactions,
-- cancellations and conclusions. A command names the revision it expects and its actor.
-- `Program.apply` checks both, runs the branch of the command, projects the WorkUnit states anew
-- (`_project`), derives the status, and validates the whole (`_assemble`, `_validate`) before it
-- returns the next Program. An exception leaves the old one as it is.
--
-- The journal records effects on the outside world before they happen: an intent is committed under
-- its own key, a claim dispatches it under a new fence with a lease, and transport reports,
-- observations and lookups are written under that fence. The check at startup
-- (`_validate_operation_records`) compares the state of an operation with what has been recorded.
--
-- The store keeps Programs as an append-only history of facts, a projection of the latest facts and
-- the result of each command under its key. `_admit_decision` loads the Program, applies the command
-- and writes history, projection, result and, in the same transaction, the intent of the journal.
--
-- A claim of work holds resources, of which paths conflict where one tree is in the other; a proof of
-- handoff binds a claim exactly.
--
-- The buffer keeps the latest events of a producer for readers that resume at a position; a deadline
-- is projected from a wall clock to a clock that survives suspension. Neither shares state with the
-- aggregate.
--
-- Files, with what they model of `src/creatidy_kernel/core/domain.py`, or of the file named:
--   Base, Base/*           Boolean tests, lists, sets of identifiers, results with exceptions
--   Domain/Checks          `_nonempty` … `_criteria`, JSON values and `_digest`
--   Domain/Values          the enumerations, budget, authority, policies, input bindings
--   Domain/Topology        `WorkUnit`, `_topological_order`
--   Domain/Spec            `ProgramSpec`, its graph checks, payloads and fingerprint
--   Domain/Amendment       `SpecAmendment`, `ProgramSpec.amend`
--   Domain/Facts           `AttemptSpec` to `WorkUnitState`
--   Domain/Projection      `_resolved_inputs`, `_same_subject`, `_project`, `_program_status`
--   Domain/Program         `Program`, `create`, its queries, `_authorize`
--   Domain/Validation      `_validate`
--   Domain/Commands        the commands and their checks
--   Domain/Transitions     the branches of `apply` up to `CancelAttempt`
--   Domain/Recording       the branches `SatisfyWorkUnit` and `AmendProgramSpec`
--   Domain/Apply           `apply`, `_assemble`
--   Domain/Samples, Domain/Runs       a Program of two WorkUnits, and commands that run on it
--   Domain/Examples                   the theorems applied to it
--   Journal/Tables         the tables of operations: `_migrate_1_to_2` of
--                          `src/creatidy_kernel/adapters/sqlite_store.py`
--   Journal/Operations     `_insert_intent`, `operation`, `_claim_operation`, `record_transport`
--   Journal/Evidence       `observe`, `reconcile`
--   Journal/Validation     `_validate_operation_records`
--   Journal/Samples, Journal/Examples   a delivery, and the theorems applied to it
--   Store/Tables           the tables of Programs: `_migrate_0_to_1` of
--                          `src/creatidy_kernel/adapters/sqlite_store.py`
--   Store/Admission        `_create`, `load`, `_admit_decision`, `_duplicate_result`, `_load_head`
--   Store/Codec            `program_json`, `program_from_json`, and the checks of references, of
--                          `src/creatidy_kernel/adapters/sqlite_codec.py`
--   Store/Samples, Store/Examples       a store of one Program, and the theorems applied to it
--   Progress, Progress/*   `src/creatidy_kernel/core/served.py`: positions, `append`, `read`
--   Deadlines, Deadlines/* `src/creatidy_kernel/core/deadlines.py`: `bind`, `decision_time`
--   Ownership, Ownership/* `src/creatidy_kernel/core/ownership.py`: scopes, claims, proofs of handoff
--   Remediation, Remediation/*          `assess_remediation` of
--                          `src/creatidy_kernel/core/verification.py`
-- The child modules hold the proofs, named for what they prove.
--
-- How the code is rendered: an exception is a value of `Error`, its message left out; a method that
-- may raise returns a `Result`; the local variables of `apply` are the record `Draft`; an identifier
-- is a native text, an integer that the constructors check to be natural a native number; a
-- frozenset of identifiers is the ascending list of its members, so that equal sets are equal lists.
-- A dict is the sequence that it is built from, read from its end. `==` on records is decided field
-- by field.
--
-- A table of the journal is the list of its rows, `WHERE operation_id = ?` a comprehension over it,
-- and a transaction that raises changes nothing. Times of the journal are natural numbers. What
-- precedes a dispatch in the work budget is a parameter, `Gate`: it refuses, or adds intents.
-- The store takes the texts of Programs and inputs as types, with an interface (`StoreCodec`) that
-- may refuse a Program when it is written and a text when it is read; nothing is assumed of it.
-- `sqlite_codec` fills it with the checks that `adapters/sqlite_codec.py` makes on both ways; the
-- texts themselves (`Texts`) are a parameter, of which nothing is assumed either. The other guards of
-- the store are functions (`Guards`).
--
-- Fuel: `_topological_order` has one round for each WorkUnit, since a round removes one; the loop of
-- the fingerprint has the number of dependencies twice, since a WorkUnit is visited once; the loop of
-- `AmendProgramSpec` has one round more than there are Attempts, since a round cancels a live one.
-- `out_of_fuel` is the model's own exception.
--
-- Not modelled: `hashlib.sha256` and `json.dumps` behind `_digest`, which are a parameter, any
-- function from JSON values to texts; the checks of Python types and the sealing of classes, which
-- types bring about here; of `_claim_operation` the guards on ownership, workspace and budget,
-- which are the parameter `Gate`; `deliver_fake`, which makes the calls of the journal around a
-- synthetic effect; the fields that the codec of Programs writes and reads one by one; the blobs of
-- finalized artifacts, the tables of WorkUnits and Attempts, backups and migrations of the store,
-- and the same guards of `_admit_decision`;
-- `DeadlineProjection.decode` and `command_prefix`; the ports and adapters of
-- `src/creatidy_kernel`, which transport Programs, run tasks and call external programs;
-- `verify_candidate` and `admit_accepted` of `core/verification.py`; the other modules of `core`.
pub mod Base
pub mod Deadlines
pub mod Domain
pub mod Journal
pub mod Ownership
pub mod Progress
pub mod Remediation
pub mod Store
