-- ===== src/Journal/Tables.antt =====
-- The tables of the operation journal: `_migrate_1_to_2` of `adapters/sqlite_store.py`. A table is
-- the list of its rows, the newest one first. Times are natural numbers.
use creatidy_kernel.Base.{
  ℕ, String, Bool, Option, List, [], map, if◌then◌else◌, ◌==◌, nat_eq, string_eq, names_eq,
  optional_eq, Eq, select,
}

pub data OperationStatus : Type 0 where
  intent dispatched accepted rejected running waiting terminal unknown : OperationStatus

pub data ObservationKind : Type 0 where
  accepted rejected running waiting terminal unknown : ObservationKind

pub data Lookup : Type 0 where
  absent idempotent found unknown : Lookup

unfoldable pub OperationStatus-discrete : Discrete OperationStatus
OperationStatus-discrete = hlevel

unfoldable pub ObservationKind-discrete : Discrete ObservationKind
ObservationKind-discrete = hlevel

unfoldable pub Lookup-discrete : Discrete Lookup
Lookup-discrete = hlevel

instance abbrev pub operation_status_eq : Eq OperationStatus
operation_status_eq = record { decision = OperationStatus-discrete }

instance abbrev pub observation_kind_eq : Eq ObservationKind
observation_kind_eq = record { decision = ObservationKind-discrete }

instance abbrev pub lookup_eq : Eq Lookup
lookup_eq = record { decision = Lookup-discrete }

-- The status that an observation gives.
abbrev pub status_of : ObservationKind → OperationStatus
status_of ObservationKind.accepted = OperationStatus.accepted
status_of ObservationKind.rejected = OperationStatus.rejected
status_of ObservationKind.running = OperationStatus.running
status_of ObservationKind.waiting = OperationStatus.waiting
status_of ObservationKind.terminal = OperationStatus.terminal
status_of ObservationKind.unknown = OperationStatus.unknown

pub record Operation : Type 0 where
  pub operation_id : String
  pub effect_key : String
  pub request_json : String
  pub request_digest : String
  pub fence : ℕ
  pub lease_until : Option ℕ
  pub status : OperationStatus
  pub accepted_reference : Option String
  pub retry_proof : Option Lookup

pub record DeliveryAttempt : Type 0 where
  pub operation_id : String
  pub fence : ℕ
  pub claimed_at : ℕ
  pub lease_until : ℕ

pub record Observation : Type 0 where
  pub observation_id : String
  pub operation_id : String
  pub fence : ℕ
  pub kind : ObservationKind
  pub reference : Option String

pub record Transport : Type 0 where
  pub operation_id : String
  pub fence : ℕ
  pub succeeded : Bool

pub record Reconciliation : Type 0 where
  pub operation_id : String
  pub fence : ℕ
  pub outcome : Lookup
  pub reference : Option String
  pub evidence : String
  pub matched_digest : Option String
  pub authoritative_absence : Bool

pub record Journal : Type 0 where
  pub operations : List Operation
  pub outbox : List String
  pub attempts : List DeliveryAttempt
  pub observations : List Observation
  pub transports : List Transport
  pub reconciliations : List Reconciliation

abbrev pub empty_journal : Journal
empty_journal = record {
  operations = [];
  outbox = [];
  attempts = [];
  observations = [];
  transports = [];
  reconciliations = [];
}

-- `WHERE operation_id = ?`
unfoldable pub attempts_at : Journal → String → List DeliveryAttempt
attempts_at journal ident = select (λ a. a.operation_id == ident) journal.attempts

unfoldable pub observations_at : Journal → String → List Observation
observations_at journal ident = select (λ o. o.operation_id == ident) journal.observations

unfoldable pub reconciliations_at : Journal → String → List Reconciliation
reconciliations_at journal ident = select (λ r. r.operation_id == ident) journal.reconciliations

-- `UPDATE operations SET … WHERE operation_id = ?`
unfoldable pub update : String → (Operation → Operation) → List Operation → List Operation
update ident step operations = map (λ o. if o.operation_id == ident then step o else o) operations

-- A request: its entry `kind`, and the text of the other entries.
pub record Request : Type 0 where
  pub kind : Option String
  pub content : String

-- `canonical_json({"version": 1, "request": request})`, `json.loads` of such a text, and the SHA-256
-- digest of a text.
pub record Codec : Type 0 where
  pub dumps : Request → String
  pub loads : String → Option Request
  pub sha256 : String → String
