-- ===== src/Journal/Operations.antt =====
-- The operations of the journal: `adapters/sqlite_store.py`, lines 636 to 689, 1010 to 1086 and 3722
-- to 3871. A transaction that raises leaves the journal as it was. The checks of Python types are left out.
use creatidy_kernel.Base.{
  is_blank, ℕ, ◌+◌, String, Bool, true, false, ◌&&◌, ◌||◌, not, Option, none, some, [], ◌∷◌,
  if◌then◌else◌, is_some, differ, ltb, leb, ◌==◌, ◌!=◌, nat_eq, string_eq, names_eq, optional_eq,
  length, is_empty, any, find?, select, any_option, contains, ◌>>=◌, raise_if, ◌>>◌, or_raise,
  value_error, operation_conflict, Result, err, ok,
}
use creatidy_kernel.Journal.Tables.{
  operation_status_eq, observation_kind_eq, lookup_eq, attempts_at, update, OperationStatus, Lookup,
  Operation, Journal, Request, Codec,
}

-- `_insert_intent`
unfoldable pub insert_intent : Codec → String → String → Request → Bool → Journal → Result Journal
insert_intent codec ident effect_key request allow_existing journal =
    let request_json = codec.dumps request in
    let digest = codec.sha256 request_json in
    let existing =
      select (λ o. o.operation_id == ident || o.effect_key == effect_key) journal.operations in
    if is_empty existing
    then ok (record journal {
      operations =
          record {
            operation_id = ident;
            effect_key = effect_key;
            request_json = request_json;
            request_digest = digest;
            fence = 0;
            lease_until = none;
            status = OperationStatus.intent;
            accepted_reference = none;
            retry_proof = none;
          }
          ∷ journal.operations;
      outbox = ident ∷ journal.outbox;
    })
    else if not allow_existing
    then err operation_conflict
    else if length existing != 1
        || any
            (λ o.
              o.operation_id != ident || o.effect_key != effect_key || o.request_digest != digest)
            existing
    then err operation_conflict
    else ok journal

-- `operation`
unfoldable pub operation : Journal → String → Result Operation
operation journal ident = do
  raise_if (is_blank ident) value_error
  or_raise (find? (λ o. o.operation_id == ident) journal.operations) operation_conflict

-- `intent`
unfoldable pub commit_intent : Codec → String → String → Request → Journal → Result Journal
commit_intent codec ident effect_key request journal = do
  raise_if (is_blank ident || is_blank effect_key) value_error
  insert_intent codec ident effect_key request true journal

unfoldable pub is_settled : OperationStatus → Bool
is_settled status =
    contains
      (OperationStatus.accepted ∷ OperationStatus.running ∷ OperationStatus.waiting
        ∷ OperationStatus.terminal ∷ OperationStatus.rejected ∷ [])
      status

unfoldable pub is_retry_proof : Option Lookup → Bool
is_retry_proof none = false
is_retry_proof (some outcome) = contains (Lookup.absent ∷ Lookup.idempotent ∷ []) outcome

-- `json.loads(op.request_json)["request"].get("kind")`; a text that is not a request has been
-- refused at startup.
unfoldable pub kind_of : Codec → Operation → Option String
kind_of codec op = elim (codec.loads op.request_json) [ none ↦ none | some request ↦ request.kind ]

unfoldable pub is_held : Operation → ℕ → Bool
is_held op now = any_option (λ until. ltb now until) op.lease_until

-- What precedes a dispatch in the work budget: it refuses, or it goes on with the work records that
-- it adds to the journal as intents.
abbrev pub Gate : Type 0
Gate = Journal → Operation → Result Journal

-- `_claim_operation`, from the guards on the request on
unfoldable pub check_claim : Codec → Journal → Operation → ℕ → Result (Unit {0})
check_claim codec journal op now = do
  raise_if (kind_of codec op == some "ordinary-intake-record") operation_conflict
  raise_if (kind_of codec op == some "work-budget-record") operation_conflict
  raise_if (is_held op now) operation_conflict
  raise_if (is_settled op.status) operation_conflict
  raise_if
      (not (is_empty (attempts_at journal op.operation_id)) && not (is_retry_proof op.retry_proof))
      operation_conflict

unfoldable pub dispatch : String → ℕ → ℕ → Operation → Journal → Journal
dispatch ident now lease op journal = record journal {
  operations =
      update ident
        (λ o. record o {
          fence = op.fence + 1;
          lease_until = some (now + lease);
          status = OperationStatus.dispatched;
          retry_proof = none;
        })
        journal.operations;
  attempts =
      record {
        operation_id = ident;
        fence = op.fence + 1;
        claimed_at = now;
        lease_until = now + lease;
      }
      ∷ journal.attempts;
}

-- `claim`: the fence, and the journal with the attempt recorded
unfoldable pub claim : Codec → Gate → Journal → String → ℕ → ℕ → Result (ℕ × Journal)
claim codec gate journal ident now lease = do
  raise_if (leb lease 0) value_error
  op ← operation journal ident
  reserved ← gate journal op
  check_claim codec journal op now
  ok (op.fence + 1, dispatch ident now lease op reserved)

-- The part of `record_transport` after the fence
unfoldable pub add_transport : Journal → String → ℕ → Bool → Result Journal
add_transport journal ident fence succeeded =
    elim (find? (λ t. t.operation_id == ident && t.fence == fence) journal.transports) [
      | some prior ↦ raise_if (differ prior.succeeded succeeded) operation_conflict >> ok journal
      | none ↦ ok (record journal {
        transports =
            record { operation_id = ident; fence = fence; succeeded = succeeded }
            ∷ journal.transports;
      })
    ]

-- `record_transport`
unfoldable pub record_transport : Journal → String → ℕ → Bool → Result Journal
record_transport journal ident fence succeeded = do
  op ← operation journal ident
  raise_if (op.fence != fence || is_empty (attempts_at journal ident) || is_some op.retry_proof)
      operation_conflict
  add_transport journal ident fence succeeded
