-- ===== src/Store/Admission.antt =====
-- The admission of a Program and of commands: `_create`, `load`, `_admit_decision`,
-- `_duplicate_result`, `_load_head` of `adapters/sqlite_store.py`. A transaction that raises leaves
-- the store as it was.
use creatidy_kernel.Base.{
  is_blank, ℕ, ◌+◌, String, Bool, true, false, ◌||◌, Option, none, some, List, [], ◌∷◌,
  if◌then◌else◌, is_some, ltb, ◌==◌, ◌!=◌, nat_eq, string_eq, names_eq, optional_eq, find?, select,
  ◌>>=◌, raise_if, ◌>>◌, or_raise, value_error, operation_conflict, idempotency_conflict,
  program_not_found, program_already_exists, corrupt_history, Result, err, ok,
}
use creatidy_kernel.Domain.Checks.{Digest, json_eq}
use creatidy_kernel.Domain.Values.{
  program_status_eq, work_unit_status_eq, attempt_status_eq, domain_action_eq, policy_reference_eq,
  bindings_eq, subjects_eq,
}
use creatidy_kernel.Domain.Spec.{program_spec_eq, ProgramSpec}
use creatidy_kernel.Domain.Facts.{states_eq}
use creatidy_kernel.Domain.Program.{create, Program}
use creatidy_kernel.Domain.Commands.{Command}
use creatidy_kernel.Domain.Apply.{apply}
use creatidy_kernel.Journal.Tables.{
  operation_status_eq, observation_kind_eq, lookup_eq, Journal, Request, Codec,
}
use creatidy_kernel.Journal.Operations.{insert_intent}
use creatidy_kernel.Journal.Intents.{intended}
use creatidy_kernel.Store.Tables.{HistoryRow, AdmissionRow, ProjectionRow, Store}

-- `adapters/sqlite_codec.py`, and the SHA-256 digests. A Program may be refused when it is written,
-- and a text when it is read: nothing is assumed of either.
pub record StoreCodec (Facts Input : Type 0) : Type 0 where
  pub program_json : Program → Result Facts
  pub program_from_json : Facts → Option Program
  pub create_input_json : ProgramSpec → Input
  pub command_input_json : String → Command → Input
  pub command_type : Input → String
  pub digest_json : Input → String
  pub sha256 : Facts → String

-- An intent that is admitted with a command: the identifier of the operation, the key of its effect
-- and the request.
pub record Intent : Type 0 where
  pub operation_id : String
  pub effect_key : String
  pub request : Request

-- What ownership and work budget add to a command. The first refuses it or not, the others refuse it
-- or go on with the records that they add to the journal, before and after the intent.
pub record Guards (Facts Input : Type 0) : Type 0 where
  pub ownership : Store Facts Input → String → Command → Result (Unit {0})
  pub reserve : Store Facts Input → String → Command → Option Intent → Result Journal
  pub bind : Journal → String → Command → Option Intent → Result Journal

-- `CODEC_VERSION`
abbrev pub codec_version : ℕ
codec_version = 1

module _ {Facts Input : Type 0} where
  -- `ORDER BY sequence DESC LIMIT 1`
  unfoldable pub greatest : List (HistoryRow Facts Input) → Option (HistoryRow Facts Input)
  greatest [] = none
  greatest (row ∷ rows) = elim (greatest rows) [
    | none ↦ some row
    | some last ↦ if ltb row.sequence last.sequence then some last else some row
  ]

  unfoldable pub latest_row : Store Facts Input → String → Option (HistoryRow Facts Input)
  latest_row store ident = greatest (select (λ row. row.program_id == ident) store.history)

  unfoldable pub projection : Store Facts Input → String → Option (ProjectionRow Facts Input)
  projection store ident = find? (λ row. row.program_id == ident) store.projections

  -- The comparison of a projection with the head of the history.
  unfoldable pub is_behind : ProjectionRow Facts Input → Option (HistoryRow Facts Input) → Bool
  is_behind row none = true
  is_behind row (some head) =
      head.sequence != row.history_sequence
      || head.facts_digest != row.facts_digest
      || row.schema_version != codec_version

module _ {Facts Input : Type 0} (codec : StoreCodec Facts Input) where
  -- `_decode_facts`
  unfoldable pub decode_facts : Facts → String → ℕ → Result Program
  decode_facts raw ident revision = do
    program ← or_raise (codec.program_from_json raw) corrupt_history
    raise_if (program.spec.program_id != ident || program.revision != revision) corrupt_history
    ok program

  -- `_load_head`
  unfoldable pub load_head : Store Facts Input → String → Result Program
  load_head store ident = do
    row ← or_raise (projection store ident) program_not_found
    raise_if (codec.sha256 row.program_json != row.facts_digest) corrupt_history
    program ← decode_facts row.program_json ident row.aggregate_revision
    raise_if (is_behind row (latest_row store ident)) corrupt_history
    ok program

  -- `load`
  unfoldable pub load : Store Facts Input → String → Result Program
  load store ident = raise_if (is_blank ident) value_error >> load_head store ident

  -- `_duplicate_result`
  unfoldable pub recorded : AdmissionRow Facts Input → String → Result Program
  recorded row input_digest = do
    raise_if (row.input_digest != input_digest) idempotency_conflict
    raise_if (codec.sha256 row.result_json != row.result_digest) corrupt_history
    or_raise (codec.program_from_json row.result_json) corrupt_history

  unfoldable pub duplicate_result : Store Facts Input → String → String → Result (Option Program)
  duplicate_result store key input_digest =
      elim (find? (λ row. row.command_key == key) store.admissions) [
        | none ↦ ok none
        | some row ↦ recorded row input_digest >>= λ program. ok (some program)
      ]

  -- `_insert_history`, `_write_projections` and `_insert_command_result`, which `_create` and
  -- `_admit_decision` call with the same values.
  unfoldable pub write_facts :
      Store Facts Input → Program → Facts → ℕ → String → String → Input → Store Facts Input
  write_facts store program facts sequence key actor input =
      let ident = program.spec.program_id in
      record store {
        history =
            record {
              program_id = ident;
              sequence = sequence;
              schema_version = codec_version;
              command_key = key;
              command_type = codec.command_type input;
              actor_id = actor;
              input_digest = codec.digest_json input;
              input_json = input;
              aggregate_revision = program.revision;
              facts_digest = codec.sha256 facts;
              facts_json = facts;
            }
            ∷ store.history;
        admissions =
            record {
              command_key = key;
              program_id = ident;
              command_type = codec.command_type input;
              input_digest = codec.digest_json input;
              result_sequence = sequence;
              result_digest = codec.sha256 facts;
              result_json = facts;
            }
            ∷ store.admissions;
        projections =
            record {
              program_id = ident;
              aggregate_revision = program.revision;
              history_sequence = sequence;
              schema_version = codec_version;
              facts_digest = codec.sha256 facts;
              program_json = facts;
            }
            ∷ select (λ row. row.program_id != ident) store.projections;
      }

  -- The part of `_create` for a key that is new.
  unfoldable pub create_anew :
      Store Facts Input → ProgramSpec → String → Result (Store Facts Input × Program)
  create_anew store spec key = do
    raise_if (is_some (projection store spec.program_id)) program_already_exists
    initial ← create spec
    facts ← codec.program_json initial
    ok (
      write_facts store initial facts 1 key spec.authority.owner_id (codec.create_input_json spec),
      initial,
    )

  -- `_create`
  unfoldable pub create_program :
      Store Facts Input → ProgramSpec → String → Result (Store Facts Input × Program)
  create_program store spec key = do
    raise_if (is_blank key) value_error
    known ← duplicate_result store key (codec.digest_json (codec.create_input_json spec))
    elim known [ some program ↦ ok (store, program) | none ↦ create_anew store spec key ]

module _ {Facts Input : Type 0} (codec : StoreCodec Facts Input) (requests : Codec)
    (guards : Guards Facts Input) (digest : Digest) where
  -- A command that is repeated has to have the intent that was admitted with it.
  unfoldable pub check_intent : Store Facts Input → Option Intent → Result (Unit {0})
  check_intent store none = ok tt
  check_intent store (some i) =
      elim (find? (λ o. o.operation_id == i.operation_id) store.journal.operations) [
        | none ↦ err operation_conflict
        | some row ↦
            raise_if
              (row.effect_key != i.effect_key || row.request_json != requests.dumps i.request)
              operation_conflict
      ]

  unfoldable pub add_intent : Option Intent → Journal → Result Journal
  add_intent none journal = ok journal
  add_intent (some i) journal =
      insert_intent requests i.operation_id i.effect_key i.request false journal

  -- The part of `_admit_decision` for a command that is new.
  unfoldable pub decide :
      Store Facts Input
      → String
      → String
      → Command
      → Option Intent
      → Result (Store Facts Input × Program)
  decide store ident key c intent = do
    current ← load_head codec store ident
    guards.ownership store ident c
    next ← apply digest current c
    reserved ← guards.reserve store ident c intent
    raise_if (next.spec.program_id != ident) corrupt_history
    head ← or_raise (projection store ident) program_not_found
    facts ← codec.program_json next
    intended ← add_intent intent reserved
    bound ← guards.bind intended ident c intent
    ok (
      record (write_facts codec store next facts (head.history_sequence + 1) key c.actor_id
          (codec.command_input_json ident c)) { journal = bound },
      next,
    )

  -- `_admit_decision`
  unfoldable pub admit :
      Store Facts Input
      → String
      → String
      → Command
      → Option Intent
      → Result (Store Facts Input × Program)
  admit store ident key c intent = do
    raise_if (is_blank ident || is_blank key) value_error
    known ← duplicate_result codec store key (codec.digest_json (codec.command_input_json ident c))
    elim known [
      | some program ↦ check_intent store intent >> ok (store, program)
      | none ↦ decide store ident key c intent
    ]
