-- ===== src/Store/Codec.antt =====
-- What the codec checks when a Program is written and when a text is read: `_program_value`,
-- `program_from_json`, `_validate_persisted_fact_references` of `adapters/sqlite_codec.py`.
use creatidy_kernel.Base.{
  ℕ, String, Bool, false, ◌&&◌, not, Option, none, some, List, [], ◌∷◌, if◌then◌else◌, ltb, leb,
  ◌==◌, ◌!=◌, nat_eq, string_eq, names_eq, optional_eq, any, find_last?, contains, raise_if, ◌>>◌,
  record_codec_error, Result, err, ok,
}
use creatidy_kernel.Domain.Checks.{Digest, json_eq}
use creatidy_kernel.Domain.Values.{
  program_status_eq, work_unit_status_eq, attempt_status_eq, domain_action_eq, policy_reference_eq,
  bindings_eq, subjects_eq, AttemptStatus,
}
use creatidy_kernel.Domain.Spec.{spec_digest, program_spec_eq, ProgramSpec}
use creatidy_kernel.Domain.Facts.{states_eq, AttemptCancellation, ProgramConclusion}
use creatidy_kernel.Domain.Program.{Program}
use creatidy_kernel.Domain.Validation.{validate}
use creatidy_kernel.Domain.Commands.{Command}
use creatidy_kernel.Journal.Tables.{operation_status_eq, observation_kind_eq, lookup_eq}
use creatidy_kernel.Store.Admission.{StoreCodec}

-- The texts themselves: the fields that `_program_value` lists and `json.dumps`; `json.loads` and
-- the fields of a Program with the identifier that stands beside them, or a refusal; the texts of
-- inputs, and the SHA-256 digests.
pub record Texts (Facts Input : Type 0) : Type 0 where
  pub dumps_program : Program → Facts
  pub loads_program : Facts → Option (String × Program)
  pub input_of_create : ProgramSpec → Input
  pub input_of_command : String → Command → Input
  pub type_of : Input → String
  pub digest_of : Input → String
  pub hash_of : Facts → String

module _ (digest : Digest) (p : Program) where
  unfoldable pub is_cancelled : AttemptCancellation → Bool
  is_cancelled c = elim (find_last? (λ a. a.spec.attempt_id == c.attempt_id) p.attempts) [
    | none ↦ false
    | some a ↦ a.status == AttemptStatus.cancelled
  ]

  -- The loop over cancelled Attempts, with the identifiers that it has met.
  unfoldable pub check_cancelled : List String → List AttemptCancellation → Result (Unit {0})
  check_cancelled seen [] = ok tt
  check_cancelled seen (c ∷ rest) = do
    raise_if (not (is_cancelled c)) record_codec_error
    raise_if (contains seen c.attempt_id) record_codec_error
    raise_if (ltb p.revision c.record_order) record_codec_error
    check_cancelled (c.attempt_id ∷ seen) rest

  -- The loop over conclusions, with the order of the one before.
  unfoldable pub check_conclusions : ℕ → List ProgramConclusion → Result (Unit {0})
  check_conclusions previous [] = ok tt
  check_conclusions previous (c ∷ rest) = do
    raise_if
        (not (
          any (λ s. s.revision == c.spec_revision && spec_digest digest s == c.spec_digest)
            p.spec_history))
        record_codec_error
    raise_if (ltb p.revision c.record_order) record_codec_error
    raise_if (leb c.record_order previous) record_codec_error
    check_conclusions c.record_order rest

  -- `_validate_persisted_fact_references`
  unfoldable pub check_references : Result (Unit {0})
  check_references = do
    check_cancelled [] p.attempt_cancellations
    check_conclusions 0 p.conclusions

  -- `_validate_program` and `_validate_persisted_fact_references`
  unfoldable pub check_persisted : Result (Unit {0})
  check_persisted = validate digest p >> check_references

module _ {Facts Input : Type 0} (digest : Digest) (texts : Texts Facts Input) where
  -- `program_json`
  unfoldable pub write_program : Program → Result Facts
  write_program p = check_persisted digest p >> ok (texts.dumps_program p)

  -- The end of `program_from_json`, which raises RecordCodecError whatever the refusal.
  unfoldable pub accepted_program : String × Program → Option Program
  accepted_program (ident, p) =
      if p.spec.program_id != ident
      then none
      else (elim (check_persisted digest p) [ err e ↦ none | ok checked ↦ some p ])

  -- `program_from_json`
  unfoldable pub read_program : Facts → Option Program
  read_program raw = elim (texts.loads_program raw) [ none ↦ none | some r ↦ accepted_program r ]

  abbrev pub sqlite_codec : StoreCodec Facts Input
  sqlite_codec = record {
    program_json = write_program;
    program_from_json = read_program;
    create_input_json = texts.input_of_create;
    command_input_json = texts.input_of_command;
    command_type = texts.type_of;
    digest_json = texts.digest_of;
    sha256 = texts.hash_of;
  }
