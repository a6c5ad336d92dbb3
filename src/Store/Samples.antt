-- ===== src/Store/Samples.antt =====
-- A store of one Program. Its texts stand for themselves.
use creatidy_kernel.Base.{
  is_blank, String, ◌≡◌, refl, none, some, if◌then◌else◌, ◌==◌, nat_eq, string_eq, names_eq,
  optional_eq, find?, Result, err, ok,
}
use creatidy_kernel.Domain.Checks.{json_eq}
use creatidy_kernel.Domain.Values.{
  program_status_eq, work_unit_status_eq, attempt_status_eq, domain_action_eq, policy_reference_eq,
  bindings_eq, subjects_eq,
}
use creatidy_kernel.Domain.Spec.{program_spec_eq, ProgramSpec}
use creatidy_kernel.Domain.Facts.{states_eq}
use creatidy_kernel.Domain.Program.{Program}
use creatidy_kernel.Domain.Commands.{Body, Command}
use creatidy_kernel.Domain.Samples.{written, code, sample_spec, by_owner}
use creatidy_kernel.Domain.Runs.{program_0, program_1}
use creatidy_kernel.Journal.Tables.{operation_status_eq, observation_kind_eq, lookup_eq}
use creatidy_kernel.Journal.Samples.{stand_in}
use creatidy_kernel.Store.Tables.{Store}
use creatidy_kernel.Store.Admission.{
  greatest, latest_row, projection, is_behind, decode_facts, load_head, load, recorded,
  duplicate_result, write_facts, create_anew, create_program, check_intent, add_intent, decide,
  admit, StoreCodec, Guards,
}
use creatidy_kernel.Store.Codec.{
  is_cancelled, check_cancelled, check_conclusions, check_references, check_persisted,
  write_program, accepted_program, read_program, sqlite_codec, Texts,
}
use creatidy_kernel.Store.Stores.{empty_store, Served, opened, program_created, command_admitted}

pub data Input : Type 0 where
  creation : ProgramSpec → Input
  decision : String → Command → Input

-- The commands of the sample differ by the revision that they expect.
abbrev pub digest_of : Input → String
digest_of (creation spec) = "create"
digest_of (decision ident c) = if c.expected_revision == 0 then "first" else "later"

abbrev pub plain_texts : Texts Program Input
plain_texts = record {
  dumps_program = λ p. p;
  loads_program = λ p. some (p.spec.program_id, p);
  input_of_create = λ spec. creation spec;
  input_of_command = λ ident c. decision ident c;
  type_of = λ input. "command";
  digest_of = digest_of;
  hash_of = λ p. "digest";
}

abbrev pub plain_codec : StoreCodec Program Input
plain_codec = sqlite_codec written plain_texts

-- No ownership and no work budget.
abbrev pub no_guards : Guards Program Input
no_guards = record {
  ownership = λ store ident c. ok tt;
  reserve = λ store ident c intent. ok store.journal;
  bind = λ journal ident c intent. ok journal;
}

unfoldable pub store_code : Unit {0}
unfolding code greatest latest_row projection is_behind decode_facts load_head load recorded
    duplicate_result write_facts create_anew create_program check_intent add_intent decide admit
    is_blank is_cancelled check_cancelled check_conclusions check_references check_persisted
    write_program accepted_program read_program
store_code = tt

stored : {A : Type 0} → A → Result (A × Program) → A
stored default (err e) = default
stored default (ok r) = r.0

abbrev pub store_1 : Store Program Input
unfolding store_code stored
store_1 = stored empty_store (create_program plain_codec empty_store sample_spec "k0")

abbrev pub store_2 : Store Program Input
unfolding store_code stored
store_2 = stored empty_store (
    admit plain_codec stand_in no_guards written store_1 "program" "k1"
      (by_owner 0 Body.activate_program) none)

pub store_1-made : create_program plain_codec empty_store sample_spec "k0" ≡ ok (store_1, program_0)
unfolding store_code stored
store_1-made = refl

pub store_2-made :
    admit plain_codec stand_in no_guards written store_1 "program" "k1"
      (by_owner 0 Body.activate_program)
      none
    ≡ ok (store_2, program_1)
unfolding store_code stored
store_2-made = refl

pub store_2-loaded : load plain_codec store_2 "program" ≡ ok program_1
unfolding store_code stored
store_2-loaded = refl

pub store_1-Served : Served plain_codec stand_in no_guards written store_1
store_1-Served = program_created sample_spec "k0" (opened refl) store_1-made

pub store_2-Served : Served plain_codec stand_in no_guards written store_2
store_2-Served =
    command_admitted "program" "k1" (by_owner 0 Body.activate_program) none store_1-Served
      store_2-made

pub store_1-without : find? (λ row. row.command_key == "k1") store_1.admissions ≡ none
unfolding store_code stored
store_1-without = refl
