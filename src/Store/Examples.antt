-- ===== src/Store/Examples.antt =====
-- The store at concrete commands.
use creatidy_kernel.Base.{
  String_discrete, is_space, is_blank, ◌≡◌, refl, subst, ◌≢◌, ◌⊎◌, true, false, ◌||◌, none,
  ℕ_discrete, ◌==◌, nat_eq, string_eq, names_eq, optional_eq, ◌>>=◌, or_raise, idempotency_conflict,
  program_not_found, corrupt_history, err, ok,
}
use creatidy_kernel.Domain.Checks.{json_eq}
use creatidy_kernel.Domain.Values.{
  program_status_eq, work_unit_status_eq, attempt_status_eq, domain_action_eq, policy_reference_eq,
  bindings_eq, subjects_eq,
}
use creatidy_kernel.Domain.Spec.{program_spec_eq}
use creatidy_kernel.Domain.Facts.{states_eq}
use creatidy_kernel.Domain.Program.{Program}
use creatidy_kernel.Domain.Commands.{Body}
use creatidy_kernel.Domain.Samples.{written, by_owner}
use creatidy_kernel.Domain.Runs.{program_1}
use creatidy_kernel.Journal.Tables.{operation_status_eq, observation_kind_eq, lookup_eq}
use creatidy_kernel.Journal.Samples.{stand_in}
use creatidy_kernel.Store.Admission.{decode_facts, load, admit}
use creatidy_kernel.Store.Stores.{Served-load, Readable}
use creatidy_kernel.Store.View.{view, admit-Admits, Admits}
use creatidy_kernel.Store.Trusted.{load-Trusted, admit-Trusted, Trusted}
use creatidy_kernel.Store.Keys.{admit-conflict, admit-admit, admit-load}
use creatidy_kernel.Store.Samples.{
  digest_of, plain_texts, plain_codec, no_guards, store_code, store_1, store_2, store_2-made,
  store_2-loaded, store_1-Served, store_2-Served, store_1-without, decision,
}

named_program : is_blank "program" ≡ false
unfolding is_blank is_space String_discrete ℕ_discrete
named_program = refl

named_both : (is_blank "program" || is_blank "k1") ≡ false
unfolding is_blank is_space String_discrete ℕ_discrete
named_both = refl

Served-load_example :
    (load plain_codec store_2 "program" ≡ err program_not_found)
    ⊎ Readable plain_codec stand_in no_guards written store_2 "program"
Served-load_example =
    Served-load plain_codec stand_in no_guards written store_2 "program" store_2-Served
      named_program

admit-Admits_example :
    Admits plain_codec written
      (view store_1)
      (view store_2)
      "program"
      "k1"
      "first"
      (by_owner 0 Body.activate_program)
      program_1
unfolding store_code
admit-Admits_example =
    admit-Admits plain_codec stand_in no_guards written store_1 "program" "k1"
      (by_owner 0 Body.activate_program) none store_2-made

admit-admit_example :
    (facts : Program) × (plain_codec.program_json program_1 ≡ ok facts)
    × (admit plain_codec stand_in no_guards written store_2 "program" "k1"
          (by_owner 0 Body.activate_program)
          none
        ≡ (or_raise (plain_codec.program_from_json facts) corrupt_history >>= λ p. ok (store_2, p)))
admit-admit_example =
    admit-admit plain_codec stand_in no_guards written store_1 "program" "k1"
      (by_owner 0 Body.activate_program) none store_2-made store_1-without named_both

digests-differ :
    digest_of (decision "program" (by_owner 1 Body.pause_program))
    ≢ digest_of (decision "program" (by_owner 0 Body.activate_program))
unfolding ℕ_discrete String_discrete
digests-differ e =
    let h : true ≡ false = subst (λ s. (s == "first") ≡ false) e refl in absurd (cc h)

admit-conflict_example :
    admit plain_codec stand_in no_guards written store_2 "program" "k1"
      (by_owner 1 Body.pause_program)
      none
    ≡ err idempotency_conflict
admit-conflict_example =
    admit-conflict plain_codec stand_in no_guards written store_1 "program" "k1"
      (by_owner 0 Body.activate_program) none store_2-made "program" (by_owner 1 Body.pause_program)
      none named_both digests-differ

admit-load_example :
    (facts : Program) × (plain_codec.program_json program_1 ≡ ok facts)
    × (load plain_codec store_2 "program"
        ≡ decode_facts plain_codec facts "program" program_1.revision)
admit-load_example =
    admit-load plain_codec stand_in no_guards written store_1 "program" "k1"
      (by_owner 0 Body.activate_program) none store_2-made store_1-without named_program
      store_1-Served

load-Trusted_example : Trusted written program_1 × (program_1.spec.program_id ≡ "program")
load-Trusted_example = load-Trusted written plain_texts store_2 "program" store_2-loaded

admit-Trusted_example : Trusted written program_1
admit-Trusted_example =
    admit-Trusted written plain_texts stand_in no_guards store_1 "program" "k1"
      (by_owner 0 Body.activate_program) none store_2-made
