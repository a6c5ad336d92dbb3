-- ===== src/Journal/Examples.antt =====
-- The journal at a concrete delivery.
use creatidy_kernel.Base.{
  String_discrete, is_space, is_blank, ◌+◌, ◌≡◌, refl, true, false, none, arith, ℕ_discrete, length,
  Error, operation_conflict, err, ok,
}
use creatidy_kernel.Journal.Tables.{
  empty_journal, attempts_at, Lookup, Operation, Observation, Reconciliation,
}
use creatidy_kernel.Journal.Operations.{operation, commit_intent, claim}
use creatidy_kernel.Journal.Evidence.{observe, reconcile}
use creatidy_kernel.Journal.Validation.{validate_records}
use creatidy_kernel.Journal.Steps.{note}
use creatidy_kernel.Journal.Startup.{Reached-validate}
use creatidy_kernel.Journal.Delivery.{phase_of, Move-Turn, Turn}
use creatidy_kernel.Journal.Held.{Before, at_once, further}
use creatidy_kernel.Journal.Leases.{claim-claim, claim-observe, claim-length}
use creatidy_kernel.Journal.Repeats.{observe-observe, commit_intent-commit_intent}
use creatidy_kernel.Journal.Samples.{
  stand_in, stand_in-ReadsBack, free_gate, free_gate-OnlyRecords, bill, accepted_at_1, journal_1,
  journal_2, journal_3, journal_1-made, journal_2-made, journal_3-made, journal_1-Reached,
  journal_2-Reached, journal_3-Reached, sent_row, sent_row-read,
}

Reached-validate_example : validate_records stand_in journal_3 ≡ ok tt
Reached-validate_example =
    Reached-validate stand_in free_gate journal_3 stand_in-ReadsBack free_gate-OnlyRecords
      journal_3-Reached

Move-Turn_example :
    (p : Operation) × (operation journal_3 "op" ≡ ok p) × Turn (phase_of sent_row) (phase_of p)
Move-Turn_example =
    Move-Turn stand_in free_gate "op" stand_in-ReadsBack free_gate-OnlyRecords journal_2-Reached
      (note accepted_at_1 journal_3-made) sent_row-read

lookup : Reconciliation
lookup = record {
  operation_id = "op";
  fence = 1;
  outcome = Lookup.absent;
  reference = none;
  evidence = "log";
  matched_digest = none;
  authoritative_absence = true;
}

lookup-named : lookup.operation_id ≡ "op"
unfolding lookup
lookup-named = refl

claim-claim_example :
    ((e : Error) × (claim stand_in free_gate journal_3 "op" 120 30 ≡ err e))
    × ((e : Error) × (reconcile journal_3 lookup 120 ≡ err e))
claim-claim_example =
    claim-claim stand_in free_gate free_gate-OnlyRecords journal_1 "op" 100 30 1 journal_2-made 120
      30 lookup (further (at_once refl) (note accepted_at_1 journal_3-made) (unfold Before in tt))
      (omega arith) lookup-named

late_report : Observation
late_report = record accepted_at_1 { fence = 7 }

late_report-named : is_blank late_report.observation_id ≡ false
unfolding late_report is_blank is_space ℕ_discrete String_discrete
late_report-named = refl

claim-observe_example : observe journal_2 late_report ≡ err operation_conflict
claim-observe_example =
    claim-observe stand_in free_gate free_gate-OnlyRecords journal_1 "op" 100 30 1 journal_2-made
      late_report (unfold late_report in refl) late_report-named
      (unfold late_report in λ e. omega (arith, e))

claim-length_example :
    (1 ≡ length (attempts_at journal_1 "op") + 1) × (1 ≡ length (attempts_at journal_2 "op"))
claim-length_example =
    claim-length stand_in free_gate journal_1 "op" 100 30 1 stand_in-ReadsBack free_gate-OnlyRecords
      journal_1-Reached journal_2-made

observe-observe_example : observe journal_3 accepted_at_1 ≡ ok journal_3
observe-observe_example = observe-observe journal_2 accepted_at_1 journal_3-made

commit_intent-commit_intent_example :
    commit_intent stand_in "op" "key" bill journal_1 ≡ ok journal_1
commit_intent-commit_intent_example =
    commit_intent-commit_intent stand_in "op" "key" bill empty_journal journal_1-made
