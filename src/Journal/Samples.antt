-- ===== src/Journal/Samples.antt =====
-- A stand-in for the JSON library and the hash: it writes a request so that it is read back.
use Prim.Native.String.{[], ◌∷◌}
use creatidy_kernel.Base.{
  String_discrete, optional_discrete, is_space, is_blank, String, ◌≡◌, refl, Option, none, some,
  ℕ_discrete, if◌then◌else◌, ◌==◌, nat_eq, string_eq, names_eq, optional_eq, ok-injective, Result,
  err, ok,
}
use creatidy_kernel.Journal.Tables.{
  OperationStatus-discrete, ObservationKind-discrete, Lookup-discrete, operation_status_eq,
  observation_kind_eq, lookup_eq, empty_journal, attempts_at, observations_at, reconciliations_at,
  update, OperationStatus, ObservationKind, Operation, Observation, Journal, Request, Codec,
}
use creatidy_kernel.Journal.Operations.{
  insert_intent, operation, commit_intent, is_settled, is_retry_proof, kind_of, is_held, Gate,
  check_claim, dispatch, claim, add_transport, record_transport,
}
use creatidy_kernel.Journal.Evidence.{
  in_progress, is_execution, check_observation, next_status, advance, is_same, is_falsy,
  lacks_reference, add_observation, observe, check_lookup, settle, reconcile,
}
use creatidy_kernel.Journal.Validation.{
  maximum, has_receipt, has_observation, has_proof, check_fence, check_receipts, check_request_json,
  check_row, validate_records,
}
use creatidy_kernel.Journal.Intents.{ReadsBack, OnlyRecords, same}
use creatidy_kernel.Journal.Steps.{commit, send, note, Reached, origin, move}

-- A mark before each character of the first text, and one after the text.
unfoldable pub pack : String → String → String
pack [] rest = "." ∷ rest
pack (c ∷ first) rest = "," ∷ c ∷ pack first rest

unfoldable pub unpack : String → Option (String × String)
unpack [] = none
unpack (m ∷ []) = some ([], [])
unpack (m ∷ c ∷ s) =
    if (m ∷ []) == ","
    then elim (unpack s) [ none ↦ none | some (first, rest) ↦ some (c ∷ first, rest) ]
    else some ([], c ∷ s)

unpack-pack : (first rest : String) → unpack (pack first rest) ≡ some (first, rest)
unfolding pack unpack String_discrete
unpack-pack [] [] = refl
unpack-pack [] (c ∷ rest) = refl
unpack-pack (c ∷ first) rest = rw (unpack-pack first rest) refl

unfoldable pub packed : Option String → String → String
unfolding pack
packed none content = "-" ∷ content
packed (some kind) content = "+" ∷ pack kind content

unfoldable pub unpacked : String → Option Request
unfolding unpack
unpacked [] = none
unpacked (m ∷ s) =
    if (m ∷ []) == "+"
    then elim (unpack s) [
      | none ↦ none
      | some (kind, content) ↦ some (record { kind = some kind; content = content })
    ]
    else some (record { kind = none; content = s })

abbrev pub stand_in : Codec
stand_in = record {
  dumps = λ request. packed request.kind request.content;
  loads = unpacked;
  sha256 = λ s. s;
}

pub stand_in-ReadsBack : ReadsBack stand_in
unfolding packed unpacked String_discrete
stand_in-ReadsBack request = read_back request.kind request.content
  where
    read_back :
        (kind : Option String) (content : String)
        → unpacked (packed kind content) ≡ some (record { kind = kind; content = content })
    read_back none content = refl
    read_back (some kind) content = rw (unpack-pack kind content) refl

-- A work budget that adds nothing.
abbrev pub free_gate : Gate
free_gate j op = ok j

pub free_gate-OnlyRecords : OnlyRecords stand_in free_gate
free_gate-OnlyRecords j op k h = same (ok-injective h)

-- An effect is committed, sent with a lease of 30, and accepted under the reference `r`.
abbrev pub bill : Request
bill = record { kind = none; content = "bill" }

abbrev pub accepted_at_1 : Observation
accepted_at_1 = record {
  observation_id = "seen";
  operation_id = "op";
  fence = 1;
  kind = ObservationKind.accepted;
  reference = some "r";
}

-- The code of the journal, opened for evaluation by a line that names it.
unfoldable pub journal_code : Unit {0}
unfolding insert_intent operation commit_intent is_settled is_retry_proof kind_of is_held
    check_claim dispatch claim add_transport record_transport in_progress is_execution
    check_observation next_status advance is_same is_falsy lacks_reference add_observation observe
    check_lookup settle reconcile attempts_at observations_at reconciliations_at update
    OperationStatus-discrete ObservationKind-discrete Lookup-discrete pack unpack packed unpacked
    maximum has_receipt has_observation has_proof check_fence check_receipts check_request_json
    check_row validate_records String_discrete ℕ_discrete is_blank is_space optional_discrete
journal_code = tt

given : {A : Type 0} → A → Result A → A
given default (err e) = default
given default (ok a) = a

abbrev pub journal_1 : Journal
unfolding journal_code given
journal_1 = given empty_journal (commit_intent stand_in "op" "key" bill empty_journal)

abbrev pub journal_2 : Journal
unfolding journal_code given
journal_2 = (given (0, empty_journal) (claim stand_in free_gate journal_1 "op" 100 30)).1

abbrev pub journal_3 : Journal
unfolding journal_code given
journal_3 = given empty_journal (observe journal_2 accepted_at_1)

pub journal_1-made : commit_intent stand_in "op" "key" bill empty_journal ≡ ok journal_1
unfolding journal_code given
journal_1-made = refl

pub journal_2-made : claim stand_in free_gate journal_1 "op" 100 30 ≡ ok (1, journal_2)
unfolding journal_code given
journal_2-made = refl

pub journal_3-made : observe journal_2 accepted_at_1 ≡ ok journal_3
unfolding journal_code given
journal_3-made = refl

pub journal_1-Reached : Reached stand_in free_gate journal_1
journal_1-Reached = move (origin refl) (commit "op" "key" bill journal_1-made)

pub journal_2-Reached : Reached stand_in free_gate journal_2
journal_2-Reached = move journal_1-Reached (send "op" 100 30 1 journal_2-made)

pub journal_3-Reached : Reached stand_in free_gate journal_3
journal_3-Reached = move journal_2-Reached (note accepted_at_1 journal_3-made)

abbrev pub sent_row : Operation
sent_row = record {
  operation_id = "op";
  effect_key = "key";
  request_json = "-bill";
  request_digest = "-bill";
  fence = 1;
  lease_until = some 130;
  status = OperationStatus.dispatched;
  accepted_reference = none;
  retry_proof = none;
}

pub sent_row-read : operation journal_2 "op" ≡ ok sent_row
unfolding journal_code given
sent_row-read = refl
