-- ===== src/Journal/Preservation.antt =====
-- Each write of the journal keeps it consistent.
use creatidy_kernel.Base.{
  ℕ, ◌+◌, String, ◌≡◌, refl, sym, subst, true, false, ◌&&◌, none, some, [], ◌∷◌, arith, ◌==◌,
  nat_eq, string_eq, names_eq, optional_eq, is_empty, contains, ok,
}
use creatidy_kernel.Journal.Tables.{
  operation_status_eq, observation_kind_eq, lookup_eq, attempts_at, observations_at,
  reconciliations_at, update, OperationStatus, ObservationKind, Operation, Observation,
  Reconciliation, Journal, Codec,
}
use creatidy_kernel.Journal.Operations.{operation, is_settled, dispatch}
use creatidy_kernel.Journal.Evidence.{
  check_observation, advance, lacks_reference, check_lookup, settle,
}
use creatidy_kernel.Journal.Validation.{check_fence, check_receipts, check_request_json, check_row}
use creatidy_kernel.Journal.Rows.{operation-eq-ok}
use creatidy_kernel.Journal.Consistent.{Touches}
use creatidy_kernel.Journal.Parts.{
  parts, joined, check_row-agrees, select-other, select-own, fence-dispatch, fence-advance,
  fence-settle,
}
use creatidy_kernel.Journal.Receipts.{
  receipts-dispatch, receipts-advance, receipts-settle, dispatched-is_sound, advance-is_sound,
  settle-is_sound,
}

abbrev pub dispatched_row : ℕ → ℕ → Operation → Operation → Operation
dispatched_row now lease op o = record o {
  fence = op.fence + 1;
  lease_until = some (now + lease);
  status = OperationStatus.dispatched;
  retry_proof = none;
}

module _ (codec : Codec) (ident : String) (now lease : ℕ) (op : Operation) (j : Journal) where
  dispatch-others :
      (o : Operation)
      → (o.operation_id == ident) ≡ false
      → check_row codec (dispatch ident now lease op j) o ≡ check_row codec j o
  unfolding dispatch attempts_at observations_at reconciliations_at
  dispatch-others o other =
      check_row-agrees codec j (dispatch ident now lease op j) o refl
        (select-other (λ a. a.operation_id) _ j.attempts o.operation_id other) refl refl

  dispatch-own :
      op.operation_id ≡ ident
      → check_row codec j op ≡ ok tt
      → check_row codec (dispatch ident now lease op j) (dispatched_row now lease op op) ≡ ok tt
  unfolding dispatch attempts_at observations_at reconciliations_at check_request_json
  dispatch-own e h =
      let p = parts codec j op h in
      joined codec (dispatch ident now lease op j) (dispatched_row now lease op op) (record {
        request = p.request;
        outbox = p.outbox;
        fences =
            subst (λ xs. check_fence (dispatched_row now lease op op) xs ≡ ok tt)
              (sym (select-own (λ a. a.operation_id) _ j.attempts op.operation_id e))
              (fence-dispatch op now lease ident _ p.fences);
        receipts = receipts-dispatch op (now + lease) _ _ p.receipts;
      })

  pub dispatch-Touches :
      is_settled op.status ≡ false
      → operation j ident ≡ ok op
      → Touches codec ident op (dispatched_row now lease op) j (dispatch ident now lease op j)
  unfolding dispatch
  dispatch-Touches unsettled found = record {
    sound = λ h. dispatched-is_sound op now lease unsettled h;
    rows = refl;
    keeps = record { ident = λ o. refl; key = λ o. refl };
    others = dispatch-others;
    own = dispatch-own (operation-eq-ok j ident found).2;
    known = λ idents there_is known. record {
      attempts = ground (arith, known.attempts, there_is);
      observations = known.observations;
      reconciliations = known.reconciliations;
    };
  }

-- An observation that passes the guards is written.
abbrev pub observed : Operation → Observation → Journal → Journal
observed op new j = record j {
  operations = update new.operation_id (advance op new.kind new.reference) j.operations;
  observations = new ∷ j.observations;
}

module _ (codec : Codec) (op : Operation) (new : Observation) (j : Journal)
    (guarded : check_observation op new.kind new.reference ≡ ok tt) (live : op.retry_proof ≡ none)
    (referenced : (contains (ObservationKind.accepted ∷ ObservationKind.waiting ∷ []) new.kind
        && lacks_reference new.reference)
      ≡ false)
    (sent : is_empty (attempts_at j new.operation_id) ≡ false) where
  observed-others :
      (o : Operation)
      → (o.operation_id == new.operation_id) ≡ false
      → check_row codec (observed op new j) o ≡ check_row codec j o
  unfolding attempts_at observations_at reconciliations_at
  observed-others o other =
      check_row-agrees codec j (observed op new j) o refl refl
        (select-other (λ a. a.operation_id) new j.observations o.operation_id other) refl

  observed-own :
      op.operation_id ≡ new.operation_id
      → check_row codec j op ≡ ok tt
      → check_row codec (observed op new j) (advance op new.kind new.reference op) ≡ ok tt
  unfolding advance attempts_at observations_at reconciliations_at check_request_json
  observed-own e h =
      let p = parts codec j op h in
      joined codec (observed op new j) (advance op new.kind new.reference op) (record {
        request = p.request;
        outbox = p.outbox;
        fences =
            fence-advance op new.kind new.reference (attempts_at j op.operation_id) (rw e sent)
              p.fences;
        receipts =
            subst
              (λ xs.
                check_receipts (advance op new.kind new.reference op) xs
                  (reconciliations_at j op.operation_id)
                ≡ ok tt)
              (sym (select-own (λ a. a.operation_id) new j.observations op.operation_id e))
              (receipts-advance op new _ _ p.receipts guarded live referenced);
      })

  pub observed-Touches :
      operation j new.operation_id ≡ ok op
      → Touches codec new.operation_id op (advance op new.kind new.reference) j (observed op new j)
  unfolding advance
  observed-Touches found = record {
    sound = advance-is_sound op new.kind new.reference guarded live referenced;
    rows = refl;
    keeps = record { ident = λ o. refl; key = λ o. refl };
    others = observed-others;
    own = observed-own (operation-eq-ok j new.operation_id found).2;
    known = λ idents there_is known. record {
      attempts = known.attempts;
      observations = ground (arith, known.observations, there_is);
      reconciliations = known.reconciliations;
    };
  }

-- A reconciliation that passes the guards is written.
abbrev pub reconciled : Reconciliation → Journal → Journal
reconciled new j = record j {
  operations = update new.operation_id (settle new) j.operations;
  reconciliations = new ∷ j.reconciliations;
}

module _ (codec : Codec) (op : Operation) (new : Reconciliation) (j : Journal)
    (guarded : check_lookup op new ≡ ok tt) (fenced : op.fence ≡ new.fence)
    (open_status : contains (OperationStatus.dispatched ∷ OperationStatus.unknown ∷ []) op.status
      ≡ true)
    (sent : is_empty (attempts_at j new.operation_id) ≡ false) where
  reconciled-others :
      (o : Operation)
      → (o.operation_id == new.operation_id) ≡ false
      → check_row codec (reconciled new j) o ≡ check_row codec j o
  unfolding attempts_at observations_at reconciliations_at
  reconciled-others o other =
      check_row-agrees codec j (reconciled new j) o refl refl refl
        (select-other (λ a. a.operation_id) new j.reconciliations o.operation_id other)

  reconciled-own :
      op.operation_id ≡ new.operation_id
      → check_row codec j op ≡ ok tt
      → check_row codec (reconciled new j) (settle new op) ≡ ok tt
  unfolding settle attempts_at observations_at reconciliations_at check_request_json
  reconciled-own e h =
      let p = parts codec j op h in
      joined codec (reconciled new j) (settle new op) (record {
        request = p.request;
        outbox = p.outbox;
        fences = fence-settle op new (attempts_at j op.operation_id) (rw e sent) p.fences;
        receipts =
            subst
              (λ xs. check_receipts (settle new op) (observations_at j op.operation_id) xs ≡ ok tt)
              (sym (select-own (λ a. a.operation_id) new j.reconciliations op.operation_id e))
              (receipts-settle op new _ _ p.receipts guarded fenced open_status);
      })

  pub reconciled-Touches :
      operation j new.operation_id ≡ ok op
      → Touches codec new.operation_id op (settle new) j (reconciled new j)
  unfolding settle
  reconciled-Touches found = record {
    sound = settle-is_sound op new guarded open_status;
    rows = refl;
    keeps = record { ident = λ o. refl; key = λ o. refl };
    others = reconciled-others;
    own = reconciled-own (operation-eq-ok j new.operation_id found).2;
    known = λ idents there_is known. record {
      attempts = known.attempts;
      observations = known.observations;
      reconciliations = ground (arith, known.reconciliations, there_is);
    };
  }
