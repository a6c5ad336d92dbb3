-- ===== src/Journal/Startup.antt =====
-- The journal that the operations leave passes the check at startup.
use creatidy_kernel.Base.{
  is_blank, ℕ, String, ◌≡◌, refl, sym, ◌∙◌, subst, inl, inr, Bool, true, false, ◌||◌, arith,
  raise_if, >>-eq-ok, value_error, ok,
}
use creatidy_kernel.Journal.Tables.{
  empty_journal, attempts_at, observations_at, reconciliations_at, Operation, Observation,
  Reconciliation, Journal, Request, Codec,
}
use creatidy_kernel.Journal.Operations.{
  operation, commit_intent, is_settled, Gate, check_claim, dispatch, claim, record_transport,
}
use creatidy_kernel.Journal.Evidence.{advance, observe, settle, reconcile}
use creatidy_kernel.Journal.Validation.{validate_records}
use creatidy_kernel.Journal.Rows.{operation_ids, effect_keys}
use creatidy_kernel.Journal.Consistent.{Touches-Consistent, Consistent-validate, Consistent}
use creatidy_kernel.Journal.Parts.{check_row-agrees}
use creatidy_kernel.Journal.Preservation.{
  dispatched_row, dispatch-Touches, observed, observed-Touches, reconciled, reconciled-Touches,
}
use creatidy_kernel.Journal.Intents.{
  ReadsBack, insert_intent-Consistent, OnlyRecords, Records-Consistent, Records-operation,
}
use creatidy_kernel.Journal.Steps.{
  claim-eq-ok, observe-eq-ok, reconcile-eq-ok, record_transport-eq-ok, Move, commit, send,
  transport, note, look_up, Reached, origin, move, Claimed,
}

empty_journal-Consistent : (codec : Codec) → Consistent codec empty_journal
unfolding operation_ids effect_keys
empty_journal-Consistent codec = record {
  rows = λ o m. absurd (elim m [ ]);
  sound = λ o m. absurd (elim m [ ]);
  idents = refl;
  effects = refl;
  known = record { attempts = refl; observations = refl; reconciliations = refl };
}

check_claim-unsettled :
    (codec : Codec) (j : Journal) (o : Operation) (now : ℕ)
    → check_claim codec j o now ≡ ok tt
    → is_settled o.status ≡ false
unfolding check_claim
check_claim-unsettled codec j o now h = ground (arith, h)

-- The operation that was claimed is found as it was once the work budget has added its records.
pub Claimed-read :
    (codec : Codec) (gate : Gate)
    → OnlyRecords codec gate
    → (j : Journal) (ident : String) {now lease fence : ℕ} {k : Journal}
      (c : Claimed codec gate j k ident now lease fence)
    → operation c.reserved ident ≡ ok c.op
Claimed-read codec gate only j ident c =
    Records-operation codec ident (only j c.op c.reserved c.gated) c.read

module _ (codec : Codec) (gate : Gate) (reads : ReadsBack codec)
    (only : OnlyRecords codec gate) where
  claim-Consistent :
      (j : Journal) (ident : String) (now lease fence : ℕ) {k : Journal}
      → claim codec gate j ident now lease ≡ ok (fence, k)
      → Consistent codec j
      → Consistent codec k
  claim-Consistent j ident now lease fence {k} h v =
      let c = claim-eq-ok codec gate j ident now lease fence h in
      subst (Consistent codec) (sym c.written) (
        Touches-Consistent codec ident (dispatched_row now lease c.op) c.reserved
          (dispatch ident now lease c.op c.reserved)
          (dispatch-Touches codec ident now lease c.op c.reserved
            (check_claim-unsettled codec j c.op now c.checked)
            (Claimed-read codec gate only j ident c))
          (Claimed-read codec gate only j ident c)
          (Records-Consistent codec reads (only j c.op c.reserved c.gated) v))

  observe-Consistent :
      (j : Journal) (new : Observation) {k : Journal}
      → observe j new ≡ ok k
      → Consistent codec j
      → Consistent codec k
  observe-Consistent j new h v =
      let c = observe-eq-ok j new h in
      elim c.outcome [
        | inl again ↦ subst (Consistent codec) (sym again) v
        | inr written ↦ subst (Consistent codec) (sym written.1) (
            Touches-Consistent codec new.operation_id (advance c.op new.kind new.reference) j
              (observed c.op new j)
              (observed-Touches codec c.op new j written.0 c.live c.referenced c.sent c.read) c.read
              v)
      ]

  reconcile-Consistent :
      (j : Journal) (new : Reconciliation) (now : ℕ) {k : Journal}
      → reconcile j new now ≡ ok k
      → Consistent codec j
      → Consistent codec k
  reconcile-Consistent j new now h v =
      let c = reconcile-eq-ok j new now h in
      subst (Consistent codec) (sym c.written) (
        Touches-Consistent codec new.operation_id (settle new) j (reconciled new j)
          (reconciled-Touches codec c.op new j c.checked c.fenced c.unsettled c.sent c.read) c.read
          v)

  commit_intent-Consistent :
      (j : Journal) (ident effect_key : String) (request : Request) {k : Journal}
      → commit_intent codec ident effect_key request j ≡ ok k
      → Consistent codec j
      → Consistent codec k
  unfolding commit_intent
  commit_intent-Consistent j ident effect_key request h v =
      let a = >>-eq-ok (raise_if (is_blank ident || is_blank effect_key) value_error) _ h in
      insert_intent-Consistent codec ident effect_key request true j reads a.1 v

  transport-Consistent :
      (j : Journal) (ident : String) (fence : ℕ) (succeeded : Bool) {k : Journal}
      → record_transport j ident fence succeeded ≡ ok k
      → Consistent codec j
      → Consistent codec k
  unfolding attempts_at observations_at reconciliations_at
  transport-Consistent j ident fence succeeded {k} h v =
      subst (Consistent codec) (sym (record_transport-eq-ok j ident fence succeeded h)) (record {
        rows = λ o m.
            check_row-agrees codec j (record j { transports = k.transports }) o refl refl refl refl
            ∙ v.rows o m;
        sound = v.sound;
        idents = v.idents;
        effects = v.effects;
        known = record {
          attempts = v.known.attempts;
          observations = v.known.observations;
          reconciliations = v.known.reconciliations;
        };
      })

  pub Move-Consistent :
      {j k : Journal} → Move codec gate j k → Consistent codec j → Consistent codec k
  Move-Consistent {j} (commit ident effect_key request h) v =
      commit_intent-Consistent j ident effect_key request h v
  Move-Consistent {j} (send ident now lease fence h) v =
      claim-Consistent j ident now lease fence h v
  Move-Consistent {j} (transport ident fence succeeded h) v =
      transport-Consistent j ident fence succeeded h v
  Move-Consistent {j} (note new h) v = observe-Consistent j new h v
  Move-Consistent {j} (look_up new now h) v = reconcile-Consistent j new now h v

  pub Reached-Consistent : {j : Journal} → Reached codec gate j → Consistent codec j
  Reached-Consistent (origin e) = subst (Consistent codec) (sym e) (empty_journal-Consistent codec)
  Reached-Consistent (move before step) = Move-Consistent step (Reached-Consistent before)

-- Where requests are read back as they were written and the work budget adds nothing but intents,
-- every journal that the operations reach from the empty one passes the check of operation records
-- at startup.
pub Reached-validate :
    (codec : Codec) (gate : Gate) (j : Journal)
    → ReadsBack codec
    → OnlyRecords codec gate
    → Reached codec gate j
    → validate_records codec j ≡ ok tt
Reached-validate codec gate j reads only reached =
    Consistent-validate codec j (Reached-Consistent codec gate reads only reached)
