-- ===== src/Tests/Intents.antt =====
-- Intents and their receipts.
use agent_dispatch.Base.{codes, true, false, ◌≡◌, ◌≢◌, ◌↔◌, refl, none, some, []}
use agent_dispatch.State.Intent.Moves.{
  look, not_found, again, accept, succeed, Move, validate_intent_transition_iff,
}
use agent_dispatch.State.Intent.Runs.{
  steps, Run, stay, then, Contains, AllowsResubmission, ProvesAcceptance, submitting_needs_proof,
  acceptance_needs_proof, terminal_absorbs,
}
use agent_dispatch.State.Projection.{acceptance_transition, execution_transition}
use agent_dispatch.Dispatch.Classify.Validated.{
  classify_result-validated, classify_result_cases, acceptance_transition-validated,
  execution_transition-validated,
}
use agent_dispatch.State.Intent.{
  IntentReason, retry_due, lookup_not_accepted, lookup_started, execution_succeeded,
  execution_failed, lease_acquired, durable_acceptance, no_evidence, validate_intent_transition,
  IntentEvidence,
}
use agent_dispatch.Dispatch.Classify.{
  durable_true, submit_definite_not_submitted, submit_accepted, SubmitResult, classify_result,
}
use agent_dispatch.Records.Enums.{
  IntentState, acceptance_rejected, intent_failed, intent_reconciling, intent_ready,
  intent_accepted, intent_retry_wait, intent_unknown, intent_submitting, intent_completed,
}

abbrev with_actor : IntentEvidence
with_actor = record no_evidence { actor = codes "operator" }

abbrev with_receipt : IntentEvidence
with_receipt = record no_evidence { receipt_ref = codes "receipt-1" }

abbrev with_lease : IntentEvidence
with_lease = record no_evidence {
  lease = some (record { owner = codes "worker"; expires_at = codes "2026-01-01T00:00:00Z" });
}

abbrev not_submitted : IntentEvidence
not_submitted = record no_evidence {
  reconciliation =
      some (record { result = acceptance_rejected; external_ref = []; attempts_exhausted = false });
}

actor_named : with_actor.actor ≢ []
actor_named h = cc

receipt_named : with_receipt.receipt_ref ≢ []
receipt_named h = cc

owner_named : codes "worker" ≢ []
owner_named h = cc

expiry_named : codes "2026-01-01T00:00:00Z" ≢ []
expiry_named h = cc

-- An unknown outcome is looked up, the target proves a rejection, and the intent is submitted again.
resubmission : Run intent_unknown intent_submitting
resubmission =
    then {s = intent_unknown} {u = intent_reconciling} lookup_started with_actor
      ((validate_intent_transition_iff intent_unknown intent_reconciling lookup_started
          with_actor).1
        (look actor_named))
      (then {s = intent_reconciling} {u = intent_retry_wait} lookup_not_accepted not_submitted
        ((validate_intent_transition_iff intent_reconciling intent_retry_wait lookup_not_accepted
            not_submitted).1
          (not_found (_, refl, refl)))
        (then {s = intent_retry_wait} {u = intent_submitting} retry_due with_lease
          ((validate_intent_transition_iff intent_retry_wait intent_submitting retry_due
              with_lease).1
            (again (_, refl, owner_named, expiry_named)))
          stay))

submitting_needs_proof_example : Contains AllowsResubmission resubmission
submitting_needs_proof_example = submitting_needs_proof resubmission refl

acceptance : Run intent_submitting intent_completed
acceptance =
    then {s = intent_submitting} {u = intent_accepted} durable_acceptance with_receipt
      ((validate_intent_transition_iff intent_submitting intent_accepted durable_acceptance
          with_receipt).1
        (accept receipt_named))
      (then {s = intent_accepted} {u = intent_completed} execution_succeeded with_receipt
        ((validate_intent_transition_iff intent_accepted intent_completed execution_succeeded
            with_receipt).1
          (succeed receipt_named))
        stay)

acceptance_needs_proof_example : Contains ProvesAcceptance acceptance
acceptance_needs_proof_example = acceptance_needs_proof acceptance refl refl

terminal_absorbs_example :
    (steps (stay {s = intent_completed}) ≡ 0)
    × ((u : IntentState) (reason : IntentReason) (ev : IntentEvidence)
        → validate_intent_transition intent_completed u reason ev ≢ none)
terminal_absorbs_example = terminal_absorbs {s = intent_completed} {t = intent_completed} stay refl

validate_intent_transition_iff_example :
    (validate_intent_transition intent_ready intent_submitting lease_acquired with_lease ≡ none)
    ↔ Move intent_ready intent_submitting lease_acquired with_lease
validate_intent_transition_iff_example =
    validate_intent_transition_iff intent_ready intent_submitting lease_acquired with_lease

abbrev taken : SubmitResult
taken = record {
  classification = submit_accepted;
  durable = durable_true;
  external_ref = codes "task-1";
  target_observed_at = [];
  structured_payload = [];
  diagnostic = [];
  payload_version = [];
}

classify_result-validated_example :
    validate_intent_transition intent_submitting
      (classify_result taken false).to
      (classify_result taken false).reason
      with_receipt
    ≡ none
classify_result-validated_example =
    classify_result-validated taken false with_receipt (λ _. receipt_named)

classify_result_cases_example :
    (((classify_result taken false).to ≡ intent_retry_wait)
      ↔ ((false ≡ false) × (taken.classification ≡ submit_definite_not_submitted)))
    × (((classify_result taken false).to ≡ intent_accepted)
        ↔ ((false ≡ false) × (taken.classification ≡ submit_accepted)))
    × (((classify_result taken false).durable_acceptance_proved ≡ true)
        ↔ (((classify_result taken false).to ≡ intent_accepted) × (taken.durable ≡ durable_true)))
classify_result_cases_example = classify_result_cases taken false

acceptance_transition-validated_example :
    (validate_intent_transition intent_submitting intent_accepted durable_acceptance with_receipt
      ≡ none)
    × ((late : IntentEvidence)
        → validate_intent_transition intent_reconciling intent_accepted durable_acceptance late
          ≢ none)
unfolding acceptance_transition
acceptance_transition-validated_example =
    acceptance_transition-validated (codes "accepted") with_receipt intent_accepted
      durable_acceptance receipt_named refl

execution_transition-validated_example :
    validate_intent_transition intent_accepted intent_failed execution_failed with_receipt ≡ none
unfolding execution_transition
execution_transition-validated_example =
    execution_transition-validated (codes "failed") with_receipt intent_failed execution_failed
      receipt_named refl
