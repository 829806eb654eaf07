-- ===== src/Dispatch/Classify/Validated.antt =====
-- The transitions that the classifier and the projections of receipts ask for, against the intent
-- state machine.
use agent_dispatch.Base.{
  Option-cases, subst, Str, Bool, true, false, ◌≡◌, ◌≢◌, ◌↔◌, ◌⊎◌, refl, inl, inr, ok, none, [],
  arith,
}
use agent_dispatch.Records.Enums.{
  intent_submitting, intent_reconciling, intent_accepted, intent_retry_wait, IntentState,
  AcceptanceState, acceptance_accepted, acceptance_rejected, acceptance_unknown, ExecutionState,
  exec_succeeded, exec_failed, exec_canceled, parse_acceptance_state, parse_execution_state,
}
use agent_dispatch.State.Intent.{
  durable_acceptance, definite_rejection, ambiguous_outcome, lookup_found_accepted,
  lookup_not_accepted, unresolved_or_limit, IntentReason, IntentEvidence,
  validate_intent_transition,
}
use agent_dispatch.State.Intent.Moves.{
  Move, validate_intent_transition_iff, accept, reject, doubt, wait, lease, found, not_found,
  give_up, succeed, fail, cancel,
}
use agent_dispatch.State.Projection.{
  accepted_to, executed_to, acceptance_transition, execution_transition,
}
use agent_dispatch.Dispatch.Classify.{
  SubmitResult, submit_accepted, submit_definite_not_submitted, durable_true, classify_result,
}

classify-Move :
    (res : SubmitResult) (sink_failed : Bool) (ev : IntentEvidence)
    → let c = classify_result res sink_failed in
      (c.receipt_worthy ≡ true → ev.receipt_ref ≢ []) → Move intent_submitting c.to c.reason ev
unfolding classify_result
classify-Move res sink_failed ev h = grind (arith, accept, reject, doubt, wait)

-- Whatever a submission returned, the transition that its classification asks for is validated from
-- `submitting`, if the evidence names a receipt where the classification calls for one.
pub classify_result-validated :
    (res : SubmitResult) (sink_failed : Bool) (ev : IntentEvidence)
    → ((classify_result res sink_failed).receipt_worthy ≡ true → ev.receipt_ref ≢ [])
    → validate_intent_transition intent_submitting
        (classify_result res sink_failed).to
        (classify_result res sink_failed).reason
        ev
      ≡ none
classify_result-validated res sink_failed ev h =
    (validate_intent_transition_iff intent_submitting _ _ ev).1 (classify-Move res sink_failed ev h)

-- A submission moves to `retry_wait` exactly where the sink returned no error and proved that nothing
-- was submitted; it moves to `accepted` exactly where the sink returned no error and classified it as
-- accepted; and its durability counts as proved exactly where it moves to `accepted` and the result
-- says that it is durable.
pub classify_result_cases :
    (res : SubmitResult) (sink_failed : Bool)
    → let c = classify_result res sink_failed in
      ((c.to ≡ intent_retry_wait)
        ↔ ((sink_failed ≡ false) × (res.classification ≡ submit_definite_not_submitted)))
      × ((c.to ≡ intent_accepted)
          ↔ ((sink_failed ≡ false) × (res.classification ≡ submit_accepted)))
      × ((c.durable_acceptance_proved ≡ true)
          ↔ ((c.to ≡ intent_accepted) × (res.durable ≡ durable_true)))
unfolding classify_result
classify_result_cases res sink_failed = ground arith

accepted_to-Move :
    (v : AcceptanceState) (ev : IntentEvidence)
    → ev.receipt_ref ≢ []
    → Move intent_submitting (accepted_to v).0 (accepted_to v).1 ev
accepted_to-Move acceptance_accepted ev k = accept k
accepted_to-Move acceptance_rejected ev k = reject k
accepted_to-Move acceptance_unknown ev k = doubt

acceptance-Move :
    (a : Str) (ev : IntentEvidence) (to : IntentState) (reason : IntentReason)
    → acceptance_transition a ≡ ok (to, reason)
    → ev.receipt_ref ≢ []
    → Move intent_submitting to reason ev
unfolding acceptance_transition
acceptance-Move a ev to reason h k = elim (Option-cases (parse_acceptance_state a)) [
  | inl e ↦ absurd (ground arith)
  | inr (v, e) ↦
      let p : (accepted_to v) ≡ (to, reason) = ground arith in
      subst (λ (x : IntentState × IntentReason). Move intent_submitting x.0 x.1 ev) p
        (accepted_to-Move v ev k)
]

executed_to-Move :
    (v : ExecutionState) (ev : IntentEvidence) (p : IntentState × IntentReason)
    → executed_to v ≡ ok p
    → ev.receipt_ref ≢ []
    → Move intent_accepted p.0 p.1 ev
executed_to-Move exec_succeeded ev p h k =
    subst (λ (x : IntentState × IntentReason). Move intent_accepted x.0 x.1 ev) (ground arith)
      (succeed k)
executed_to-Move exec_failed ev p h k =
    subst (λ (x : IntentState × IntentReason). Move intent_accepted x.0 x.1 ev) (ground arith)
      (fail k)
executed_to-Move exec_canceled ev p h k =
    subst (λ (x : IntentState × IntentReason). Move intent_accepted x.0 x.1 ev) (ground arith)
      (cancel k)
executed_to-Move _ ev p h k = absurd (ground arith)

execution-Move :
    (e : Str) (ev : IntentEvidence) (to : IntentState) (reason : IntentReason)
    → execution_transition e ≡ ok (to, reason)
    → ev.receipt_ref ≢ []
    → Move intent_accepted to reason ev
unfolding execution_transition
execution-Move e ev to reason h k = elim (Option-cases (parse_execution_state e)) [
  | inl n ↦ absurd (ground arith)
  | inr (v, q) ↦ executed_to-Move v ev (to, reason) (ground arith) k
]

-- the reasons that a transition out of `reconciling` can have
reconciling_reason :
    {from to : IntentState} {reason : IntentReason} {ev : IntentEvidence}
    → Move from to reason ev
    → from ≡ intent_reconciling
    → (reason ≡ lookup_found_accepted)
      ⊎ (reason ≡ lookup_not_accepted)
      ⊎ (reason ≡ unresolved_or_limit)
reconciling_reason (found h) e = inl refl
reconciling_reason (not_found h) e = inr (inl refl)
reconciling_reason (give_up h) e = inr (inr refl)
reconciling_reason (lease h) e = cc
reconciling_reason _ e = ground arith

acceptance_reason :
    (text : Str) (to : IntentState) (reason : IntentReason)
    → acceptance_transition text ≡ ok (to, reason)
    → (reason ≡ durable_acceptance) ⊎ (reason ≡ definite_rejection) ⊎ (reason ≡ ambiguous_outcome)
unfolding acceptance_transition
acceptance_reason text to reason h = ground arith

-- What an acceptance receipt reports is validated by the intent state machine from `submitting`, if
-- the evidence names a receipt, and is rejected by it from `reconciling`, whatever the evidence.
pub acceptance_transition-validated :
    (text : Str) (ev : IntentEvidence) (to : IntentState) (reason : IntentReason)
    → ev.receipt_ref ≢ []
    → acceptance_transition text ≡ ok (to, reason)
    → (validate_intent_transition intent_submitting to reason ev ≡ none)
      × ((late : IntentEvidence)
          → validate_intent_transition intent_reconciling to reason late ≢ none)
acceptance_transition-validated text ev to reason k h = (
  (validate_intent_transition_iff intent_submitting to reason ev).1
      (acceptance-Move text ev to reason h k),
  λ late v.
      let move = (validate_intent_transition_iff intent_reconciling to reason late).0 v in
      ground (arith, acceptance_reason text to reason h, reconciling_reason move refl),
)

-- What a terminal execution projection reports is validated by the intent state machine from
-- `accepted`, if the evidence names a receipt.
pub execution_transition-validated :
    (text : Str) (ev : IntentEvidence) (to : IntentState) (reason : IntentReason)
    → ev.receipt_ref ≢ []
    → execution_transition text ≡ ok (to, reason)
    → validate_intent_transition intent_accepted to reason ev ≡ none
execution_transition-validated text ev to reason k h =
    (validate_intent_transition_iff intent_accepted to reason ev).1
      (execution-Move text ev to reason h k)
