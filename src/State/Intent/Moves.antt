-- ===== src/State/Intent/Moves.antt =====
-- An independent description of the intent state machine: one rule for each documented edge, with
-- the evidence that it takes (docs/architecture, persistence-and-state-machines §3).
use agent_dispatch.Base.{refl, ◌↔◌, true, ◌≡◌, ◌≢◌, ◌⊎◌, none, some, [], arith}
use agent_dispatch.Records.Enums.{
  IntentState, intent_ready, intent_submitting, intent_accepted, intent_rejected, intent_unknown,
  intent_retry_wait, intent_reconciling, intent_dead_lettered, intent_superseded, intent_completed,
  intent_failed, intent_canceled, acceptance_accepted, acceptance_rejected, acceptance_unknown,
}
use agent_dispatch.State.Intent.{
  IntentReason-discrete, IntentReason, lease_acquired, durable_acceptance, definite_rejection,
  ambiguous_outcome, transient_failure, retry_due, lookup_started, lookup_found_accepted,
  lookup_not_accepted, unresolved_or_limit, terminal_policy, route_invalidated, execution_succeeded,
  execution_failed, target_canceled, explicit_retry, reprocess_or_discard, LeaseEvidence,
  ReconciliationEvidence, IntentEvidence, validate_intent_transition,
}

abbrev pub HasLease : IntentEvidence → Type 0
HasLease ev = (l : LeaseEvidence) × (ev.lease ≡ some l) × (l.owner ≢ []) × (l.expires_at ≢ [])

abbrev pub Looked : (ReconciliationEvidence → Type 0) → IntentEvidence → Type 0
Looked P ev = (r : ReconciliationEvidence) × (ev.reconciliation ≡ some r) × P r

pub data Move : IntentState → IntentState → IntentReason → IntentEvidence → Type 0 where
  lease :
      {ev : IntentEvidence} → HasLease ev → Move intent_ready intent_submitting lease_acquired ev
  accept :
      {ev : IntentEvidence}
      → ev.receipt_ref ≢ []
      → Move intent_submitting intent_accepted durable_acceptance ev
  reject :
      {ev : IntentEvidence}
      → ev.receipt_ref ≢ []
      → Move intent_submitting intent_rejected definite_rejection ev
  doubt : {ev : IntentEvidence} → Move intent_submitting intent_unknown ambiguous_outcome ev
  wait : {ev : IntentEvidence} → Move intent_submitting intent_retry_wait transient_failure ev
  again :
      {ev : IntentEvidence} → HasLease ev → Move intent_retry_wait intent_submitting retry_due ev
  look :
      {ev : IntentEvidence}
      → ev.actor ≢ []
      → Move intent_unknown intent_reconciling lookup_started ev
  found :
      {ev : IntentEvidence}
      → Looked (λ r. r.result ≡ acceptance_accepted) ev
      → Move intent_reconciling intent_accepted lookup_found_accepted ev
  not_found :
      {ev : IntentEvidence}
      → Looked (λ r. r.result ≡ acceptance_rejected) ev
      → Move intent_reconciling intent_retry_wait lookup_not_accepted ev
  give_up :
      {ev : IntentEvidence}
      → Looked (λ r. (r.result ≡ acceptance_unknown) ⊎ (r.attempts_exhausted ≡ true)) ev
      → Move intent_reconciling intent_dead_lettered unresolved_or_limit ev
  terminal : {ev : IntentEvidence} → Move intent_rejected intent_dead_lettered terminal_policy ev
  invalidate : {ev : IntentEvidence} → Move intent_ready intent_superseded route_invalidated ev
  succeed :
      {ev : IntentEvidence}
      → ev.receipt_ref ≢ []
      → Move intent_accepted intent_completed execution_succeeded ev
  fail :
      {ev : IntentEvidence}
      → ev.receipt_ref ≢ []
      → Move intent_accepted intent_failed execution_failed ev
  cancel :
      {ev : IntentEvidence}
      → ev.receipt_ref ≢ []
      → Move intent_accepted intent_canceled target_canceled ev
  revive :
      {ev : IntentEvidence}
      → ev.explicit_retry_given ≡ true
      → ev.actor ≢ []
      → Move intent_dead_lettered intent_ready explicit_retry ev
  discard :
      {ev : IntentEvidence} → Move intent_dead_lettered intent_superseded reprocess_or_discard ev

ruleset moves = (
  lease, accept, reject, doubt, wait, again, look, found, not_found, give_up, terminal, invalidate,
  succeed, fail, cancel, revive, discard,
)

validate→Move :
    (from to : IntentState) (reason : IntentReason) (ev : IntentEvidence)
    → validate_intent_transition from to reason ev ≡ none
    → Move from to reason ev
unfolding validate_intent_transition
validate→Move intent_ready intent_ready reason ev h = ground arith
validate→Move _ _ reason ev h = grind (arith, moves)

Move→validate :
    {from to : IntentState} {reason : IntentReason} {ev : IntentEvidence}
    → Move from to reason ev
    → validate_intent_transition from to reason ev ≡ none
unfolding validate_intent_transition IntentReason-discrete
Move→validate (lease h) = ground arith
Move→validate (accept h) = ground arith
Move→validate (reject h) = ground arith
Move→validate doubt = refl
Move→validate wait = refl
Move→validate (again h) = ground arith
Move→validate (look h) = ground arith
Move→validate (found h) = ground arith
Move→validate (not_found h) = ground arith
Move→validate (give_up h) = ground arith
Move→validate terminal = refl
Move→validate invalidate = refl
Move→validate (succeed h) = ground arith
Move→validate (fail h) = ground arith
Move→validate (cancel h) = ground arith
Move→validate (revive h k) = ground arith
Move→validate discard = refl

-- A transition is validated, with a nil error, exactly when one of the documented edges allows it
-- on this reason and this evidence.
pub validate_intent_transition_iff :
    (from to : IntentState) (reason : IntentReason) (ev : IntentEvidence)
    → (validate_intent_transition from to reason ev ≡ none) ↔ Move from to reason ev
validate_intent_transition_iff from to reason ev = (validate→Move from to reason ev, Move→validate)
