-- ===== src/State/Projection.antt =====
-- internal/domain/state/projection.go: which intent transition an acceptance receipt or an execution
-- projection justifies. The axes are raw texts here, as in Go, so the error branches are reached.
use agent_dispatch.Base.{Str, Result, ok, err, none, some}
use agent_dispatch.Records.Enums.{
  IntentState, intent_accepted, intent_rejected, intent_unknown, intent_completed, intent_failed,
  intent_canceled, AcceptanceState, acceptance_accepted, acceptance_rejected, acceptance_unknown,
  ExecutionState, exec_unavailable, exec_queued, exec_running, exec_succeeded, exec_failed,
  exec_canceled, parse_acceptance_state, parse_execution_state,
}
use agent_dispatch.State.Intent.{
  IntentReason, durable_acceptance, definite_rejection, ambiguous_outcome, execution_succeeded,
  execution_failed, target_canceled,
}

pub data ProjectionError : Type 0 where
  unknown_state : Str → ProjectionError
  execution_not_terminal : ProjectionError

abbrev pub accepted_to : AcceptanceState → IntentState × IntentReason
accepted_to acceptance_accepted = (intent_accepted, durable_acceptance)
accepted_to acceptance_rejected = (intent_rejected, definite_rejection)
accepted_to acceptance_unknown = (intent_unknown, ambiguous_outcome)

unfoldable pub acceptance_transition : Str → Result ProjectionError (IntentState × IntentReason)
unfolding parse_acceptance_state
acceptance_transition a = elim (parse_acceptance_state a) [
  | some v ↦ ok (accepted_to v)
  | none ↦ err (unknown_state a)
]

abbrev pub executed_to : ExecutionState → Result ProjectionError (IntentState × IntentReason)
executed_to exec_succeeded = ok (intent_completed, execution_succeeded)
executed_to exec_failed = ok (intent_failed, execution_failed)
executed_to exec_canceled = ok (intent_canceled, target_canceled)
executed_to exec_unavailable = err execution_not_terminal
executed_to exec_queued = err execution_not_terminal
executed_to exec_running = err execution_not_terminal

unfoldable pub execution_transition : Str → Result ProjectionError (IntentState × IntentReason)
unfolding parse_execution_state
execution_transition e = elim (parse_execution_state e) [
  | some v ↦ executed_to v
  | none ↦ err (unknown_state e)
]
