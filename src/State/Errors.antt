-- ===== src/State/Errors.antt =====
-- internal/domain/state/intent.go, `TransitionError`: what the two state machines return when they
-- reject a transition. The detail text is a constructor of `Detail`.
use agent_dispatch.Base.{Str, List}
use agent_dispatch.Base.Int.{ℤ}

pub data Detail : Type 0 where
  not_an_edge : Detail
  undocumented_reason : List Str → Detail
  needs_lease : Detail
  needs_acceptance_receipt : Detail
  needs_rejection_receipt : Detail
  needs_reconciling_actor : Detail
  needs_accepted_lookup : Detail
  needs_rejected_lookup : Detail
  needs_unresolved_or_exhausted : Detail
  needs_execution_receipt : Detail
  needs_explicit_retry : Detail
  route_not_enabled : Str → Detail
  needs_dispatch : Detail
  slot_held : Str → Detail
  needs_dirty_generation : Detail
  dirty_must_increase : ℤ → ℤ → Detail
  dirty_dropped : ℤ → Detail
  reconcile_dropped needs_completion_evidence needs_suppression_receipt : Detail
  nothing_to_follow_up no_failure_budget no_pending_reconcile budget_remains : Detail
  followup_budget_remains needs_no_work_proof needs_slot_holder needs_lookup_actor : Detail
  needs_uncertainty_actor needs_operator : Detail
  followup_pending is_uncertain is_quarantined already_active : Detail

pub record TransitionError : Type 0 where
  pub entity : Str
  pub from : Str
  pub to : Str
  pub reason : Str
  pub detail : Detail
