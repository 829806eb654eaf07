-- ===== src/State/Route/Moves.antt =====
-- An independent description of the route state machine: one rule for each documented edge and
-- reason, with what it takes of the snapshot and of the evidence (persistence-and-state-machines
-- §6).
use agent_dispatch.Base.{codes, str_eq_iff, true, false, ◌≡◌, ◌≢◌, ◌⊎◌, ◌↔◌, none, [], arith}
use agent_dispatch.Base.Int.{pos, ◌≤ℤ◌, ◌<ℤ◌}
use agent_dispatch.State.Route.{
  RouteState, route_idle, route_active_clean, route_active_dirty, route_followup_ready,
  route_uncertain, route_quarantined, RouteReason, RouteReason-discrete, dispatch_accepted,
  later_relevant_change, more_changes_merged, work_completed_clean, work_completed_dirty,
  work_suppressed, work_retry_budget_remains, retry_budget_exhausted, followup_budget_exhausted,
  execution_evidence_stale, followup_accepted, followup_accepted_dirty, followup_dropped,
  target_lookup_finds_active, reconciliation_resolved, operator_action_required, operator_resolved,
  RouteSnapshot, RouteEvidence, max_consecutive_followups, route_detail, validate_route_transition,
}

-- An enabled route takes the dispatch, and holds no other.

abbrev pub MayActivate : RouteSnapshot → RouteEvidence → Type 0
MayActivate snap ev =
    (snap.activation_state ≡ codes "enabled")
    × (ev.activating_dispatch_id ≢ [])
    × ((snap.active_dispatch_id ≡ []) ⊎ (snap.active_dispatch_id ≡ ev.activating_dispatch_id))

pub data RouteMove (snap : RouteSnapshot) (ev : RouteEvidence)
    : RouteState → RouteState → RouteReason → Type 0 where
  activate : MayActivate snap ev → RouteMove snap ev route_idle route_active_clean dispatch_accepted
  activate_followup :
      MayActivate snap ev
      → RouteMove snap ev route_followup_ready route_active_clean followup_accepted
  activate_dirty_followup :
      MayActivate snap ev
      → pos 0 <ℤ snap.dirty_generation
      → RouteMove snap ev route_followup_ready route_active_dirty followup_accepted_dirty
  dirty :
      snap.dirty_generation <ℤ ev.dirty_generation_after
      → RouteMove snap ev route_active_clean route_active_dirty later_relevant_change
  dirty_more :
      snap.dirty_generation <ℤ ev.dirty_generation_after
      → RouteMove snap ev route_active_dirty route_active_dirty more_changes_merged
  finish_clean :
      snap.dirty_generation ≡ pos 0
      → snap.pending_reconcile ≡ false
      → ev.receipt_ref ≢ []
      → RouteMove snap ev route_active_clean route_idle work_completed_clean
  suppress :
      ev.receipt_ref ≢ []
      → snap.pending_reconcile ≡ false
      → RouteMove snap ev route_active_dirty route_idle work_suppressed
  follow_up_dirty :
      (snap.dirty_generation ≢ pos 0) ⊎ (snap.pending_reconcile ≡ true)
      → RouteMove snap ev route_active_dirty route_followup_ready work_completed_dirty
  follow_up_clean :
      snap.pending_reconcile ≡ true
      → RouteMove snap ev route_active_clean route_followup_ready work_completed_dirty
  retry_dirty :
      pos 0 <ℤ snap.failure_budget
      → RouteMove snap ev route_active_dirty route_followup_ready work_retry_budget_remains
  retry_clean :
      pos 0 <ℤ snap.failure_budget
      → RouteMove snap ev route_active_clean route_followup_ready work_retry_budget_remains
  exhaust_clean :
      snap.failure_budget ≤ℤ pos 0
      → RouteMove snap ev route_active_clean route_uncertain retry_budget_exhausted
  exhaust_dirty :
      snap.failure_budget ≤ℤ pos 0
      → RouteMove snap ev route_active_dirty route_uncertain retry_budget_exhausted
  chain_clean :
      max_consecutive_followups <ℤ ev.followup_generation
      → RouteMove snap ev route_active_clean route_uncertain followup_budget_exhausted
  chain_dirty :
      max_consecutive_followups <ℤ ev.followup_generation
      → RouteMove snap ev route_active_dirty route_uncertain followup_budget_exhausted
  stale_clean : RouteMove snap ev route_active_clean route_uncertain execution_evidence_stale
  stale_dirty : RouteMove snap ev route_active_dirty route_uncertain execution_evidence_stale
  drop_followup :
      ev.reconciled_no_work ≡ true
      → RouteMove snap ev route_followup_ready route_idle followup_dropped
  lookup_active :
      snap.active_dispatch_id ≢ []
      → ev.actor ≢ []
      → RouteMove snap ev route_uncertain route_active_clean target_lookup_finds_active
  resolve :
      ev.actor ≢ [] → RouteMove snap ev route_uncertain route_followup_ready reconciliation_resolved
  escalate :
      ev.actor ≢ [] → RouteMove snap ev route_uncertain route_quarantined operator_action_required
  release :
      ev.operator_action ≡ true
      → ev.actor ≢ []
      → RouteMove snap ev route_quarantined route_idle operator_resolved

ruleset route_moves = (
  activate, activate_followup, activate_dirty_followup, dirty, dirty_more, finish_clean, suppress,
  follow_up_dirty, follow_up_clean, retry_dirty, retry_clean, exhaust_clean, exhaust_dirty,
  chain_clean, chain_dirty, stale_clean, stale_dirty, drop_followup, lookup_active, resolve,
  escalate, release,
)

detail→RouteMove :
    (snap : RouteSnapshot) (ev : RouteEvidence) (from to : RouteState) (reason : RouteReason)
    → route_detail from to reason snap ev ≡ none
    → RouteMove snap ev from to reason
unfolding route_detail
detail→RouteMove snap ev route_idle route_idle reason h = ground arith
detail→RouteMove snap ev _ _ reason h = grind (
  arith,
  route_moves,
  str_eq_iff snap.activation_state (codes "enabled"),
  str_eq_iff snap.active_dispatch_id ev.activating_dispatch_id,
)

RouteMove→detail :
    {snap : RouteSnapshot} {ev : RouteEvidence} {from to : RouteState} {reason : RouteReason}
    → RouteMove snap ev from to reason
    → route_detail from to reason snap ev ≡ none
unfolding route_detail RouteReason-discrete
RouteMove→detail {snap} {ev} (activate h) = ground (
  arith,
  str_eq_iff snap.activation_state (codes "enabled"),
  str_eq_iff snap.active_dispatch_id ev.activating_dispatch_id,
)
RouteMove→detail {snap} {ev} (activate_followup h) = ground (
  arith,
  str_eq_iff snap.activation_state (codes "enabled"),
  str_eq_iff snap.active_dispatch_id ev.activating_dispatch_id,
)
RouteMove→detail {snap} {ev} (activate_dirty_followup h k) = ground (
  arith,
  str_eq_iff snap.activation_state (codes "enabled"),
  str_eq_iff snap.active_dispatch_id ev.activating_dispatch_id,
)
RouteMove→detail (dirty h) = ground arith
RouteMove→detail (dirty_more h) = ground arith
RouteMove→detail (finish_clean h k l) = ground arith
RouteMove→detail (suppress h k) = ground arith
RouteMove→detail (follow_up_dirty h) = ground arith
RouteMove→detail (follow_up_clean h) = ground arith
RouteMove→detail (retry_dirty h) = ground arith
RouteMove→detail (retry_clean h) = ground arith
RouteMove→detail (exhaust_clean h) = ground arith
RouteMove→detail (exhaust_dirty h) = ground arith
RouteMove→detail (chain_clean h) = ground arith
RouteMove→detail (chain_dirty h) = ground arith
RouteMove→detail stale_clean = ground arith
RouteMove→detail stale_dirty = ground arith
RouteMove→detail (drop_followup h) = ground arith
RouteMove→detail (lookup_active h k) = ground arith
RouteMove→detail (resolve h) = ground arith
RouteMove→detail (escalate h) = ground arith
RouteMove→detail (release h k) = ground arith

-- A route transition is validated, with a nil error, exactly when one of the documented edges
-- allows it for this reason, this snapshot and this evidence.
pub validate_route_transition_iff :
    (snap : RouteSnapshot) (to : RouteState) (reason : RouteReason) (ev : RouteEvidence)
    → (validate_route_transition snap to reason ev ≡ none) ↔ RouteMove snap ev snap.state to reason
unfolding validate_route_transition
validate_route_transition_iff snap to reason ev = (
  λ h. detail→RouteMove snap ev snap.state to reason (ground arith),
  λ m. rw (RouteMove→detail m),
)
