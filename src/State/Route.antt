-- ===== src/State/Route.antt =====
-- internal/domain/state/route.go: the route coordination state machine, its table and its guards,
-- and the gate on a new normal dispatch. A Go `int` is an integer that may be negative: `ℤ`.

pub mod Moves
pub mod Gate
use agent_dispatch.Base.{
  Str, codes, str_eq, is_empty, any, if◌then◌else◌, Bool, true, false, ◌&&◌, ◌||◌, not, Option,
  none, some, List, [], ◌∷◌,
}
use agent_dispatch.Base.Int.{ℤ, pos, leb_ℤ, is_zero}
use agent_dispatch.State.Errors.{
  TransitionError, Detail, not_an_edge, undocumented_reason, route_not_enabled, needs_dispatch,
  slot_held, needs_dirty_generation, dirty_must_increase, dirty_dropped, reconcile_dropped,
  needs_completion_evidence, needs_suppression_receipt, nothing_to_follow_up, no_failure_budget,
  no_pending_reconcile, budget_remains, followup_budget_remains, needs_no_work_proof,
  needs_slot_holder, needs_lookup_actor, needs_uncertainty_actor, needs_operator, followup_pending,
  is_uncertain, is_quarantined, already_active,
}
use agent_dispatch.Records.Enums.{parse_enum}
use mathlib.Core.Logic.{ite}
use mathlib.Core.Option
use mathlib.Core.List

pub data RouteState : Type 0 where
  route_idle route_active_clean route_active_dirty : RouteState
  route_followup_ready route_uncertain route_quarantined : RouteState

abbrev pub route_state_text : RouteState → Str
route_state_text route_idle = codes "IDLE"
route_state_text route_active_clean = codes "ACTIVE_CLEAN"
route_state_text route_active_dirty = codes "ACTIVE_DIRTY"
route_state_text route_followup_ready = codes "FOLLOWUP_READY"
route_state_text route_uncertain = codes "UNCERTAIN"
route_state_text route_quarantined = codes "QUARANTINED"

abbrev pub all_route_states : List RouteState
all_route_states =
    route_idle ∷ route_active_clean ∷ route_active_dirty ∷ route_followup_ready ∷ route_uncertain
    ∷ route_quarantined ∷ []

unfoldable pub parse_route_state : Str → Option RouteState
unfolding parse_enum
parse_route_state = parse_enum route_state_text all_route_states

abbrev pub is_active : RouteState → Bool
is_active route_active_clean = true
is_active route_active_dirty = true
is_active _ = false

pub data RouteReason : Type 0 where
  dispatch_accepted later_relevant_change more_changes_merged work_completed_clean : RouteReason
  work_completed_dirty work_suppressed work_retry_budget_remains retry_budget_exhausted :
      RouteReason
  followup_budget_exhausted execution_evidence_stale followup_accepted followup_accepted_dirty :
      RouteReason
  followup_dropped target_lookup_finds_active reconciliation_resolved operator_action_required :
      RouteReason
  operator_resolved : RouteReason

unfoldable pub RouteReason-discrete : Discrete RouteReason
RouteReason-discrete = hlevel

abbrev pub route_reason_text : RouteReason → Str
route_reason_text dispatch_accepted = codes "dispatch_accepted"
route_reason_text later_relevant_change = codes "later_relevant_change"
route_reason_text more_changes_merged = codes "more_changes_merged"
route_reason_text work_completed_clean = codes "work_completed_no_dirty_generation"
route_reason_text work_completed_dirty = codes "work_completed_dirty_generation"
route_reason_text work_suppressed = codes "work_completed_exact_suppression"
route_reason_text work_retry_budget_remains = codes "work_retry_budget_remains"
route_reason_text retry_budget_exhausted = codes "retry_budget_exhausted"
route_reason_text followup_budget_exhausted = codes "followup_budget_exhausted"
route_reason_text execution_evidence_stale = codes "execution_evidence_stale_or_missing"
route_reason_text followup_accepted = codes "followup_accepted"
route_reason_text followup_accepted_dirty = codes "followup_accepted_dirty"
route_reason_text followup_dropped = codes "followup_dropped_after_reconciliation"
route_reason_text target_lookup_finds_active = codes "target_lookup_finds_active"
route_reason_text reconciliation_resolved = codes "reconciliation_resolved"
route_reason_text operator_action_required = codes "operator_action_required"
route_reason_text operator_resolved = codes "operator_release_or_discard"

-- `none` is a missing key.
unfoldable pub route_table : RouteState → RouteState → Option (List RouteReason)
route_table route_idle route_active_clean = some (dispatch_accepted ∷ [])
route_table route_active_clean route_active_dirty = some (later_relevant_change ∷ [])
route_table route_active_dirty route_active_dirty = some (more_changes_merged ∷ [])
route_table route_active_clean route_idle = some (work_completed_clean ∷ [])
route_table route_active_dirty route_idle = some (work_suppressed ∷ [])
route_table route_active_dirty route_followup_ready =
    some (work_completed_dirty ∷ work_retry_budget_remains ∷ [])
route_table route_active_clean route_followup_ready =
    some (work_completed_dirty ∷ work_retry_budget_remains ∷ [])
route_table route_active_clean route_uncertain =
    some (retry_budget_exhausted ∷ followup_budget_exhausted ∷ execution_evidence_stale ∷ [])
route_table route_active_dirty route_uncertain =
    some (retry_budget_exhausted ∷ followup_budget_exhausted ∷ execution_evidence_stale ∷ [])
route_table route_followup_ready route_active_clean = some (followup_accepted ∷ [])
route_table route_followup_ready route_active_dirty = some (followup_accepted_dirty ∷ [])
route_table route_followup_ready route_idle = some (followup_dropped ∷ [])
route_table route_uncertain route_active_clean = some (target_lookup_finds_active ∷ [])
route_table route_uncertain route_followup_ready = some (reconciliation_resolved ∷ [])
route_table route_uncertain route_quarantined = some (operator_action_required ∷ [])
route_table route_quarantined route_idle = some (operator_resolved ∷ [])
route_table _ _ = none

abbrev pub max_consecutive_followups : ℤ
max_consecutive_followups = pos 50

pub record RouteSnapshot : Type 0 where
  pub route_id : Str
  pub activation_state : Str
  pub state : RouteState
  pub active_dispatch_id : Str
  pub dirty_generation : ℤ
  pub pending_reconcile : Bool
  pub acknowledged_revision : Str
  pub capability_fingerprint : Str
  pub failure_budget : ℤ

pub record RouteEvidence : Type 0 where
  pub actor : Str
  pub activating_dispatch_id : Str
  pub dirty_generation_after : ℤ
  pub receipt_ref : Str
  pub followup_generation : ℤ
  pub operator_action : Bool
  pub reconciled_no_work : Bool

-- the zero value of the struct
abbrev pub no_route_evidence : RouteEvidence
no_route_evidence = record {
  actor = [];
  activating_dispatch_id = [];
  dirty_generation_after = pos 0;
  receipt_ref = [];
  followup_generation = pos 0;
  operator_action = false;
  reconciled_no_work = false;
}

unfoldable pub route_rejection : RouteState → RouteState → RouteReason → Detail → TransitionError
route_rejection from to reason detail = record {
  entity = codes "route";
  from = route_state_text from;
  to = route_state_text to;
  reason = route_reason_text reason;
  detail = detail;
}

unfoldable pub can_transition_route : RouteState → RouteState → Bool
unfolding route_table
can_transition_route from to = elim (route_table from to) [ none ↦ false | some _ ↦ true ]

unfoldable pub route_reasons : RouteState → RouteState → Option (List RouteReason)
unfolding route_table
route_reasons from to = route_table from to

-- `if bad { return routeRejected(…, detail) }` before what follows
abbrev pub stops_with : Bool → Detail → Option Detail → Option Detail
stops_with bad d rest = if bad then some d else rest

abbrev pub is_enabled : Str → Bool
is_enabled s = str_eq s (codes "enabled")

abbrev is_reason : RouteReason → RouteReason → Bool
is_reason wanted reason = ite (RouteReason-discrete reason wanted) true false

-- the first case of the `switch`: an activation
activation_guard : Bool → RouteSnapshot → RouteEvidence → Option Detail
unfolding str_eq
activation_guard dirty_edge snap ev =
    stops_with (not (is_enabled snap.activation_state)) (route_not_enabled snap.activation_state) (
      stops_with (is_empty ev.activating_dispatch_id) needs_dispatch (
        stops_with
          (not (is_empty snap.active_dispatch_id)
            && not (str_eq snap.active_dispatch_id ev.activating_dispatch_id))
          (slot_held snap.active_dispatch_id)
          (stops_with (dirty_edge && leb_ℤ snap.dirty_generation (pos 0)) needs_dirty_generation
            none)))

dirtying_guard : RouteSnapshot → RouteEvidence → Option Detail
dirtying_guard snap ev =
    stops_with (leb_ℤ ev.dirty_generation_after snap.dirty_generation)
      (dirty_must_increase snap.dirty_generation ev.dirty_generation_after) none

uncertain_guard : RouteReason → RouteSnapshot → RouteEvidence → Option Detail
uncertain_guard reason snap ev =
    stops_with (is_reason retry_budget_exhausted reason && not (leb_ℤ snap.failure_budget (pos 0)))
      budget_remains
      (stops_with
        (is_reason followup_budget_exhausted reason
          && leb_ℤ ev.followup_generation max_consecutive_followups)
        followup_budget_remains none)

-- the `switch` on the edge
unfoldable pub route_guard :
    RouteState → RouteState → RouteReason → RouteSnapshot → RouteEvidence → Option Detail
unfolding activation_guard dirtying_guard uncertain_guard
route_guard route_idle route_active_clean reason snap ev = activation_guard false snap ev
route_guard route_followup_ready route_active_clean reason snap ev = activation_guard false snap ev
route_guard route_followup_ready route_active_dirty reason snap ev = activation_guard true snap ev
route_guard route_active_clean route_active_dirty reason snap ev = dirtying_guard snap ev
route_guard route_active_dirty route_active_dirty reason snap ev = dirtying_guard snap ev
route_guard route_active_clean route_idle reason snap ev =
    stops_with (not (is_zero snap.dirty_generation)) (dirty_dropped snap.dirty_generation) (
      stops_with snap.pending_reconcile reconcile_dropped
        (stops_with (is_empty ev.receipt_ref) needs_completion_evidence none))
route_guard route_active_dirty route_idle reason snap ev =
    stops_with (is_empty ev.receipt_ref) needs_suppression_receipt
      (stops_with snap.pending_reconcile reconcile_dropped none)
route_guard route_active_dirty route_followup_ready reason snap ev =
    stops_with
      (is_reason work_completed_dirty reason
        && is_zero snap.dirty_generation
        && not snap.pending_reconcile)
      nothing_to_follow_up
      (stops_with (is_reason work_retry_budget_remains reason && leb_ℤ snap.failure_budget (pos 0))
        no_failure_budget none)
route_guard route_active_clean route_followup_ready reason snap ev =
    stops_with (is_reason work_retry_budget_remains reason && leb_ℤ snap.failure_budget (pos 0))
      no_failure_budget
      (stops_with (is_reason work_completed_dirty reason && not snap.pending_reconcile)
        no_pending_reconcile none)
route_guard route_active_clean route_uncertain reason snap ev = uncertain_guard reason snap ev
route_guard route_active_dirty route_uncertain reason snap ev = uncertain_guard reason snap ev
route_guard route_followup_ready route_idle reason snap ev =
    stops_with (not ev.reconciled_no_work) needs_no_work_proof none
route_guard route_uncertain route_active_clean reason snap ev =
    stops_with (is_empty snap.active_dispatch_id) needs_slot_holder
      (stops_with (is_empty ev.actor) needs_lookup_actor none)
route_guard route_uncertain route_followup_ready reason snap ev =
    stops_with (is_empty ev.actor) needs_uncertainty_actor none
route_guard route_uncertain route_quarantined reason snap ev =
    stops_with (is_empty ev.actor) needs_uncertainty_actor none
route_guard route_quarantined route_idle reason snap ev =
    stops_with (not ev.operator_action || is_empty ev.actor) needs_operator none
route_guard _ _ _ _ _ = none

-- the loop that sets `documented`
abbrev route_documented : List RouteReason → RouteReason → Bool
route_documented reasons reason = any (λ r. is_reason r reason) reasons

abbrev checked_route_detail :
    Option (List RouteReason) → RouteReason → Option Detail → Option Detail
checked_route_detail none reason guard = some not_an_edge
checked_route_detail (some reasons) reason guard =
    if route_documented reasons reason
    then guard
    else some (undocumented_reason (List.map route_reason_text reasons))

-- The detail of the rejection, if there is one.
unfoldable pub route_detail :
    RouteState → RouteState → RouteReason → RouteSnapshot → RouteEvidence → Option Detail
unfolding route_table route_guard
route_detail from to reason snap ev =
    checked_route_detail (route_table from to) reason (route_guard from to reason snap ev)

-- `none` is the nil error of a validated transition.
unfoldable pub validate_route_transition :
    RouteSnapshot → RouteState → RouteReason → RouteEvidence → Option TransitionError
unfolding route_detail route_rejection
validate_route_transition snap to reason ev =
    Option.map (route_rejection snap.state to reason) (route_detail snap.state to reason snap ev)

-- the error of `CanActivateNormalDispatch`, which names no target state and no reason
activation_refusal : RouteState → Detail → TransitionError
activation_refusal from detail = record {
  entity = codes "route";
  from = route_state_text from;
  to = [];
  reason = [];
  detail = detail;
}

-- the `switch` of `CanActivateNormalDispatch`; `none` falls through
abbrev busy_detail : RouteState → Option Detail
busy_detail route_idle = none
busy_detail route_followup_ready = some followup_pending
busy_detail route_uncertain = some is_uncertain
busy_detail route_quarantined = some is_quarantined
busy_detail _ = some already_active

abbrev or_else : Option Detail → Option Detail → Option Detail
or_else (some d) rest = some d
or_else none rest = rest

unfoldable pub can_activate_normal_dispatch : RouteSnapshot → Option TransitionError
unfolding activation_refusal str_eq
can_activate_normal_dispatch snap = Option.map (activation_refusal snap.state) (
    stops_with (not (is_enabled snap.activation_state)) (route_not_enabled snap.activation_state) (
      or_else (busy_detail snap.state) (
        stops_with (not (is_empty snap.active_dispatch_id)) (slot_held snap.active_dispatch_id)
          none)))
