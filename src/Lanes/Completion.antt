-- ===== src/Lanes/Completion.antt =====
-- internal/adapters/sqlite/coordination.go, `completeActiveTx`: one work completion on the rows of the
-- lane and of its route. Of the prepared follow-up the model keeps what its decision and its intent
-- need. The slot of the serialization group is in Handover; the notification and the audit rows are
-- not modelled.
pub mod Outcomes
pub mod Completed
use agent_dispatch.Base.{
  Str, codes, str_eq, any, if◌then◌else◌, Bool, true, false, ◌&&◌, ◌||◌, not, Option, none, some,
  [], ◌∷◌, ◌++◌, ok, err, Result, ◌>>=◌,
}
use agent_dispatch.Base.Int.{ℤ, pos, leb_ℤ, is_zero}
use agent_dispatch.State.Route.{
  RouteState, route_idle, route_active_dirty, route_followup_ready, route_uncertain, is_active,
  RouteReason, later_relevant_change, work_completed_clean, work_completed_dirty, work_suppressed,
  work_retry_budget_remains, retry_budget_exhausted, followup_budget_exhausted, RouteSnapshot,
  RouteEvidence, max_consecutive_followups,
}
use agent_dispatch.Lanes.Rows.{
  decision_taken, LaneRow, Store, StoreError, not_active, other_dispatch, generation_moved,
  no_followup_prepared, lane_snapshot, with_lane, apply_lane_transition, coalesce,
  route_uncertain_hold, RouteRow,
}
use agent_dispatch.Lanes.Intents.{IntentInput, save_followup, dispatch_of}

pub record ActiveCompletion : Type 0 where
  pub dispatch_id : Str
  pub failed : Bool
  pub failure_budget_remaining : ℤ
  pub receipt_ref : Str
  pub actor : Str
  pub followup_request : Option IntentInput
  pub followup_generation : ℤ
  pub dirty_suppressed : Bool
  pub fence_generation : Bool
  pub expected_dirty_generation : ℤ
  pub remaining_work : Bool
  pub now : Str

pub record FollowupCreated : Type 0 where
  pub route_to : RouteState
  pub dirty_generation : ℤ
  pub followup_dispatch_id : Option Str

-- `a == b` on Go's integers
abbrev eq_ℤ : ℤ → ℤ → Bool
eq_ℤ a b = leb_ℤ a b && leb_ℤ b a

-- the snapshot after `snap.FailureBudget = …`, and after the remaining work was recorded
abbrev pub revised : RouteSnapshot → RouteState → ℤ → ℤ → RouteSnapshot
revised snap s dirty budget = record {
  route_id = snap.route_id;
  activation_state = snap.activation_state;
  state = s;
  active_dispatch_id = snap.active_dispatch_id;
  dirty_generation = dirty;
  pending_reconcile = snap.pending_reconcile;
  acknowledged_revision = snap.acknowledged_revision;
  capability_fingerprint = snap.capability_fingerprint;
  failure_budget = budget;
}

-- the refusals before any write
unfoldable pub completion_refusal : RouteSnapshot → ActiveCompletion → Option StoreError
unfolding str_eq
completion_refusal snap req =
    if not (is_active snap.state)
    then some (not_active snap.state)
    else if not (str_eq snap.active_dispatch_id req.dispatch_id)
    then some (other_dispatch snap.active_dispatch_id)
    else if req.fence_generation && not (eq_ℤ req.expected_dirty_generation snap.dirty_generation)
    then some (generation_moved snap.dirty_generation)
    else none

abbrev pub dirtying_evidence : ActiveCompletion → RouteEvidence
dirtying_evidence req = record {
  actor = req.actor;
  activating_dispatch_id = [];
  dirty_generation_after = pos 1;
  receipt_ref = [];
  followup_generation = pos 0;
  operator_action = false;
  reconciled_no_work = false;
}

abbrev pub with_dirty :
    RouteSnapshot → Result StoreError Store → Result StoreError (Store × RouteSnapshot)
with_dirty snap m =
    m >>= λ store₁. ok (store₁, revised snap route_active_dirty (pos 1) snap.failure_budget)

-- A partial completion owes the remaining scope: the lane turns dirty, if it was not.
unfoldable pub record_remaining :
    Store → RouteSnapshot → ActiveCompletion → Result StoreError (Store × RouteSnapshot)
record_remaining store snap req =
    let dirtied =
      apply_lane_transition store snap route_active_dirty later_relevant_change
        (dirtying_evidence req) in
    if req.remaining_work && is_zero snap.dirty_generation && is_active snap.state
    then with_dirty snap dirtied
    else ok (store, snap)

abbrev pub needs_followup : RouteSnapshot → ActiveCompletion → Bool
needs_followup snap req =
    (not (leb_ℤ snap.dirty_generation (pos 0)) && not req.dirty_suppressed)
    || snap.pending_reconcile

abbrev pub over_followup_budget : ActiveCompletion → Bool
over_followup_budget req = not (leb_ℤ req.followup_generation max_consecutive_followups)

abbrev is_prepared : ActiveCompletion → Bool
is_prepared req = elim req.followup_request [ none ↦ false | some _ ↦ true ]

-- the choice of `to, reason`
unfoldable pub completion_edge : RouteSnapshot → ActiveCompletion → RouteState × RouteReason
completion_edge snap req =
    let exhausted = leb_ℤ req.failure_budget_remaining (pos 0) in
    if needs_followup snap req
    then if req.failed && exhausted
      then (route_uncertain, retry_budget_exhausted)
      else if over_followup_budget req
      then (route_uncertain, followup_budget_exhausted)
      else if req.failed
      then (route_followup_ready, work_retry_budget_remains)
      else (route_followup_ready, work_completed_dirty)
    else if req.failed
    then if exhausted
      then (route_uncertain, retry_budget_exhausted)
      else (route_followup_ready, work_retry_budget_remains)
    else if req.dirty_suppressed && not (leb_ℤ snap.dirty_generation (pos 0))
    then (route_idle, work_suppressed)
    else (route_idle, work_completed_clean)

abbrev pub completion_evidence : ActiveCompletion → RouteEvidence
completion_evidence req = record {
  actor = req.actor;
  activating_dispatch_id = [];
  dirty_generation_after = pos 0;
  receipt_ref = req.receipt_ref;
  followup_generation = req.followup_generation;
  operator_action = false;
  reconciled_no_work = false;
}

-- the UPDATE of a lane that becomes idle; its WHERE names the completed dispatch
abbrev clear_slot : ActiveCompletion → LaneRow → LaneRow
clear_slot req lane =
    if str_eq lane.active_dispatch_id req.dispatch_id
    then record {
      lane_state = lane.lane_state;
      active_dispatch_id = [];
      active_generation = pos 0;
      dirty_generation = if req.dirty_suppressed then pos 0 else lane.dirty_generation;
      dirty_since = if req.dirty_suppressed then none else lane.dirty_since;
    }
    else lane

-- the UPDATE of a lane whose follow-up is ready
abbrev pub hand_over : ActiveCompletion → LaneRow → LaneRow
hand_over req lane =
    if str_eq lane.active_dispatch_id req.dispatch_id
    then record {
      lane_state = lane.lane_state;
      active_dispatch_id = [];
      active_generation = lane.active_generation;
      dirty_generation = pos 0;
      dirty_since = coalesce lane.dirty_since req.now;
    }
    else lane

abbrev pub clear_pending : RouteRow → RouteRow
clear_pending route = record {
  route_id = route.route_id;
  activation_state = route.activation_state;
  acknowledged_revision = route.acknowledged_revision;
  capability_fingerprint = route.capability_fingerprint;
  route_state = route.route_state;
  active_dispatch_id = route.active_dispatch_id;
  dirty_generation = route.dirty_generation;
  dirty_since = route.dirty_since;
  pending_reconcile = false;
}

abbrev created : RouteState → ℤ → Option Str → FollowupCreated
created to dirty followup = record {
  route_to = to;
  dirty_generation = dirty;
  followup_dispatch_id = followup;
}

-- the writes of the chosen edge, and what they return
unfoldable pub write_completion :
    Store
    → RouteSnapshot
    → ℤ
    → ActiveCompletion
    → RouteState
    → RouteReason
    → Result StoreError (Store × FollowupCreated)
unfolding str_eq save_followup
write_completion store snap dirty req route_uncertain reason =
    route_uncertain_hold store snap reason (completion_evidence req) req.now >>= λ store₁.
    ok (store₁, created route_uncertain dirty none)
write_completion store snap dirty req route_idle reason =
    apply_lane_transition store snap route_idle reason (completion_evidence req) >>= λ store₁.
    ok (with_lane store₁ (clear_slot req store₁.lane), created route_idle dirty none)
write_completion store snap dirty req route_followup_ready reason =
    apply_lane_transition store snap route_followup_ready reason (completion_evidence req)
    >>= λ store₁.
        save_followup
          (record store₁ { route = clear_pending store₁.route; lane = hand_over req store₁.lane })
          req.followup_request
        >>= λ store₂.
            ok (store₂, created route_followup_ready dirty (dispatch_of req.followup_request))
write_completion store snap dirty req to reason =
    apply_lane_transition store snap to reason (completion_evidence req) >>= λ store₁.
    ok (store₁, created to dirty none)

-- what follows the recording of the remaining work
unfoldable pub finish_completion :
    Store → RouteSnapshot → ℤ → ActiveCompletion → Result StoreError (Store × FollowupCreated)
unfolding completion_edge write_completion
finish_completion store snap dirty req =
    if needs_followup snap req && not (over_followup_budget req) && not (is_prepared req)
    then err (no_followup_prepared snap.dirty_generation snap.pending_reconcile)
    else write_completion store snap dirty req (completion_edge snap req).0
        (completion_edge snap req).1

unfoldable pub complete_active :
    Store → ActiveCompletion → Result StoreError (Store × FollowupCreated)
complete_active store req =
    let snap₀ = lane_snapshot store in
    let snap = revised snap₀ snap₀.state snap₀.dirty_generation req.failure_budget_remaining in
    elim (completion_refusal snap req) [
      | some e ↦ err e
      | none ↦ record_remaining store snap req >>= λ (store₁, snap₁).
          finish_completion store₁ snap₁ snap.dirty_generation req
    ]
