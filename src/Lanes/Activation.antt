-- ===== src/Lanes/Activation.antt =====
-- internal/adapters/sqlite/coordination.go, `ActivateDispatch` and `ActivateFollowup`, from where the
-- dispatch's lane and its rows are found. An error rolls the transaction back.
pub mod Activated
use agent_dispatch.Base.{
  Str, str_eq, is_empty, if◌then◌else◌, Bool, true, false, ◌||◌, not, Option, none, some, [], ok,
  err, Result,
}
use agent_dispatch.Base.Int.{ℤ, pos, leb_ℤ, is_zero}
use agent_dispatch.State.Route.{
  RouteState, route_active_clean, route_active_dirty, is_active, RouteReason, dispatch_accepted,
  followup_accepted, followup_accepted_dirty, RouteSnapshot, RouteEvidence, no_route_evidence,
}
use agent_dispatch.Lanes.Rows.{
  LaneRow, Store, StoreError, lane_snapshot, with_lane, apply_lane_transition,
}
use agent_dispatch.Lanes.Groups.{GroupRow, GroupError, acquire_group_slot}

pub data ActivationError : Type 0 where
  lane_busy : Str → ActivationError
  lane_refused : StoreError → ActivationError
  group_refused : GroupError → ActivationError

abbrev pub activation_evidence : Str → Str → RouteEvidence
activation_evidence actor dispatch = record no_route_evidence {
  actor = actor;
  activating_dispatch_id = dispatch;
}

-- the group slot that the activation takes in the same transaction
abbrev take_group :
    Store → Result GroupError (Option GroupRow) → Result ActivationError (Store × Option GroupRow)
take_group store (ok group) = ok (store, group)
take_group store (err e) = err (group_refused e)

-- the UPDATE of an activated lane, `WHERE … (active_dispatch_id IS NULL OR active_dispatch_id = ?)`
abbrev pub reserve_slot : Str → LaneRow → LaneRow
reserve_slot dispatch lane =
    if is_empty lane.active_dispatch_id || str_eq lane.active_dispatch_id dispatch
    then record lane { active_dispatch_id = dispatch }
    else lane

-- the UPDATE of a lane whose follow-up is activated
abbrev pub activate_row : Str → ℤ → LaneRow → LaneRow
activate_row dispatch generation lane = record lane {
  active_dispatch_id = dispatch;
  active_generation = generation;
  dirty_since = if is_zero lane.dirty_generation then none else lane.dirty_since;
}

abbrev finish_activation :
    (LaneRow → LaneRow)
    → Option GroupRow
    → Str
    → Str
    → Result StoreError Store
    → Result ActivationError (Store × Option GroupRow)
finish_activation update group destination dispatch (err e) = err (lane_refused e)
finish_activation update group destination dispatch (ok store) =
    take_group (with_lane store (update store.lane))
      (acquire_group_slot group store.route.route_id destination dispatch)

-- An activation that a concurrent merge has already consumed is idempotent.
unfoldable pub activate_dispatch :
    Store → Option GroupRow → Str → Str → Str → Result ActivationError (Store × Option GroupRow)
unfolding str_eq
activate_dispatch store group destination dispatch actor =
    let snap = lane_snapshot store in
    if is_active snap.state
    then if str_eq snap.active_dispatch_id dispatch
      then ok (store, group)
      else err (lane_busy snap.active_dispatch_id)
    else finish_activation (reserve_slot dispatch) group destination dispatch (
        apply_lane_transition store snap route_active_clean dispatch_accepted
          (activation_evidence actor dispatch))

abbrev pub followup_edge : RouteSnapshot → RouteState × RouteReason
followup_edge snap =
    if leb_ℤ snap.dirty_generation (pos 0)
    then (route_active_clean, followup_accepted)
    else (route_active_dirty, followup_accepted_dirty)

unfoldable pub activate_followup :
    Store → Option GroupRow → Str → Str → ℤ → Str → Result ActivationError (Store × Option GroupRow)
activate_followup store group destination dispatch generation actor =
    let snap = lane_snapshot store in
    finish_activation (activate_row dispatch generation) group destination dispatch (
      apply_lane_transition store snap (followup_edge snap).0 (followup_edge snap).1
        (activation_evidence actor dispatch))
