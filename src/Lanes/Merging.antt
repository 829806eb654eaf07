-- ===== src/Lanes/Merging.antt =====
-- internal/adapters/sqlite/coordination.go, `mergeLanesTx`, for a selection of one destination: a
-- later burst is recorded on its lane. The rows of the lane, of its route and of its group are the
-- arguments; the materialization of the lane and the notification are not modelled.
pub mod Refusals
use agent_dispatch.Base.{
  Str, str_eq, is_empty, if◌then◌else◌, Bool, true, false, ◌&&◌, ◌||◌, not, Option, none, some, ok,
  err, Result,
}
use agent_dispatch.Base.Int.{ℤ, pos, succ_ℤ, max_ℤ}
use agent_dispatch.State.Route.{
  RouteState, route_idle, route_active_clean, route_active_dirty, route_uncertain, is_active,
  RouteReason, dispatch_accepted, later_relevant_change, more_changes_merged, RouteSnapshot,
  RouteEvidence, no_route_evidence, is_enabled,
}
use agent_dispatch.Lanes.Rows.{
  LaneRow, RouteRow, Store, StoreError, lane_snapshot, with_lane, apply_lane_transition, coalesce,
}
use agent_dispatch.Lanes.Groups.{
  GroupRow, GroupState, GroupError, group_open, group_held, group_conflict, holds_group,
  acquire_group_slot,
}
use agent_dispatch.Lanes.Activation.{
  ActivationError, lane_refused, group_refused, activation_evidence,
}

pub record Merge : Type 0 where
  pub destination : Str
  pub actor : Str
  pub now : Str

-- the highest new dirty count, and whether a pending reconciliation was recorded instead
pub record Merged : Type 0 where
  pub max_dirty : ℤ
  pub idle_empty : Bool

abbrev is_held : GroupState → Bool
is_held group_held = true
is_held _ = false

abbrev is_open : GroupState → Bool
is_open group_open = true
is_open _ = false

abbrev pub is_idle : RouteState → Bool
is_idle route_idle = true
is_idle _ = false

-- `waitingForGroup` of an enabled lane
unfoldable pub waits_for_group : Str → Str → Option GroupRow → Bool
unfolding str_eq
waits_for_group route destination none = false
waits_for_group route destination (some group) =
    is_held group.state && not (holds_group route destination group)

unfoldable pub group_free : Str → Str → Option GroupRow → Bool
unfolding str_eq
group_free route destination none = true
group_free route destination (some group) =
    is_open group.state || holds_group route destination group

abbrev pub in_state : RouteSnapshot → RouteState → RouteSnapshot
in_state snap s = record snap { state = s }

-- what the reservation's activation leaves for the rest of the round
pub record Round : Type 0 where
  pub store : Store
  pub snap : RouteSnapshot
  pub group : Option GroupRow

abbrev with_group :
    Store → RouteSnapshot → Result GroupError (Option GroupRow) → Result ActivationError Round
with_group store snap (ok group) = ok (record { store = store; snap = snap; group = group })
with_group store snap (err e) = err (group_refused e)

abbrev activated :
    Str
    → Merge
    → RouteSnapshot
    → Option GroupRow
    → Result StoreError Store
    → Result ActivationError Round
activated dispatch m snap group (err e) = err (lane_refused e)
activated dispatch m snap group (ok store) =
    with_group store (in_state snap route_active_clean)
      (acquire_group_slot group store.route.route_id m.destination dispatch)

-- A lane that is idle with a reserved slot activates its reservation first, if the group is free.
unfoldable pub consume_reservation :
    Store → RouteSnapshot → Option GroupRow → Merge → Result ActivationError Round
consume_reservation store snap group m =
    if is_idle snap.state
      && not (is_empty snap.active_dispatch_id)
      && group_free store.route.route_id m.destination group
    then activated snap.active_dispatch_id m snap group (
        apply_lane_transition store snap route_active_clean dispatch_accepted
          (activation_evidence m.actor snap.active_dispatch_id))
    else ok (record { store = store; snap = snap; group = group })

abbrev pub merge_reason : RouteState → RouteReason
merge_reason route_active_dirty = more_changes_merged
merge_reason _ = later_relevant_change

abbrev pub merge_evidence : Str → ℤ → RouteEvidence
merge_evidence actor dirty_after = record no_route_evidence {
  actor = actor;
  dirty_generation_after = dirty_after;
}

-- Active work exists: the lane takes the edge to `route_active_dirty`.
unfoldable pub mark_dirty : Round → ℤ → Merge → Result StoreError Store
mark_dirty round dirty_after m =
    if is_active round.snap.state
    then apply_lane_transition round.store round.snap route_active_dirty
        (merge_reason round.snap.state) (merge_evidence m.actor dirty_after)
    else ok round.store

-- the UPDATE that counts the burst
abbrev pub count_dirty : ℤ → Str → LaneRow → LaneRow
count_dirty dirty_after now lane = record lane {
  dirty_generation = max_ℤ lane.dirty_generation dirty_after;
  dirty_since = coalesce lane.dirty_since now;
}

abbrev counted :
    Option GroupRow
    → ℤ
    → Merge
    → Result StoreError Store
    → Result ActivationError (Store × Option GroupRow)
counted group dirty_after m (err e) = err (lane_refused e)
counted group dirty_after m (ok store) =
    ok (with_lane store (count_dirty dirty_after m.now store.lane), group)

abbrev rest_of_round :
    ℤ → Merge → Result ActivationError Round → Result ActivationError (Store × Option GroupRow)
rest_of_round dirty_after m (err e) = err e
rest_of_round dirty_after m (ok round) =
    counted round.group dirty_after m (mark_dirty round dirty_after m)

-- the round of the loop, from `dirtyAfter` on
unfoldable pub merge_lane :
    Store
    → RouteSnapshot
    → Option GroupRow
    → Merge
    → Result ActivationError (Store × Option GroupRow)
unfolding consume_reservation mark_dirty
merge_lane store snap group m =
    rest_of_round (succ_ℤ store.lane.dirty_generation) m (consume_reservation store snap group m)

-- what follows the loop: the pending reconciliation, and the route's own count under its hold
abbrev pub settle_route : Bool → Str → RouteRow → RouteRow
settle_route idle_empty now route = elim route.route_state [
  | route_uncertain ↦ record route {
    pending_reconcile = idle_empty || route.pending_reconcile;
    dirty_generation = succ_ℤ route.dirty_generation;
    dirty_since = coalesce route.dirty_since now;
  }
  | _ ↦ record route { pending_reconcile = idle_empty || route.pending_reconcile }
]

abbrev pub settle : Bool → Str → Store → Store
settle idle_empty now store = record store { route = settle_route idle_empty now store.route }

-- `idleEmpty`: no dispatch could own the burst's dirty generation.
abbrev pub is_idle_empty : RouteSnapshot → Bool
is_idle_empty snap = is_idle snap.state && is_empty snap.active_dispatch_id

-- the `continue` of a lane that is idle and empty, and does not wait for its group
unfoldable pub skips : Store → RouteSnapshot → Option GroupRow → Merge → Bool
unfolding waits_for_group str_eq
skips store snap group m =
    is_idle_empty snap
    && not (
        is_enabled snap.activation_state
        && waits_for_group store.route.route_id m.destination group)

abbrev settled :
    Bool
    → ℤ
    → Merge
    → Result ActivationError (Store × Option GroupRow)
    → Result ActivationError (Store × Option GroupRow × Merged)
settled idle_empty dirty_after m (err e) = err e
settled idle_empty dirty_after m (ok (store, group)) = ok (
  settle idle_empty m.now store,
  group,
  record { max_dirty = max_ℤ (pos 0) dirty_after; idle_empty = idle_empty },
)

unfoldable pub merge_lanes :
    Store → Option GroupRow → Merge → Result ActivationError (Store × Option GroupRow × Merged)
unfolding merge_lane skips
merge_lanes store group m =
    let snap = lane_snapshot store in
    let idle_empty = is_idle_empty snap in
    if skips store snap group m
    then settled idle_empty (pos 0) m (ok (store, group))
    else settled idle_empty (succ_ℤ store.lane.dirty_generation) m (merge_lane store snap group m)
