-- ===== src/Lanes/Rows.antt =====
-- internal/adapters/sqlite/lanes.go: the rows of one lane and of its route, the snapshot that joins
-- them, and a lane transition. A NULL text is the empty one. The version columns, which only grow,
-- and the rows of the audit trail are left out; so are the failures of the database itself.
use agent_dispatch.Base.{
  Str, str_eq, if◌then◌else◌, Bool, true, false, Option, none, some, ok, err, Result, List,
}
use agent_dispatch.Base.Int.{ℤ, pos}
use agent_dispatch.State.Errors.{TransitionError}
use agent_dispatch.State.Route.{
  RouteState, route_uncertain, route_quarantined, route_state_text, RouteReason, RouteSnapshot,
  RouteEvidence, validate_route_transition,
}

pub record LaneRow : Type 0 where
  pub lane_state : RouteState
  pub active_dispatch_id : Str
  pub active_generation : ℤ
  pub dirty_generation : ℤ
  pub dirty_since : Option Str

pub record RouteRow : Type 0 where
  pub route_id : Str
  pub activation_state : Str
  pub acknowledged_revision : Str
  pub capability_fingerprint : Str
  pub route_state : RouteState
  pub active_dispatch_id : Str
  pub dirty_generation : ℤ
  pub dirty_since : Option Str
  pub pending_reconcile : Bool

-- A row of `dispatch_intents` by its keys: the dispatch, and the target with the idempotency key.
pub record IntentKey : Type 0 where
  pub dispatch_id : Str
  pub target_id : Str
  pub idempotency_key : Str

-- The route, the lane of one destination, the route's other lanes by destination, the recorded intents
-- and the ids of the recorded decisions.
pub record Store : Type 0 where
  pub route : RouteRow
  pub destination_id : Str
  pub lane : LaneRow
  pub siblings : List (Str × LaneRow)
  pub intents : List IntentKey
  pub decisions : List Str

pub data StoreError : Type 0 where
  not_active : RouteState → StoreError
  other_dispatch : Str → StoreError
  generation_moved : ℤ → StoreError
  no_followup_prepared : ℤ → Bool → StoreError
  changed_concurrently : StoreError
  slot_held : Str → StoreError
  decision_taken intent_refused : Str → StoreError
  fanout_refused : Str → StoreError
  rejected : TransitionError → StoreError

-- A route that is uncertain or quarantined holds every lane.
abbrev pub holds_lanes : RouteState → Bool
holds_lanes route_uncertain = true
holds_lanes route_quarantined = true
holds_lanes _ = false

abbrev pub lane_snapshot : Store → RouteSnapshot
lane_snapshot store =
    let held = holds_lanes store.route.route_state in
    record {
      route_id = store.route.route_id;
      activation_state = store.route.activation_state;
      state = if held then store.route.route_state else store.lane.lane_state;
      active_dispatch_id =
          if held then store.route.active_dispatch_id else store.lane.active_dispatch_id;
      dirty_generation = if held then store.route.dirty_generation else store.lane.dirty_generation;
      pending_reconcile = store.route.pending_reconcile;
      acknowledged_revision = store.route.acknowledged_revision;
      capability_fingerprint = store.route.capability_fingerprint;
      failure_budget = pos 0;
    }

abbrev pub with_lane : Store → LaneRow → Store
with_lane store lane = record store { lane = lane }

abbrev pub with_state : LaneRow → RouteState → LaneRow
with_state lane to = record {
  lane_state = to;
  active_dispatch_id = lane.active_dispatch_id;
  active_generation = lane.active_generation;
  dirty_generation = lane.dirty_generation;
  dirty_since = lane.dirty_since;
}

-- `WHERE lane_state = ?`: no row is written when the lane has left the snapshot's state.
abbrev write_lane_state : Store → RouteState → RouteState → Result StoreError Store
write_lane_state store from to =
    if str_eq (route_state_text store.lane.lane_state) (route_state_text from)
    then ok (with_lane store (with_state store.lane to))
    else err changed_concurrently

unfoldable pub apply_lane_transition :
    Store → RouteSnapshot → RouteState → RouteReason → RouteEvidence → Result StoreError Store
apply_lane_transition store snap to reason ev = elim (validate_route_transition snap to reason ev) [
  | some e ↦ err (rejected e)
  | none ↦ write_lane_state store snap.state to
]

-- `COALESCE(dirty_since, ?)`
abbrev pub coalesce : Option Str → Str → Option Str
coalesce (some t) now = some t
coalesce none now = some now

abbrev pub hold_route : RouteRow → RouteSnapshot → Str → RouteRow
hold_route route snap now = record {
  route_id = route.route_id;
  activation_state = route.activation_state;
  acknowledged_revision = route.acknowledged_revision;
  capability_fingerprint = route.capability_fingerprint;
  route_state = route_uncertain;
  active_dispatch_id = snap.active_dispatch_id;
  dirty_generation = snap.dirty_generation;
  dirty_since = coalesce route.dirty_since now;
  pending_reconcile = route.pending_reconcile;
}

-- the UPDATE of the route row, `WHERE route_state NOT IN ('QUARANTINED','UNCERTAIN')`
abbrev write_hold : RouteSnapshot → Str → Store → Result StoreError Store
write_hold snap now store =
    if holds_lanes store.route.route_state
    then err changed_concurrently
    else ok (record store { route = hold_route store.route snap now })

abbrev then_hold : RouteSnapshot → Str → Result StoreError Store → Result StoreError Store
then_hold snap now (err e) = err e
then_hold snap now (ok store) = write_hold snap now store

unfoldable pub route_uncertain_hold :
    Store → RouteSnapshot → RouteReason → RouteEvidence → Str → Result StoreError Store
unfolding apply_lane_transition
route_uncertain_hold store snap reason ev now =
    elim (validate_route_transition snap route_uncertain reason ev) [
      | some e ↦ err (rejected e)
      | none ↦ then_hold snap now (apply_lane_transition store snap route_uncertain reason ev)
    ]
