-- ===== src/Lanes/Promotion.antt =====
-- internal/adapters/sqlite/serialization.go, `releaseGroupSlotTx` and `transferGroupSlotTx`: what
-- becomes of a group's slot when its dispatch completes or is replaced. The query's rows are the lanes
-- of the group with what it reads of them; the version, the timestamp and the audit row are left out.
pub mod Waiting
pub mod Oldest
use agent_dispatch.Base.{
  Str, codes, str_eq, is_empty, if◌then◌else◌, Bool, true, false, ◌&&◌, ◌||◌, not, Option, none,
  some, List, [], ◌∷◌, ok, err, Result,
}
use agent_dispatch.Base.Int.{leb_ℤ, pos}
use agent_dispatch.Base.Ordering.{Order, str_order, pair_order, opt_order}
use agent_dispatch.State.Route.{RouteState, route_followup_ready}
use agent_dispatch.Records.Enums.{IntentState, intent_state_text}
use agent_dispatch.Lanes.Rows.{LaneRow}
use agent_dispatch.Lanes.Groups.{
  GroupRow, GroupState, group_open, group_held, group_conflict, GroupError, serialization_conflict,
  holds_group,
}

-- A member lane of the group, with the state of the intent in its slot, if there is one.
pub record Member : Type 0 where
  pub route_id : Str
  pub destination_id : Str
  pub lane : LaneRow
  pub intent : Option IntentState

abbrev is_ready : RouteState → Bool
is_ready route_followup_ready = true
is_ready _ = false

-- `d.state NOT IN ('completed','superseded','cancelled')`
unfoldable pub is_live : Str → Bool
unfolding str_eq
is_live state = not (
    str_eq state (codes "completed")
    || str_eq state (codes "superseded")
    || str_eq state (codes "cancelled"))

-- the EXISTS clause
abbrev pub has_live_intent : Member → Bool
has_live_intent m = elim m.intent [ none ↦ false | some s ↦ is_live (intent_state_text s) ]

-- the WHERE clause
unfoldable pub waits : Str → Str → Member → Bool
unfolding str_eq
waits route destination m =
    not (str_eq m.route_id route && str_eq m.destination_id destination)
    && (not (leb_ℤ m.lane.dirty_generation (pos 0))
        || (is_ready m.lane.lane_state
            && not (is_empty m.lane.active_dispatch_id)
            && has_live_intent m))

-- the ORDER BY clause: a NULL comes last
abbrev pub waiting_key : Member → Option Str × (Str × Str)
waiting_key m = (m.lane.dirty_since, (m.destination_id, m.route_id))

abbrev pub key_order : Order (Option Str × (Str × Str))
key_order = pair_order (opt_order str_order) (pair_order str_order str_order)

abbrev pub older : Member → Option Member → Member
older m none = m
older m (some n) = if key_order.lt (waiting_key n) (waiting_key m) then n else m

-- the first row of the query
unfoldable pub next_waiting : Str → Str → List Member → Option Member
next_waiting route destination [] = none
next_waiting route destination (m ∷ ms) =
    let rest = next_waiting route destination ms in
    if waits route destination m then some (older m rest) else rest

abbrev pub open_row : GroupRow
open_row = record {
  state = group_open;
  holder_route_id = [];
  holder_destination_id = [];
  holder_dispatch_id = [];
}

abbrev pub reserved_row : Member → GroupRow
reserved_row m = record {
  state = group_held;
  holder_route_id = m.route_id;
  holder_destination_id = m.destination_id;
  holder_dispatch_id = [];
}

-- the UPDATEs, `WHERE … state = 'HELD' AND holder_dispatch_id = ?`
abbrev pass_on : Option Member → Str → GroupRow → GroupRow
pass_on next dispatch group =
    if not (str_eq group.holder_dispatch_id dispatch)
    then group
    else elim next [ none ↦ open_row | some m ↦ reserved_row m ]

abbrev is_held : GroupState → Bool
is_held group_held = true
is_held _ = false

abbrev release_row : GroupRow → List Member → Str → Str → Str → GroupRow
release_row group members route destination dispatch =
    if not (is_held group.state)
      || (not (str_eq group.holder_dispatch_id dispatch)
          && not (holds_group route destination group))
    then group
    else pass_on (next_waiting route destination members) dispatch group

unfoldable pub release_group_slot :
    Option GroupRow → List Member → Str → Str → Str → Option GroupRow
unfolding str_eq
release_group_slot none members route destination dispatch = none
release_group_slot (some group) members route destination dispatch =
    some (release_row group members route destination dispatch)

abbrev transfer_row : GroupState → GroupRow → Str → Str → Result GroupError GroupRow
transfer_row group_conflict group original replacement = err serialization_conflict
transfer_row group_open group original replacement = ok group
transfer_row group_held group original replacement =
    if str_eq group.holder_dispatch_id original
    then ok (record group { holder_dispatch_id = replacement })
    else ok group

unfoldable pub transfer_group_slot :
    Option GroupRow → Str → Str → Result GroupError (Option GroupRow)
unfolding str_eq
transfer_group_slot none original replacement = ok none
transfer_group_slot (some group) original replacement =
    elim (transfer_row group.state group original replacement) [
      | ok row ↦ ok (some row)
      | err e ↦ err e
    ]
