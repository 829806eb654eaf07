-- ===== src/Lanes/Groups.antt =====
-- internal/adapters/sqlite/serialization.go, `acquireGroupSlotTx`: the slot of the serialization group
-- that a lane belongs to, if it belongs to one. A NULL text is the empty one; the version, the
-- timestamp and the audit row are left out.
pub mod Exclusion
use agent_dispatch.Base.{
  Str, str_eq, if◌then◌else◌, Bool, ◌&&◌, Option, none, some, ok, err, Result,
}

pub data GroupState : Type 0 where
  group_open group_held group_conflict : GroupState

pub record GroupRow : Type 0 where
  pub state : GroupState
  pub holder_route_id : Str
  pub holder_destination_id : Str
  pub holder_dispatch_id : Str

pub data GroupError : Type 0 where
  serialization_conflict group_slot_held : GroupError

abbrev pub holds_group : Str → Str → GroupRow → Bool
holds_group route destination group =
    str_eq group.holder_route_id route && str_eq group.holder_destination_id destination

abbrev pub taken_by : Str → Str → Str → GroupRow
taken_by route destination dispatch = record {
  state = group_held;
  holder_route_id = route;
  holder_destination_id = destination;
  holder_dispatch_id = dispatch;
}

-- the `switch`, and the UPDATE after it, whose WHERE names the same states
abbrev acquire_from : GroupState → GroupRow → Str → Str → Str → Result GroupError GroupRow
acquire_from group_open group route destination dispatch = ok (taken_by route destination dispatch)
acquire_from group_conflict group route destination dispatch = err serialization_conflict
acquire_from group_held group route destination dispatch =
    if str_eq group.holder_dispatch_id dispatch
    then ok group
    else if holds_group route destination group
    then ok (taken_by route destination dispatch)
    else err group_slot_held

abbrev acquire_row : GroupRow → Str → Str → Str → Result GroupError (Option GroupRow)
acquire_row group route destination dispatch =
    elim (acquire_from group.state group route destination dispatch) [
      | ok row ↦ ok (some row)
      | err e ↦ err e
    ]

unfoldable pub acquire_group_slot :
    Option GroupRow → Str → Str → Str → Result GroupError (Option GroupRow)
unfolding str_eq
acquire_group_slot none route destination dispatch = ok none
acquire_group_slot (some group) route destination dispatch =
    acquire_row group route destination dispatch
