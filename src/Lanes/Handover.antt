-- ===== src/Lanes/Handover.antt =====
-- internal/adapters/sqlite/coordination.go, `completeActiveTx`, with the slot of the lane's serialization
-- group: a lane that becomes idle or has its follow-up ready releases it in the same transaction, and a
-- lane that becomes uncertain keeps it. The group's member lanes are read before the follow-up's
-- reservation.
pub mod Passed
use agent_dispatch.Base.{Option, List, ok, Result, ◌>>=◌}
use agent_dispatch.State.Route.{RouteState, route_uncertain}
use agent_dispatch.Lanes.Rows.{Store, StoreError}
use agent_dispatch.Lanes.Groups.{GroupRow}
use agent_dispatch.Lanes.Promotion.{Member, release_group_slot}
use agent_dispatch.Lanes.Completion.{ActiveCompletion, FollowupCreated, complete_active}

abbrev release_after :
    RouteState → Option GroupRow → List Member → Store → ActiveCompletion → Option GroupRow
release_after route_uncertain group members store req = group
release_after _ group members store req =
    release_group_slot group members store.route.route_id store.destination_id req.dispatch_id

unfoldable pub complete_active_tx :
    Store
    → Option GroupRow
    → List Member
    → ActiveCompletion
    → Result StoreError (Store × Option GroupRow × FollowupCreated)
complete_active_tx store group members req = complete_active store req >>= λ (after, out).
    ok (after, release_after out.route_to group members store req, out)
