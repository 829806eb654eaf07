-- ===== src/Lanes/Reach.antt =====
-- The life of a lane that belongs to no serialization group: the transactions that commit on its rows,
-- as a step relation, and what they keep.
pub mod Kept
pub mod Completed
pub mod Reached
use agent_dispatch.Base.{Str, ◌≡◌, none, ok, Option, [], ◌≢◌, ◌⊎◌, codes, true, false}
use agent_dispatch.Base.Int.{ℤ, pos, ◌≤ℤ◌, ◌<ℤ◌}
use agent_dispatch.State.Route.{
  RouteState, route_quarantined, route_idle, route_active_clean, route_active_dirty,
  route_followup_ready, route_uncertain,
}
use agent_dispatch.Lanes.Rows.{Store, RouteRow, holds_lanes}
use agent_dispatch.Lanes.Completion.{ActiveCompletion, FollowupCreated, complete_active}
use agent_dispatch.Lanes.Intents.{IntentInput, save_intent}
use agent_dispatch.Lanes.Activation.{activate_dispatch, activate_followup}
use agent_dispatch.Lanes.Merging.{Merge, Merged, merge_lanes}

pub data Step : Store → Store → Type 0 where
  reserving : {s t : Store} (i : IntentInput) → save_intent s i ≡ ok t → Step s t
  activating :
      {s t : Store} (destination dispatch actor : Str)
      → activate_dispatch s none destination dispatch actor ≡ ok (t, none)
      → Step s t
  activating_followup :
      {s t : Store} (destination dispatch actor : Str) (generation : ℤ)
      → activate_followup s none destination dispatch generation actor ≡ ok (t, none)
      → Step s t
  merging :
      {s t : Store} (m : Merge) (counts : Merged)
      → merge_lanes s none m ≡ ok (t, none, counts)
      → Step s t
  completing :
      {s t : Store} (req : ActiveCompletion) (out : FollowupCreated)
      → complete_active s req ≡ ok (t, out)
      → Step s t

-- A fresh lane is idle, with an empty slot and nothing dirty, on a route that holds no lane.

abbrev pub IsFresh : Store → Type 0
IsFresh s =
    (holds_lanes s.route.route_state ≡ false)
    × (s.lane.lane_state ≡ route_idle)
    × (s.lane.active_dispatch_id ≡ [])
    × (s.lane.dirty_generation ≡ pos 0)

pub data Reach : Store → Type 0 where
  start : {s : Store} → IsFresh s → Reach s
  later : {s t : Store} → Reach s → Step s t → Reach t

-- the counts of dirty generations that fit the lane's state
abbrev pub Fits : RouteState → ℤ → Type 0
Fits route_idle count = count ≡ pos 0
Fits route_active_clean count = count ≡ pos 0
Fits route_active_dirty count = pos 0 <ℤ count
Fits route_followup_ready count = pos 0 ≤ℤ count
Fits route_uncertain count = pos 0 ≤ℤ count
Fits route_quarantined count = pos 0 ≤ℤ count

-- The count of dirty generations fits the lane's state, and a route that holds its lanes does so for
-- this one.

abbrev pub IsSound : Store → Type 0
IsSound s =
    Fits s.lane.lane_state s.lane.dirty_generation
    × ((holds_lanes s.route.route_state ≡ false) ⊎ (s.lane.lane_state ≡ route_uncertain))
