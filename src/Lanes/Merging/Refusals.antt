-- ===== src/Lanes/Merging/Refusals.antt =====
-- A burst on a lane whose dispatch is reserved while another lane holds the group: what the dispatch's
-- activation and completion then meet.
use agent_dispatch.Base.{
  Str, codes, str_eq_iff, true, false, ◌≡◌, ◌≢◌, ◌⊎◌, inl, inr, none, some, [], ok, err, arith,
  Option, Option-cases, subst,
}
use agent_dispatch.Base.Int.{pos, ◌≤ℤ◌, ◌<ℤ◌}
use agent_dispatch.State.Route.{
  route_idle, route_active_clean, route_followup_ready, work_completed_dirty, RouteSnapshot,
  RouteEvidence, validate_route_transition, max_consecutive_followups, dispatch_accepted,
}
use agent_dispatch.State.Route.Moves.{
  RouteMove, validate_route_transition_iff, follow_up_clean, activate,
}
use agent_dispatch.Lanes.Rows.{
  rejected, Store, StoreError, holds_lanes, lane_snapshot, apply_lane_transition, with_lane,
  with_state,
}
use agent_dispatch.Lanes.Groups.{GroupRow, group_held, acquire_group_slot}
use agent_dispatch.Lanes.Activation.{reserve_slot, activate_dispatch, activation_evidence}
use agent_dispatch.Lanes.Completion.{
  ActiveCompletion, FollowupCreated, complete_active, completion_evidence, completion_refusal,
  record_remaining, finish_completion,
}
use agent_dispatch.Lanes.Completion.Outcomes.{budgeted, apply_lane_transition-ok}
use agent_dispatch.Lanes.Merging.{
  settle, Merge, Merged, merge_lanes, waits_for_group, group_free, count_dirty,
}

-- A lane that is active clean although its dirty generation counts, with nothing pending.

abbrev IsWedged : Store → Type 0
IsWedged s =
    (holds_lanes s.route.route_state ≡ false)
    × (s.lane.lane_state ≡ route_active_clean)
    × (pos 0 <ℤ s.lane.dirty_generation)
    × (s.route.pending_reconcile ≡ false)

-- A completion of work that did not fail and whose dirty generation was not suppressed, within the
-- bound on consecutive follow-ups.

abbrev pub IsOrdinary : ActiveCompletion → Type 0
IsOrdinary req =
    (req.failed ≡ false)
    × (req.dirty_suppressed ≡ false)
    × (req.followup_generation ≤ℤ max_consecutive_followups)

from_pending :
    {snap : RouteSnapshot} {ev : RouteEvidence}
    → RouteMove snap ev route_active_clean route_followup_ready work_completed_dirty
    → snap.pending_reconcile ≡ true
from_pending (follow_up_clean h) = h

no_clean_followup :
    (snap : RouteSnapshot) (req : ActiveCompletion)
    → snap.state ≡ route_active_clean
    → snap.pending_reconcile ≡ false
    → validate_route_transition snap route_followup_ready work_completed_dirty
        (completion_evidence req)
      ≢ none
no_clean_followup snap req h k v =
    let move =
      (validate_route_transition_iff snap route_followup_ready work_completed_dirty
          (completion_evidence req)).0
        v in
    let pending = from_pending (
      subst
        (λ s. RouteMove snap (completion_evidence req) s route_followup_ready work_completed_dirty)
        h move) in
    ground (arith, pending, k)

apply_lane_transition-refused :
    (store : Store) (snap : RouteSnapshot) (req : ActiveCompletion)
    → snap.state ≡ route_active_clean
    → snap.pending_reconcile ≡ false
    → (e : StoreError) × (apply_lane_transition store snap route_followup_ready work_completed_dirty
          (completion_evidence req)
        ≡ err e)
unfolding apply_lane_transition
apply_lane_transition-refused store snap req h k =
    elim (Option-cases (
      validate_route_transition snap route_followup_ready work_completed_dirty
        (completion_evidence req))) [
          | inl v ↦ absurd (no_clean_followup snap req h k v)
          | inr (e, v) ↦ (rejected e, ground (arith, v))
        ]

wedged-refused :
    (s t : Store) (req : ActiveCompletion) (out : FollowupCreated)
    → IsWedged s
    → IsOrdinary req
    → complete_active s req ≢ ok (t, out)
unfolding complete_active completion_refusal record_remaining finish_completion
wedged-refused s t req out h k e =
    ground (arith, apply_lane_transition-refused s (budgeted s req) req)

-- An idle lane of an enabled route, with a dispatch reserved in its slot and nothing dirty or pending.

abbrev pub IsReserved : Store → Str → Type 0
IsReserved s dispatch =
    (holds_lanes s.route.route_state ≡ false)
    × (s.route.activation_state ≡ codes "enabled")
    × (s.lane.lane_state ≡ route_idle)
    × (s.lane.active_dispatch_id ≡ dispatch)
    × (dispatch ≢ [])
    × (s.lane.dirty_generation ≡ pos 0)
    × (s.route.pending_reconcile ≡ false)

-- Another lane holds the group.

abbrev pub IsHeldElsewhere : Store → Str → GroupRow → Type 0
IsHeldElsewhere s destination group =
    (group.state ≡ group_held)
    × ((group.holder_route_id ≢ s.route.route_id) ⊎ (group.holder_destination_id ≢ destination))

abbrev burst_store : Store → Str → Store
burst_store s now = settle false now (with_lane s (count_dirty (pos 1) now s.lane))

abbrev activated_store : Store → Str → Store
activated_store s dispatch =
    with_lane s (reserve_slot dispatch (with_state s.lane route_active_clean))

reserved-validated :
    (s : Store) (dispatch actor now : Str)
    → IsReserved s dispatch
    → validate_route_transition
        (lane_snapshot (burst_store s now))
        route_active_clean
        dispatch_accepted
        (activation_evidence actor dispatch)
      ≡ none
reserved-validated s dispatch actor now h =
    (validate_route_transition_iff (lane_snapshot (burst_store s now)) route_active_clean
        dispatch_accepted (activation_evidence actor dispatch)).1
      (grind (arith, activate))

burst-IsWedged :
    (s : Store) (dispatch now : Str)
    → IsReserved s dispatch
    → IsWedged (activated_store (burst_store s now) dispatch)
burst-IsWedged s dispatch now h = ground arith

burst_merged :
    (s : Store) (group : GroupRow) (m : Merge) (dispatch : Str)
    → IsReserved s dispatch
    → IsHeldElsewhere s m.destination group
    → merge_lanes s (some group) m
      ≡ ok (burst_store s m.now, some group, record { max_dirty = pos 1; idle_empty = false })
unfolding merge_lanes waits_for_group group_free
burst_merged s group m dispatch h k = ground (
  arith,
  str_eq_iff group.holder_route_id s.route.route_id,
  str_eq_iff group.holder_destination_id m.destination,
)

burst_activated :
    (s : Store) (group taken : Option GroupRow) (destination dispatch actor now : Str)
    → IsReserved s dispatch
    → acquire_group_slot group s.route.route_id destination dispatch ≡ ok taken
    → activate_dispatch (burst_store s now) group destination dispatch actor
      ≡ ok (activated_store (burst_store s now) dispatch, taken)
unfolding activate_dispatch
burst_activated s group taken destination dispatch actor now h k =
    let s₁ = burst_store s now in
    let ev = activation_evidence actor dispatch in
    ground (
      arith,
      apply_lane_transition-ok s₁ (lane_snapshot s₁) route_active_clean dispatch_accepted ev,
      reserved-validated s dispatch actor now h,
    )

-- A burst that reaches an idle lane whose dispatch is reserved, while another lane holds the group, is
-- counted on the idle lane; once the group grants the slot to the dispatch, the dispatch is activated
-- into the clean state all the same; and the store that this activation leaves refuses every
-- completion that did not fail, whose dirty generation was not suppressed and which is within the
-- bound on consecutive follow-ups.
pub reserved_burst-wedges :
    (s : Store) (group : GroupRow) (granting taken : Option GroupRow) (m : Merge) (dispatch : Str)
    (req : ActiveCompletion) (t : Store) (out : FollowupCreated)
    → IsReserved s dispatch
    → IsHeldElsewhere s m.destination group
    → acquire_group_slot granting s.route.route_id m.destination dispatch ≡ ok taken
    → IsOrdinary req
    → (s₁ : Store) × (counts : Merged) × (s₂ : Store) × (merge_lanes s (some group) m
        ≡ ok (s₁, some group, counts))
      × (s₁.lane.lane_state ≡ route_idle)
      × (s₁.lane.dirty_generation ≡ pos 1)
      × (activate_dispatch s₁ granting m.destination dispatch m.actor ≡ ok (s₂, taken))
      × (s₂.lane.lane_state ≡ route_active_clean)
      × (complete_active s₂ req ≢ ok (t, out))
reserved_burst-wedges s group granting taken m dispatch req t out h k g r = (
  burst_store s m.now,
  record { max_dirty = pos 1; idle_empty = false },
  activated_store (burst_store s m.now) dispatch,
  burst_merged s group m dispatch h k,
  h.2,
  ground arith,
  burst_activated s granting taken m.destination dispatch m.actor m.now h g,
  ground arith,
  wedged-refused (activated_store (burst_store s m.now) dispatch) t req out
      (burst-IsWedged s dispatch m.now h) r,
)
