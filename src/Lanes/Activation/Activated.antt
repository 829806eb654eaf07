-- ===== src/Lanes/Activation/Activated.antt =====
-- What the activation of a follow-up leaves.
use agent_dispatch.Base.{Str, codes, false, ◌≡◌, ◌≢◌, ◌⊎◌, Option, none, [], ok, arith, refl}
use agent_dispatch.Base.Int.{ℤ, pos, ◌≤ℤ◌}
use agent_dispatch.State.Route.{route_followup_ready, validate_route_transition}
use agent_dispatch.State.Route.Moves.{
  validate_route_transition_iff, activate_followup, activate_dirty_followup,
}
use agent_dispatch.Lanes.Rows.{Store, holds_lanes, lane_snapshot, with_lane, with_state}
use agent_dispatch.Lanes.Groups.{GroupRow, acquire_group_slot}
use agent_dispatch.Lanes.Completion.Outcomes.{IsCoherent, apply_lane_transition-ok}
use agent_dispatch.Lanes.Activation as Activation
use agent_dispatch.Lanes.Activation.{activation_evidence, activate_row, followup_edge}

-- The lane waits for the follow-up, which holds its slot or finds it free, on an enabled route that
-- holds no lane.

abbrev pub IsWaiting : Store → Str → Type 0
IsWaiting store dispatch =
    (holds_lanes store.route.route_state ≡ false)
    × (store.route.activation_state ≡ codes "enabled")
    × (store.lane.lane_state ≡ route_followup_ready)
    × ((store.lane.active_dispatch_id ≡ dispatch) ⊎ (store.lane.active_dispatch_id ≡ []))
    × (pos 0 ≤ℤ store.lane.dirty_generation)

followup_edge-validated :
    (store : Store) (dispatch actor : Str)
    → IsWaiting store dispatch
    → dispatch ≢ []
    → let snap = lane_snapshot store in
      validate_route_transition snap
        (followup_edge snap).0
        (followup_edge snap).1
        (activation_evidence actor dispatch)
      ≡ none
followup_edge-validated store dispatch actor h k =
    (validate_route_transition_iff (lane_snapshot store) (followup_edge (lane_snapshot store)).0
        (followup_edge (lane_snapshot store)).1 (activation_evidence actor dispatch)).1
      (grind (arith, activate_followup, activate_dirty_followup))

-- On a lane that waits for it, the activation of a named follow-up that gets the slot of the lane's group, if
-- the lane belongs to one, is always applied: the lane then has the follow-up in its slot, keeps its
-- dirty generation, and is active dirty where that is positive and active clean where it is zero.
pub activate_followup-applied :
    (store : Store) (group group₁ : Option GroupRow) (destination dispatch actor : Str)
    (generation : ℤ)
    → IsWaiting store dispatch
    → dispatch ≢ []
    → acquire_group_slot group store.route.route_id destination dispatch ≡ ok group₁
    → (after : Store) × (Activation.activate_followup store group destination dispatch generation
          actor
        ≡ ok (after, group₁))
      × (after.lane.active_dispatch_id ≡ dispatch)
      × (after.lane.dirty_generation ≡ store.lane.dirty_generation)
      × IsCoherent (lane_snapshot after)
unfolding Activation.activate_followup
activate_followup-applied store group group₁ destination dispatch actor generation h k g =
    let snap = lane_snapshot store in
    let moved = with_state store.lane (followup_edge snap).0 in
    (
      with_lane store (activate_row dispatch generation moved),
      ground (
        arith,
        apply_lane_transition-ok store snap (followup_edge snap).0 (followup_edge snap).1
            (activation_evidence actor dispatch),
        followup_edge-validated store dispatch actor h k,
      ),
      refl,
      refl,
      ground arith,
    )
