-- ===== src/Lanes/Reach/Kept.antt =====
-- Activations and merges, and `IsSound`.
use agent_dispatch.Base.{
  str_eq, Bool-cases, Option-cases, Str, ◌≡◌, ◌⊎◌, inl, inr, ◌∷◌, Option, none, some, ok, err,
  arith, refl,
}
use agent_dispatch.Base.Int.{ℤ}
use agent_dispatch.State.Route.{
  route_idle, route_active_clean, route_active_dirty, route_followup_ready, RouteState, RouteReason,
  RouteEvidence, RouteSnapshot, route_state_text, followup_accepted, followup_accepted_dirty,
  dispatch_accepted, validate_route_transition,
}
use agent_dispatch.State.Route.Moves.{
  RouteMove, validate_route_transition_iff, activate, activate_followup, activate_dirty_followup,
}
use agent_dispatch.Lanes.Rows.{
  rejected, changed_concurrently, Store, StoreError, lane_snapshot, apply_lane_transition,
  with_lane, with_state,
}
use agent_dispatch.Lanes.Groups.{acquire_group_slot}
use agent_dispatch.Lanes.Intents.{IntentInput, save_intent, save_followup, decision_of}
use agent_dispatch.Lanes.Activation as Activation
use agent_dispatch.Lanes.Activation.{activate_dispatch, activation_evidence, followup_edge}
use agent_dispatch.Lanes.Reach.{IsSound}
use agent_dispatch.Lanes.Merging.{
  waits_for_group, group_free, Merge, Merged, merge_lanes, merge_reason, merge_evidence, in_state,
}
use agent_dispatch.Base.Int.{succ_ℤ}
use agent_dispatch.State.Route.{later_relevant_change}

pub apply_lane_transition-cases :
    (store : Store) (snap : RouteSnapshot) (to : RouteState) (reason : RouteReason)
    (ev : RouteEvidence)
    → ((validate_route_transition snap to reason ev ≡ none)
        × (apply_lane_transition store snap to reason ev
            ≡ ok (with_lane store (with_state store.lane to))))
      ⊎ ((e : StoreError) × (apply_lane_transition store snap to reason ev ≡ err e))
unfolding apply_lane_transition
apply_lane_transition-cases store snap to reason ev =
    elim (Option-cases (validate_route_transition snap to reason ev)) [
      | inr (e, v) ↦ inr (rejected e, ground (arith, v))
      | inl v ↦
          elim (Bool-cases
            (str_eq (route_state_text store.lane.lane_state) (route_state_text snap.state))) [
              | inl b ↦ inl (v, ground (arith, v, b))
              | inr b ↦ inr (changed_concurrently, ground (arith, v, b))
            ]
    ]

from_idle :
    {snap : RouteSnapshot} {ev : RouteEvidence} {from : RouteState}
    → RouteMove snap ev from route_active_clean dispatch_accepted
    → from ≡ route_idle
from_idle (activate h) = refl

activating_from_idle :
    (snap : RouteSnapshot) (ev : RouteEvidence)
    → validate_route_transition snap route_active_clean dispatch_accepted ev ≡ none
    → snap.state ≡ route_idle
activating_from_idle snap ev h =
    from_idle ((validate_route_transition_iff snap route_active_clean dispatch_accepted ev).0 h)

from_ready :
    {snap : RouteSnapshot} {ev : RouteEvidence} {from to : RouteState} {reason : RouteReason}
    → RouteMove snap ev from to reason
    → (reason ≡ followup_accepted) ⊎ (reason ≡ followup_accepted_dirty)
    → from ≡ route_followup_ready
from_ready (activate_followup h) k = refl
from_ready (activate_dirty_followup h l) k = refl
from_ready _ k = ground arith

followup_edge_reason :
    (snap : RouteSnapshot)
    → ((followup_edge snap).1 ≡ followup_accepted)
      ⊎ ((followup_edge snap).1 ≡ followup_accepted_dirty)
followup_edge_reason snap = ground arith

activating_from_ready :
    (snap : RouteSnapshot) (ev : RouteEvidence)
    → validate_route_transition snap (followup_edge snap).0 (followup_edge snap).1 ev ≡ none
    → snap.state ≡ route_followup_ready
activating_from_ready snap ev h =
    from_ready
      ((validate_route_transition_iff snap (followup_edge snap).0 (followup_edge snap).1 ev).0 h)
      (followup_edge_reason snap)

save_intent-keeps :
    (s t : Store) (i : IntentInput)
    → save_intent s i ≡ ok t
    → (t.route ≡ s.route)
      × (t.lane.lane_state ≡ s.lane.lane_state)
      × (t.lane.dirty_generation ≡ s.lane.dirty_generation)
unfolding save_intent
save_intent-keeps s t i e = ground arith

pub save_intent-IsSound :
    (s t : Store) (i : IntentInput) → IsSound s → save_intent s i ≡ ok t → IsSound t
save_intent-IsSound s t i h e = ground (arith, save_intent-keeps s t i e)

pub save_followup-IsSound :
    (s t : Store) (request : Option IntentInput)
    → IsSound s
    → save_followup s request ≡ ok t
    → IsSound t
unfolding save_followup
save_followup-IsSound s t none h e = ground (arith, h, e)
save_followup-IsSound s t (some i) h e =
    let s₁ = record s { decisions = decision_of i ∷ s.decisions } in
    save_intent-IsSound s₁ t i h (ground arith)

pub activate_dispatch-IsSound :
    (s t : Store) (destination dispatch actor : Str)
    → IsSound s
    → activate_dispatch s none destination dispatch actor ≡ ok (t, none)
    → IsSound t
unfolding activate_dispatch acquire_group_slot
activate_dispatch-IsSound s t destination dispatch actor h e = ground (
  arith,
  apply_lane_transition-cases s (lane_snapshot s) route_active_clean dispatch_accepted
      (activation_evidence actor dispatch),
  activating_from_idle (lane_snapshot s) (activation_evidence actor dispatch),
)

pub activate_followup-IsSound :
    (s t : Store) (destination dispatch actor : Str) (generation : ℤ)
    → IsSound s
    → Activation.activate_followup s none destination dispatch generation actor ≡ ok (t, none)
    → IsSound t
unfolding Activation.activate_followup acquire_group_slot
activate_followup-IsSound s t destination dispatch actor generation h e = ground (
  arith,
  apply_lane_transition-cases s (lane_snapshot s) (followup_edge (lane_snapshot s)).0
      (followup_edge (lane_snapshot s)).1 (activation_evidence actor dispatch),
  activating_from_ready (lane_snapshot s) (activation_evidence actor dispatch),
)

pub merge_lanes-IsSound :
    (s t : Store) (m : Merge) (counts : Merged)
    → IsSound s
    → merge_lanes s none m ≡ ok (t, none, counts)
    → IsSound t
unfolding merge_lanes acquire_group_slot waits_for_group group_free
merge_lanes-IsSound s t m counts h e =
    let snap = lane_snapshot s in
    ground (
      arith,
      apply_lane_transition-cases s snap route_active_clean dispatch_accepted
          (activation_evidence m.actor s.lane.active_dispatch_id),
      apply_lane_transition-cases s snap route_active_dirty (merge_reason snap.state)
          (merge_evidence m.actor (succ_ℤ s.lane.dirty_generation)),
      apply_lane_transition-cases (with_lane s (with_state s.lane route_active_clean))
          (in_state snap route_active_clean) route_active_dirty later_relevant_change
          (merge_evidence m.actor (succ_ℤ s.lane.dirty_generation)),
    )
