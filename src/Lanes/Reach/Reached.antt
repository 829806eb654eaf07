-- ===== src/Lanes/Reach/Reached.antt =====
-- The lanes that the transactions bring about.
use agent_dispatch.Base.{◌≡◌, ◌≢◌, ◌⊎◌, inl, none, Str, codes, refl, [], ok, false, arith}
use agent_dispatch.State.Route.{route_active_clean, route_active_dirty, route_followup_ready}
use agent_dispatch.Lanes.Rows.{Store, holds_lanes, lane_snapshot}
use agent_dispatch.Lanes.Completion.{ActiveCompletion, FollowupCreated, complete_active}
use agent_dispatch.Lanes.Intents.Admitted.{Admits}
use agent_dispatch.Lanes.Completion.Outcomes.{IsCoherent, IsOwed, GoesBy, Leaves}
use agent_dispatch.Lanes.Completion.Completed.{complete_active-applied}
use agent_dispatch.Lanes.Groups.{acquire_group_slot}
use agent_dispatch.Lanes.Activation.{activate_followup}
use agent_dispatch.Lanes.Activation.Activated.{IsWaiting, activate_followup-applied}
use agent_dispatch.Base.Int.{ℤ}
use agent_dispatch.Lanes.Reach.{
  Step, reserving, activating, activating_followup, merging, completing, Reach, start, later,
  IsSound,
}
use agent_dispatch.Lanes.Reach.Kept.{
  save_intent-IsSound, activate_dispatch-IsSound, activate_followup-IsSound, merge_lanes-IsSound,
}
use agent_dispatch.Lanes.Reach.Completed.{complete_active-IsSound}

Step-IsSound : {s t : Store} → IsSound s → Step s t → IsSound t
Step-IsSound {s} {t} h (reserving i e) = save_intent-IsSound s t i h e
Step-IsSound {s} {t} h (activating destination dispatch actor e) =
    activate_dispatch-IsSound s t destination dispatch actor h e
Step-IsSound {s} {t} h (activating_followup destination dispatch actor generation e) =
    activate_followup-IsSound s t destination dispatch actor generation h e
Step-IsSound {s} {t} h (merging m counts e) = merge_lanes-IsSound s t m counts h e
Step-IsSound {s} {t} h (completing req out e) = complete_active-IsSound s t req out h e

-- A lane without a serialization group, the only one of its route at work, that reservations by new
-- intents, activations, merges and completions bring about from a fresh one, is sound: it counts
-- no dirty generation while it is idle or active clean, counts one while it is active dirty, never
-- counts below zero, and is uncertain while its route holds it.
pub Reach-IsSound : {s : Store} → Reach s → IsSound s
Reach-IsSound {s} (start h) = ground arith
Reach-IsSound (later r step) = Step-IsSound (Reach-IsSound r) step

ready-IsWaiting :
    (s : Store)
    → IsSound s
    → s.lane.lane_state ≡ route_followup_ready
    → s.route.activation_state ≡ codes "enabled"
    → IsWaiting s s.lane.active_dispatch_id
ready-IsWaiting s h k e = ground arith

-- A lane without a serialization group, the only one of its route at work, that reservations by new
-- intents, activations, merges and completions bring about from a fresh one, never gets stuck behind a
-- ready follow-up: while the follow-up holds its slot and its route is enabled, the activation of the
-- follow-up is applied, keeps it in the slot and keeps the dirty generation, and leaves the lane
-- active dirty where that is positive and active clean where it is zero.
pub ready_followup-activates :
    {s : Store} (destination actor : Str) (generation : ℤ)
    → Reach s
    → s.lane.lane_state ≡ route_followup_ready
    → s.lane.active_dispatch_id ≢ []
    → s.route.activation_state ≡ codes "enabled"
    → (after : Store) × (activate_followup s none destination s.lane.active_dispatch_id generation
          actor
        ≡ ok (after, none))
      × (after.lane.active_dispatch_id ≡ s.lane.active_dispatch_id)
      × (after.lane.dirty_generation ≡ s.lane.dirty_generation)
      × IsCoherent (lane_snapshot after)
unfolding acquire_group_slot
ready_followup-activates {s} destination actor generation r k named e =
    activate_followup-applied s none none destination s.lane.active_dispatch_id actor generation
      (ready-IsWaiting s (Reach-IsSound r) k e) named refl

sound-IsCoherent :
    (s : Store)
    → IsSound s
    → (s.lane.lane_state ≡ route_active_clean) ⊎ (s.lane.lane_state ≡ route_active_dirty)
    → (holds_lanes s.route.route_state ≡ false) × IsCoherent (lane_snapshot s)
sound-IsCoherent s h k = ground arith

-- A lane without a serialization group, the only one of its route at work, that reservations by new
-- intents, activations, merges and completions bring about from a fresh one, never gets stuck at
-- work: while it is active clean or active dirty, a completion of the dispatch in its slot that is not
-- fenced, names a receipt and brings a follow-up that the store admits is applied, with the outcome
-- that `GoesBy` and `Leaves` describe.
pub active_lane-completes :
    {s : Store} (req : ActiveCompletion)
    → Reach s
    → (s.lane.lane_state ≡ route_active_clean) ⊎ (s.lane.lane_state ≡ route_active_dirty)
    → s.lane.active_dispatch_id ≡ req.dispatch_id
    → req.fence_generation ≡ false
    → req.receipt_ref ≢ []
    → Admits s.destination_id s.intents s.decisions req.followup_request
    → (after : Store) × (out : FollowupCreated) × (complete_active s req ≡ ok (after, out))
      × GoesBy (IsOwed s req) req out
      × Leaves req after out
active_lane-completes {s} req r k slot fence receipt followup =
    let (held, coherent) = sound-IsCoherent s (Reach-IsSound r) k in
    complete_active-applied s req (held, coherent, slot, inl fence, receipt, followup)
