-- ===== src/Tests/Merges.antt =====
-- A lane between bursts.
use agent_dispatch.Base.{
  ℕ, Str, codes, false, ◌≡◌, ◌≢◌, refl, inr, none, some, [], ◌∷◌, ok, arith, str_eq,
}
use agent_dispatch.Base.Int.{pos}
use agent_dispatch.State.Route.{
  RouteReason-discrete, route_idle, route_active_dirty, route_active_clean, route_followup_ready,
  validate_route_transition,
}
use agent_dispatch.Lanes.Rows.{lane_snapshot, Store, LaneRow, apply_lane_transition}
use agent_dispatch.Lanes.Groups.{GroupRow, group_held, acquire_group_slot, taken_by}
use agent_dispatch.Lanes.Activation.{activate_dispatch, activate_followup}
use agent_dispatch.Lanes.Completion.{
  ActiveCompletion, FollowupCreated, complete_active, completion_refusal, record_remaining,
  finish_completion,
}
use agent_dispatch.Lanes.Intents.{IntentInput, key_of, save_intent, save_followup}
use agent_dispatch.Lanes.Intents.Admitted.{Admits}
use agent_dispatch.Lanes.Completion.Outcomes.{IsCoherent, IsOwed, GoesBy, Leaves}
use agent_dispatch.Lanes.Merging.{
  Merge, Merged, merge_lanes, merge_lane, skips, consume_reservation, mark_dirty,
}
use agent_dispatch.Lanes.Merging.Refusals.{reserved_burst-wedges}
use agent_dispatch.Lanes.Reach.{
  Reach, start, later, reserving, activating, merging, completing, IsSound,
}
use agent_dispatch.Lanes.Reach.Reached.{
  Reach-IsSound, ready_followup-activates, active_lane-completes,
}

abbrev fresh : Store
fresh = record {
  route = record {
    route_id = codes "notes";
    activation_state = codes "enabled";
    acknowledged_revision = [];
    capability_fingerprint = [];
    route_state = route_idle;
    active_dispatch_id = [];
    dirty_generation = pos 0;
    dirty_since = none;
    pending_reconcile = false;
  };
  destination_id = codes "main";
  lane = record {
    lane_state = route_idle;
    active_dispatch_id = [];
    active_generation = pos 0;
    dirty_generation = pos 0;
    dirty_since = none;
  };
  siblings = [];
  intents = [];
  decisions = [];
}

abbrev in_lane : LaneRow → Store
in_lane lane = record fresh { lane = lane }

abbrev reserved : Store
reserved = in_lane (record fresh.lane { active_dispatch_id = codes "d-1" })

abbrev held : GroupRow
held = record {
  state = group_held;
  holder_route_id = codes "notes";
  holder_destination_id = codes "other";
  holder_dispatch_id = codes "d-0";
}

-- the slot as a release reserves it for the lane
abbrev granted : GroupRow
granted = record {
  state = group_held;
  holder_route_id = codes "notes";
  holder_destination_id = codes "main";
  holder_dispatch_id = [];
}

abbrev burst : Merge
burst = record {
  destination = codes "main";
  actor = codes "agent";
  now = codes "2026-01-01T00:00:00Z";
}

abbrev intent_of : Str → Str → ℕ → IntentInput
intent_of dispatch key generation = record {
  dispatch_id = dispatch;
  generation = pos generation;
  target_id = codes "kanban";
  idempotency_key = key;
  destination_id = codes "main";
  fanout_refusal = none;
}

abbrev followup : IntentInput
followup = intent_of (codes "d-2") (codes "key-2") 2

abbrev ending : ActiveCompletion
ending = record {
  dispatch_id = codes "d-1";
  failed = false;
  failure_budget_remaining = pos 3;
  receipt_ref = codes "receipt-1";
  actor = codes "agent";
  followup_request = some followup;
  followup_generation = pos 1;
  dirty_suppressed = false;
  fence_generation = false;
  expected_dirty_generation = pos 0;
  remaining_work = false;
  now = codes "2026-01-01T01:00:00Z";
}

abbrev no_followup : FollowupCreated
no_followup = record {
  route_to = route_idle;
  dirty_generation = pos 0;
  followup_dispatch_id = none;
}

some_dispatch : codes "d-1" ≢ []
some_dispatch h = cc

elsewhere : codes "other" ≢ codes "main"
elsewhere h = cc

reserved_burst-wedges_example :
    (s₁ : Store) × (counts : Merged) × (s₂ : Store) × (merge_lanes reserved (some held) burst
      ≡ ok (s₁, some held, counts))
    × (s₁.lane.lane_state ≡ route_idle)
    × (s₁.lane.dirty_generation ≡ pos 1)
    × (activate_dispatch s₁ (some granted) burst.destination (codes "d-1") burst.actor
        ≡ ok (s₂, some (taken_by (codes "notes") (codes "main") (codes "d-1"))))
    × (s₂.lane.lane_state ≡ route_active_clean)
    × (complete_active s₂ ending ≢ ok (fresh, no_followup))
unfolding acquire_group_slot str_eq
reserved_burst-wedges_example =
    reserved_burst-wedges reserved held (some granted)
      (some (taken_by (codes "notes") (codes "main") (codes "d-1"))) burst (codes "d-1") ending
      fresh no_followup (refl, refl, refl, refl, some_dispatch, refl, refl) (refl, inr elsewhere)
      refl (refl, refl, omega arith)

abbrev first : IntentInput
first = intent_of (codes "d-1") (codes "key-1") 1

abbrev at_work : LaneRow → Store
at_work lane = record (in_lane lane) { intents = key_of first ∷ [] }

abbrev after_reservation : Store
after_reservation =
    at_work (record fresh.lane { active_dispatch_id = codes "d-1"; active_generation = pos 1 })

reservation_done : save_intent fresh first ≡ ok after_reservation
unfolding save_intent
reservation_done = refl

abbrev after_activation : Store
after_activation = at_work (record after_reservation.lane { lane_state = route_active_clean })

activation_done :
    activate_dispatch after_reservation none (codes "main") (codes "d-1") (codes "agent")
    ≡ ok (after_activation, none)
unfolding activate_dispatch acquire_group_slot apply_lane_transition validate_route_transition
    RouteReason-discrete str_eq
activation_done = refl

abbrev after_burst : Store
after_burst = at_work (record after_reservation.lane {
  lane_state = route_active_dirty;
  dirty_generation = pos 1;
  dirty_since = some burst.now;
})

burst_counted :
    merge_lanes after_activation none burst
    ≡ ok (after_burst, none, record { max_dirty = pos 1; idle_empty = false })
unfolding merge_lanes merge_lane skips consume_reservation mark_dirty acquire_group_slot
    apply_lane_transition validate_route_transition RouteReason-discrete str_eq
burst_counted = refl

after_burst-Reach : Reach after_burst
after_burst-Reach =
    later
      (later (later (start (refl, refl, refl, refl)) (reserving first reservation_done))
        (activating (codes "main") (codes "d-1") (codes "agent") activation_done))
      (merging burst (record { max_dirty = pos 1; idle_empty = false }) burst_counted)

Reach-IsSound_example : IsSound after_burst
Reach-IsSound_example = Reach-IsSound after_burst-Reach

receipt_named : ending.receipt_ref ≢ []
receipt_named h = cc

followup_admitted :
    Admits after_burst.destination_id after_burst.intents after_burst.decisions
      ending.followup_request
unfolding str_eq
followup_admitted = record {
  followup = followup;
  prepared = refl;
  own_lane = refl;
  numbered = omega arith;
  undecided = refl;
  unrecorded = refl;
  sound_fanout = refl;
}

active_lane-completes_example :
    (after : Store) × (out : FollowupCreated) × (complete_active after_burst ending
      ≡ ok (after, out))
    × GoesBy (IsOwed after_burst ending) ending out
    × Leaves ending after out
active_lane-completes_example =
    active_lane-completes ending after_burst-Reach (inr refl) refl refl receipt_named
      followup_admitted

-- The completion leaves the follow-up in the lane's slot.
abbrev after_completion : Store
after_completion = record after_burst {
  lane = record after_burst.lane {
    lane_state = route_followup_ready;
    active_dispatch_id = codes "d-2";
    active_generation = pos 2;
    dirty_generation = pos 0;
  };
  intents = key_of followup ∷ key_of first ∷ [];
  decisions = codes "dec-d-2" ∷ [];
}

completion_done :
    complete_active after_burst ending
    ≡ ok (
      after_completion,
      record {
        route_to = route_followup_ready;
        dirty_generation = pos 1;
        followup_dispatch_id = some (codes "d-2");
      },
    )
unfolding complete_active completion_refusal record_remaining finish_completion save_followup
    save_intent apply_lane_transition validate_route_transition RouteReason-discrete str_eq
completion_done = refl

after_completion-Reach : Reach after_completion
after_completion-Reach = later after_burst-Reach (completing ending _ completion_done)

second_named : after_completion.lane.active_dispatch_id ≢ []
second_named h = cc

ready_followup-activates_example :
    (after : Store) × (activate_followup after_completion none
        (codes "main")
        (codes "d-2")
        (pos 2)
        (codes "agent")
      ≡ ok (after, none))
    × (after.lane.active_dispatch_id ≡ codes "d-2")
    × (after.lane.dirty_generation ≡ pos 0)
    × IsCoherent (lane_snapshot after)
ready_followup-activates_example =
    ready_followup-activates (codes "main") (codes "agent") (pos 2) after_completion-Reach refl
      second_named refl
