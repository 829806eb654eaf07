-- ===== src/Tests/Lanes.antt =====
-- One lane and its route.
use agent_dispatch.Base.{
  codes, true, false, ◌≡◌, ◌≢◌, refl, inl, inr, none, some, List, [], ◌∷◌, ok, str_eq, arith,
}
use agent_dispatch.Base.Int.{pos}
use agent_dispatch.State.Route.{route_idle, route_active_dirty}
use agent_dispatch.Lanes.Rows.{Store}
use agent_dispatch.Lanes.Intents.{IntentInput}
use agent_dispatch.Base.{◌↔◌}
use agent_dispatch.State.Route.{route_followup_ready}
use agent_dispatch.Lanes.Groups.{GroupRow, group_open, group_held, acquire_group_slot, taken_by}
use agent_dispatch.Lanes.Groups.Exclusion.{Grants, acquire_group_slot_iff}
use agent_dispatch.Lanes.Rows.{lane_snapshot}
use agent_dispatch.Lanes.Activation.{activate_followup}
use agent_dispatch.Lanes.Activation.Activated.{IsWaiting, activate_followup-applied}
use agent_dispatch.Lanes.Intents.Admitted.{Admits}
use agent_dispatch.Lanes.Completion.Outcomes.{IsCoherent}
use agent_dispatch.Lanes.Completion.{ActiveCompletion, FollowupCreated}
use agent_dispatch.Lanes.Completion.Outcomes.{IsCompletable, IsOwed, GoesBy, Leaves}
use agent_dispatch.Lanes.Promotion.{Member}
use agent_dispatch.Lanes.Handover.{complete_active_tx}
use agent_dispatch.Lanes.Handover.Passed.{HandsOver, complete_active_tx-applied}

-- A burst arrived while dispatch `d-1` was at work.
abbrev busy : Store
busy = record {
  route = record {
    route_id = codes "notes";
    activation_state = codes "enabled";
    acknowledged_revision = [];
    capability_fingerprint = [];
    route_state = route_idle;
    active_dispatch_id = [];
    dirty_generation = pos 0;
    dirty_since = none;
    pending_reconcile = false;
  };
  destination_id = codes "main";
  lane = record {
    lane_state = route_active_dirty;
    active_dispatch_id = codes "d-1";
    active_generation = pos 1;
    dirty_generation = pos 2;
    dirty_since = none;
  };
  siblings = [];
  intents =
      record {
        dispatch_id = codes "d-1";
        target_id = codes "kanban";
        idempotency_key = codes "key-1";
      }
      ∷ [];
  decisions = [];
}

abbrev followup : IntentInput
followup = record {
  dispatch_id = codes "d-2";
  generation = pos 2;
  target_id = codes "kanban";
  idempotency_key = codes "key-2";
  destination_id = codes "main";
  fanout_refusal = none;
}

abbrev completion : ActiveCompletion
completion = record {
  dispatch_id = codes "d-1";
  failed = false;
  failure_budget_remaining = pos 3;
  receipt_ref = codes "receipt-1";
  actor = codes "agent";
  followup_request = some followup;
  followup_generation = pos 2;
  dirty_suppressed = false;
  fence_generation = true;
  expected_dirty_generation = pos 2;
  remaining_work = false;
  now = codes "2026-01-01T00:00:00Z";
}

receipt_named : completion.receipt_ref ≢ []
receipt_named h = cc

followup_admitted :
    Admits busy.destination_id busy.intents busy.decisions completion.followup_request
unfolding str_eq
followup_admitted = record {
  followup = followup;
  prepared = refl;
  own_lane = refl;
  numbered = omega arith;
  undecided = refl;
  unrecorded = refl;
  sound_fanout = refl;
}

busy-IsCompletable : IsCompletable busy completion
busy-IsCompletable =
    (refl, inr (refl, omega arith), refl, inr refl, receipt_named, followup_admitted)

-- The dispatch holds the group, and another lane waits for it.
abbrev held_group : GroupRow
held_group = taken_by (codes "notes") (codes "main") (codes "d-1")

abbrev others : List Member
others =
    record {
      route_id = codes "notes";
      destination_id = codes "other";
      lane = record busy.lane { dirty_since = some (codes "2026-01-01") };
      intent = none;
    }
    ∷ []

complete_active_tx-applied_example :
    (after : Store) × (left : GroupRow) × (out : FollowupCreated) × (complete_active_tx busy
        (some held_group)
        others
        completion
      ≡ ok (after, some left, out))
    × GoesBy (IsOwed busy completion) completion out
    × Leaves completion after out
    × HandsOver busy held_group others out left
complete_active_tx-applied_example =
    complete_active_tx-applied busy held_group others completion busy-IsCompletable refl refl

-- The lane's group is open.
abbrev group : GroupRow
group = record {
  state = group_open;
  holder_route_id = [];
  holder_destination_id = [];
  holder_dispatch_id = [];
}

acquire_group_slot_iff_example :
    ((after : GroupRow) × (acquire_group_slot
          (some group)
          (codes "notes")
          (codes "main")
          (codes "d-2")
        ≡ ok (some after))
      × (after.state ≡ group_held)
      × (after.holder_dispatch_id ≡ codes "d-2"))
    ↔ Grants group (codes "notes") (codes "main") (codes "d-2")
acquire_group_slot_iff_example =
    acquire_group_slot_iff group (codes "notes") (codes "main") (codes "d-2")

-- A burst arrived while the follow-up `d-2` was waiting in its slot.
abbrev waiting : Store
waiting = record busy {
  lane = record {
    lane_state = route_followup_ready;
    active_dispatch_id = codes "d-2";
    active_generation = pos 2;
    dirty_generation = pos 1;
    dirty_since = none;
  };
}

waiting-IsWaiting : IsWaiting waiting (codes "d-2")
waiting-IsWaiting = (refl, refl, refl, inl refl, omega arith)

followup_named : codes "d-2" ≢ []
followup_named h = cc

activate_followup-applied_example :
    (after : Store) × (activate_followup waiting
        (some group)
        (codes "main")
        (codes "d-2")
        (pos 2)
        (codes "agent")
      ≡ ok (after, some (taken_by (codes "notes") (codes "main") (codes "d-2"))))
    × (after.lane.active_dispatch_id ≡ codes "d-2")
    × (after.lane.dirty_generation ≡ pos 1)
    × IsCoherent (lane_snapshot after)
unfolding acquire_group_slot
activate_followup-applied_example =
    activate_followup-applied waiting (some group)
      (some (taken_by (codes "notes") (codes "main") (codes "d-2"))) (codes "main") (codes "d-2")
      (codes "agent") (pos 2) waiting-IsWaiting followup_named refl
