-- ===== src/Lanes/Completion/Outcomes.antt =====
-- What a completion needs, where it goes and what it leaves, step by step.
use agent_dispatch.Base.{
  some, Str, str_eq_iff, str_eq_refl, true, false, ◌≡◌, ◌≢◌, ◌↔◌, ◌⊎◌, none, [], ok, err, arith,
}
use agent_dispatch.Base.Int.{ℤ, pos, ◌≤ℤ◌, ◌<ℤ◌}
use agent_dispatch.State.Route.{
  route_idle, route_active_clean, route_active_dirty, route_followup_ready, route_uncertain,
  RouteState, route_state_text, RouteReason, RouteEvidence, max_consecutive_followups,
  RouteSnapshot, later_relevant_change, validate_route_transition,
}
use agent_dispatch.State.Route.Moves.{
  dirty, chain_dirty, chain_clean, exhaust_dirty, exhaust_clean, retry_clean, retry_dirty,
  follow_up_clean, follow_up_dirty, suppress, finish_clean, RouteMove,
  validate_route_transition_iff,
}
use agent_dispatch.Lanes.Rows.{
  Store, StoreError, holds_lanes, lane_snapshot, apply_lane_transition, route_uncertain_hold,
  with_lane, with_state, hold_route,
}
use agent_dispatch.Lanes.Completion.{
  ActiveCompletion, FollowupCreated, revised, dirtying_evidence, completion_edge,
  completion_evidence, finish_completion, clear_pending, hand_over,
}
use agent_dispatch.Lanes.Intents.{dispatch_of}
use agent_dispatch.Lanes.Intents.Admitted.{Admits, generation_of, save_followup-ok}

-- An active snapshot counts dirty generations exactly when it is dirty.

abbrev pub IsCoherent : RouteSnapshot → Type 0
IsCoherent snap =
    ((snap.state ≡ route_active_clean) × (snap.dirty_generation ≡ pos 0))
    ⊎ ((snap.state ≡ route_active_dirty) × (pos 0 <ℤ snap.dirty_generation))

-- The route holds no lane, the lane is active with this dispatch, its generation is the expected one
-- where that is fenced, and the completion names a receipt and brings a follow-up that the store
-- admits.

abbrev pub IsCompletable : Store → ActiveCompletion → Type 0
IsCompletable store req =
    (holds_lanes store.route.route_state ≡ false)
    × IsCoherent (lane_snapshot store)
    × (store.lane.active_dispatch_id ≡ req.dispatch_id)
    × ((req.fence_generation ≡ false)
        ⊎ (req.expected_dirty_generation ≡ store.lane.dirty_generation))
    × (req.receipt_ref ≢ [])
    × Admits store.destination_id store.intents store.decisions req.followup_request

completion_edge-RouteMove :
    (snap : RouteSnapshot) (req : ActiveCompletion)
    → IsCoherent snap
    → snap.failure_budget ≡ req.failure_budget_remaining
    → req.receipt_ref ≢ []
    → let (to, reason) = completion_edge snap req in
      RouteMove snap (completion_evidence req) snap.state to reason
unfolding completion_edge
completion_edge-RouteMove snap req h k l = grind (
  arith, finish_clean, suppress, follow_up_dirty, follow_up_clean, retry_dirty, retry_clean,
  exhaust_clean, exhaust_dirty, chain_clean, chain_dirty,
)

-- Work that the completion leaves owed: a pending reconciliation, or, unless it was suppressed, a
-- dirty generation or the rest of a partial completion.

abbrev pub IsOwed : Store → ActiveCompletion → Type 0
IsOwed store req =
    (store.route.pending_reconcile ≡ true)
    ⊎ ((req.dirty_suppressed ≡ false)
        × ((store.lane.dirty_generation ≢ pos 0) ⊎ (req.remaining_work ≡ true)))

-- Where a completion goes, given the work that it leaves owed.

abbrev pub GoesBy : Type 0 → ActiveCompletion → FollowupCreated → Type 0
GoesBy Owed req out =
    ((out.route_to ≡ route_idle) ↔ ((req.failed ≡ false) × (Owed → ⊥)))
    × ((out.route_to ≡ route_uncertain) ↔ (
        ((req.failed ≡ true) × (req.failure_budget_remaining ≤ℤ pos 0))
        ⊎ (Owed × (max_consecutive_followups <ℤ req.followup_generation))))

-- The rows that it leaves: an idle lane holds no dispatch and owes nothing; a lane whose follow-up is
-- ready holds the follow-up and its generation, and the follow-up absorbs all that was owed; an uncertain lane keeps its
-- dispatch, and the route holds all lanes.

abbrev pub Leaves : ActiveCompletion → Store → FollowupCreated → Type 0
Leaves req after out =
    ((out.route_to ≡ route_idle)
      × (after.lane.lane_state ≡ route_idle)
      × (after.lane.active_dispatch_id ≡ [])
      × (after.lane.dirty_generation ≡ pos 0))
    ⊎ ((out.route_to ≡ route_followup_ready)
        × (after.lane.lane_state ≡ route_followup_ready)
        × (dispatch_of req.followup_request ≡ some after.lane.active_dispatch_id)
        × (generation_of req.followup_request ≡ some after.lane.active_generation)
        × (after.lane.dirty_generation ≡ pos 0)
        × (after.route.pending_reconcile ≡ false)
        × (out.followup_dispatch_id ≡ dispatch_of req.followup_request))
    ⊎ ((out.route_to ≡ route_uncertain)
        × (after.lane.lane_state ≡ route_uncertain)
        × (after.lane.active_dispatch_id ≡ req.dispatch_id)
        × (after.route.route_state ≡ route_uncertain)
        × (out.followup_dispatch_id ≡ none))

-- the snapshot on which the edge is chosen
abbrev pub budgeted : Store → ActiveCompletion → RouteSnapshot
budgeted store req =
    let snap = lane_snapshot store in
    revised snap snap.state snap.dirty_generation req.failure_budget_remaining

abbrev pub dirtied : Store → ActiveCompletion → RouteSnapshot
dirtied store req =
    revised (budgeted store req) route_active_dirty (pos 1) req.failure_budget_remaining

pub dirtying-validated :
    (snap : RouteSnapshot) (req : ActiveCompletion)
    → snap.state ≡ route_active_clean
    → snap.dirty_generation ≡ pos 0
    → validate_route_transition snap route_active_dirty later_relevant_change
        (dirtying_evidence req)
      ≡ none
dirtying-validated snap req h k =
    (validate_route_transition_iff snap route_active_dirty later_relevant_change
        (dirtying_evidence req)).1
      (grind (arith, dirty))

completion_edge-validated :
    (snap : RouteSnapshot) (req : ActiveCompletion)
    → IsCoherent snap
    → snap.failure_budget ≡ req.failure_budget_remaining
    → req.receipt_ref ≢ []
    → let (to, reason) = completion_edge snap req in
      validate_route_transition snap to reason (completion_evidence req) ≡ none
completion_edge-validated snap req h k l =
    (validate_route_transition_iff snap (completion_edge snap req).0 (completion_edge snap req).1
        (completion_evidence req)).1
      (completion_edge-RouteMove snap req h k l)

pub apply_lane_transition-ok :
    (store : Store) (snap : RouteSnapshot) (to : RouteState) (reason : RouteReason)
    (ev : RouteEvidence)
    → store.lane.lane_state ≡ snap.state
    → validate_route_transition snap to reason ev ≡ none
    → apply_lane_transition store snap to reason ev
      ≡ ok (with_lane store (with_state store.lane to))
unfolding apply_lane_transition
apply_lane_transition-ok store snap to reason ev h k =
    ground (arith, h, k, str_eq_refl (route_state_text snap.state))

route_uncertain_hold-ok :
    (store : Store) (snap : RouteSnapshot) (reason : RouteReason) (ev : RouteEvidence) (now : Str)
    → store.lane.lane_state ≡ snap.state
    → holds_lanes store.route.route_state ≡ false
    → validate_route_transition snap route_uncertain reason ev ≡ none
    → route_uncertain_hold store snap reason ev now
      ≡ ok (record store {
        route = hold_route store.route snap now;
        lane = with_state store.lane route_uncertain;
      })
unfolding route_uncertain_hold
route_uncertain_hold-ok store snap reason ev now h l k =
    ground (arith, h, k, str_eq_refl (route_state_text snap.state))

-- the store as the UPDATEs of a lane with a ready follow-up leave it
abbrev pub handed : Store → ActiveCompletion → Store
handed store req =
    let lane = with_state store.lane route_followup_ready in
    record store { route = clear_pending store.route; lane = hand_over req lane }

-- A store and a snapshot of it on which the rest of the completion runs.

abbrev pub IsPrepared : Store → RouteSnapshot → ActiveCompletion → Type 0
IsPrepared store snap req =
    (holds_lanes store.route.route_state ≡ false)
    × IsCoherent snap
    × (store.lane.lane_state ≡ snap.state)
    × (store.lane.active_dispatch_id ≡ req.dispatch_id)
    × (req.receipt_ref ≢ [])
    × Admits store.destination_id store.intents store.decisions req.followup_request
    × (snap.failure_budget ≡ req.failure_budget_remaining)
    × (snap.dirty_generation ≡ pos 0 → store.lane.dirty_generation ≡ pos 0)

slot :
    (store : Store) (req : ActiveCompletion)
    → store.lane.active_dispatch_id ≡ req.dispatch_id
    → (handed store req).lane.active_dispatch_id ≡ []
slot store req h = ground (arith, str_eq_iff store.lane.active_dispatch_id req.dispatch_id)

pub finish_completion-not_err :
    (store : Store) (snap : RouteSnapshot) (counted : ℤ) (req : ActiveCompletion) (x : StoreError)
    → IsPrepared store snap req
    → finish_completion store snap counted req ≢ err x
unfolding finish_completion
finish_completion-not_err store snap counted req x h e =
    let (to, reason) = completion_edge snap req in
    ground (
      arith,
      completion_edge-validated snap req,
      apply_lane_transition-ok store snap route_idle reason (completion_evidence req),
      apply_lane_transition-ok store snap route_followup_ready reason (completion_evidence req),
      save_followup-ok (handed store req) req.followup_request h.5 (slot store req h.3),
      route_uncertain_hold-ok store snap reason (completion_evidence req) req.now,
    )

-- The work that the recorded snapshot owes.

abbrev pub IsOwedBy : RouteSnapshot → ActiveCompletion → Type 0
IsOwedBy snap req =
    (snap.pending_reconcile ≡ true)
    ⊎ ((req.dirty_suppressed ≡ false) × (snap.dirty_generation ≢ pos 0))

pub finish_completion-edges :
    (store : Store) (snap : RouteSnapshot) (counted : ℤ) (req : ActiveCompletion) (after : Store)
    (out : FollowupCreated)
    → IsPrepared store snap req
    → finish_completion store snap counted req ≡ ok (after, out)
    → GoesBy (IsOwedBy snap req) req out
unfolding finish_completion
finish_completion-edges store snap counted req after out h e =
    let (to, reason) = completion_edge snap req in
    ground (
      arith,
      completion_edge-validated snap req,
      apply_lane_transition-ok store snap route_idle reason (completion_evidence req),
      apply_lane_transition-ok store snap route_followup_ready reason (completion_evidence req),
      save_followup-ok (handed store req) req.followup_request h.5 (slot store req h.3),
      route_uncertain_hold-ok store snap reason (completion_evidence req) req.now,
    )

pub finish_completion-rows :
    (store : Store) (snap : RouteSnapshot) (counted : ℤ) (req : ActiveCompletion) (after : Store)
    (out : FollowupCreated)
    → IsPrepared store snap req
    → finish_completion store snap counted req ≡ ok (after, out)
    → Leaves req after out
unfolding finish_completion
finish_completion-rows store snap counted req after out h e =
    let (to, reason) = completion_edge snap req in
    ground (
      arith,
      str_eq_iff store.lane.active_dispatch_id req.dispatch_id,
      completion_edge-validated snap req,
      apply_lane_transition-ok store snap route_idle reason (completion_evidence req),
      apply_lane_transition-ok store snap route_followup_ready reason (completion_evidence req),
      save_followup-ok (handed store req) req.followup_request h.5 (slot store req h.3),
      route_uncertain_hold-ok store snap reason (completion_evidence req) req.now,
    )
