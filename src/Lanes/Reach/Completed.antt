-- ===== src/Lanes/Reach/Completed.antt =====
-- The completion of a lane, and `IsSound`.
use agent_dispatch.Base.{
  Str, str_eq_iff, true, false, ◌≡◌, ◌⊎◌, inl, inr, none, ok, err, arith, Result-cases, ◌∙◌, sym,
  subst,
}
use agent_dispatch.Base.Int.{ℤ, pos, ◌≤ℤ◌}
use agent_dispatch.State.Route.{
  route_idle, route_active_clean, route_active_dirty, route_followup_ready, route_uncertain,
  RouteState, RouteReason, RouteEvidence, RouteSnapshot, later_relevant_change,
}
use agent_dispatch.Lanes.Rows.{
  Store, StoreError, holds_lanes, route_uncertain_hold, with_state, hold_route,
}
use agent_dispatch.Lanes.Completion.{
  ActiveCompletion, FollowupCreated, dirtying_evidence, completion_edge, completion_evidence,
  completion_refusal, record_remaining, write_completion, finish_completion, complete_active,
}
use agent_dispatch.Lanes.Intents.{save_followup}
use agent_dispatch.Lanes.Completion.Outcomes.{budgeted, handed}
use agent_dispatch.Lanes.Reach.{IsSound}
use agent_dispatch.Lanes.Reach.Kept.{apply_lane_transition-cases, save_followup-IsSound}

route_uncertain_hold-cases :
    (store : Store) (snap : RouteSnapshot) (reason : RouteReason) (ev : RouteEvidence) (now : Str)
    → (route_uncertain_hold store snap reason ev now
        ≡ ok (record store {
          route = hold_route store.route snap now;
          lane = with_state store.lane route_uncertain;
        }))
      ⊎ ((e : StoreError) × (route_uncertain_hold store snap reason ev now ≡ err e))
unfolding route_uncertain_hold
route_uncertain_hold-cases store snap reason ev now =
    elim (Result-cases (route_uncertain_hold store snap reason ev now)) [
      | inr (e, h) ↦ inr (e, h)
      | inl (t, h) ↦
          inl (
            h ∙ ground (arith, h, apply_lane_transition-cases store snap route_uncertain reason ev))
    ]

write_idle-IsSound :
    (s t : Store) (snap : RouteSnapshot) (counted : ℤ) (req : ActiveCompletion)
    (out : FollowupCreated) (reason : RouteReason)
    → holds_lanes s.route.route_state ≡ false
    → s.lane.active_dispatch_id ≡ req.dispatch_id
    → (req.dirty_suppressed ≡ true) ⊎ (s.lane.dirty_generation ≡ pos 0)
    → write_completion s snap counted req route_idle reason ≡ ok (t, out)
    → IsSound t
unfolding write_completion
write_idle-IsSound s t snap counted req out reason held slot clean e = ground (
  arith,
  str_eq_iff s.lane.active_dispatch_id req.dispatch_id,
  apply_lane_transition-cases s snap route_idle reason (completion_evidence req),
)

handed-IsSound :
    (s : Store) (req : ActiveCompletion)
    → holds_lanes s.route.route_state ≡ false
    → s.lane.active_dispatch_id ≡ req.dispatch_id
    → IsSound (handed s req)
handed-IsSound s req held slot =
    ground (arith, str_eq_iff s.lane.active_dispatch_id req.dispatch_id)

write_ready-saves :
    (s t : Store) (snap : RouteSnapshot) (counted : ℤ) (req : ActiveCompletion)
    (out : FollowupCreated) (reason : RouteReason)
    → write_completion s snap counted req route_followup_ready reason ≡ ok (t, out)
    → save_followup (handed s req) req.followup_request ≡ ok t
unfolding write_completion
write_ready-saves s t snap counted req out reason e = ground (
  arith,
  apply_lane_transition-cases s snap route_followup_ready reason (completion_evidence req),
)

write_ready-IsSound :
    (s t : Store) (snap : RouteSnapshot) (counted : ℤ) (req : ActiveCompletion)
    (out : FollowupCreated) (reason : RouteReason)
    → holds_lanes s.route.route_state ≡ false
    → s.lane.active_dispatch_id ≡ req.dispatch_id
    → write_completion s snap counted req route_followup_ready reason ≡ ok (t, out)
    → IsSound t
write_ready-IsSound s t snap counted req out reason held slot e =
    save_followup-IsSound (handed s req) t req.followup_request (handed-IsSound s req held slot)
      (write_ready-saves s t snap counted req out reason e)

write_uncertain-IsSound :
    (s t : Store) (snap : RouteSnapshot) (counted : ℤ) (req : ActiveCompletion)
    (out : FollowupCreated) (reason : RouteReason)
    → pos 0 ≤ℤ s.lane.dirty_generation
    → write_completion s snap counted req route_uncertain reason ≡ ok (t, out)
    → IsSound t
unfolding write_completion
write_uncertain-IsSound s t snap counted req out reason low e =
    ground (arith, route_uncertain_hold-cases s snap reason (completion_evidence req) req.now)

completion_edge-cases :
    (snap : RouteSnapshot) (req : ActiveCompletion)
    → (((completion_edge snap req).0 ≡ route_idle)
        × ((req.dirty_suppressed ≡ true) ⊎ (snap.dirty_generation ≤ℤ pos 0)))
      ⊎ ((completion_edge snap req).0 ≡ route_followup_ready)
      ⊎ ((completion_edge snap req).0 ≡ route_uncertain)
unfolding completion_edge
completion_edge-cases snap req = ground arith

finish_completion-write :
    (s : Store) (snap : RouteSnapshot) (counted : ℤ) (req : ActiveCompletion)
    (p : Store × FollowupCreated)
    → finish_completion s snap counted req ≡ ok p
    → write_completion s snap counted req (completion_edge snap req).0 (completion_edge snap req).1
      ≡ ok p
unfolding finish_completion
finish_completion-write s snap counted req p e = ground arith

finish_completion-IsSound :
    (s t : Store) (snap : RouteSnapshot) (counted : ℤ) (req : ActiveCompletion)
    (out : FollowupCreated)
    → holds_lanes s.route.route_state ≡ false
    → s.lane.active_dispatch_id ≡ req.dispatch_id
    → pos 0 ≤ℤ s.lane.dirty_generation
    → (snap.dirty_generation ≤ℤ pos 0 → s.lane.dirty_generation ≡ pos 0)
    → finish_completion s snap counted req ≡ ok (t, out)
    → IsSound t
finish_completion-IsSound s t snap counted req out held slot low clean e =
    let reason = (completion_edge snap req).1 in
    let w = finish_completion-write s snap counted req (t, out) e in
    let at : (to : RouteState)
        → (completion_edge snap req).0 ≡ to
        → write_completion s snap counted req to reason ≡ ok (t, out) =
      λ to k. subst (λ x. write_completion s snap counted req x reason ≡ ok (t, out)) k w in
    elim (completion_edge-cases snap req) [
      | inl (k, inl suppressed) ↦
          write_idle-IsSound s t snap counted req out reason held slot (inl suppressed)
            (at route_idle k)
      | inl (k, inr low₁) ↦
          write_idle-IsSound s t snap counted req out reason held slot (inr (clean low₁))
            (at route_idle k)
      | inr (inl k) ↦
          write_ready-IsSound s t snap counted req out reason held slot (at route_followup_ready k)
      | inr (inr k) ↦
          write_uncertain-IsSound s t snap counted req out reason low (at route_uncertain k)
    ]

record_remaining-cases :
    (s s₁ : Store) (snap snap₁ : RouteSnapshot) (req : ActiveCompletion)
    → record_remaining s snap req ≡ ok (s₁, snap₁)
    → (s₁.route ≡ s.route)
      × (s₁.lane.active_dispatch_id ≡ s.lane.active_dispatch_id)
      × (s₁.lane.dirty_generation ≡ s.lane.dirty_generation)
      × ((snap₁.dirty_generation ≡ snap.dirty_generation) ⊎ (snap₁.dirty_generation ≡ pos 1))
unfolding record_remaining
record_remaining-cases s s₁ snap snap₁ req h = ground (
  arith,
  apply_lane_transition-cases s snap route_active_dirty later_relevant_change
      (dirtying_evidence req),
)

completion_refusal-none :
    (s : Store) (req : ActiveCompletion)
    → IsSound s
    → completion_refusal (budgeted s req) req ≡ none
    → (holds_lanes s.route.route_state ≡ false)
      × (s.lane.active_dispatch_id ≡ req.dispatch_id)
      × ((s.lane.lane_state ≡ route_active_clean) ⊎ (s.lane.lane_state ≡ route_active_dirty))
unfolding completion_refusal
completion_refusal-none s req h e = ground (
  arith,
  str_eq_iff s.lane.active_dispatch_id req.dispatch_id,
  str_eq_iff s.route.active_dispatch_id req.dispatch_id,
)

complete_active-parts :
    (s t : Store) (req : ActiveCompletion) (out : FollowupCreated)
    → complete_active s req ≡ ok (t, out)
    → (completion_refusal (budgeted s req) req ≡ none)
      × (s₁ : Store) × (snap₁ : RouteSnapshot) × (record_remaining s (budgeted s req) req
          ≡ ok (s₁, snap₁))
      × (finish_completion s₁ snap₁ (budgeted s req).dirty_generation req ≡ ok (t, out))
unfolding complete_active
complete_active-parts s t req out h =
    elim (Result-cases (record_remaining s (budgeted s req) req)) [
      | inl ((s₁, snap₁), e) ↦ (ground (arith, h), s₁, snap₁, e, ground (arith, h, e))
      | inr (x, e) ↦ absurd (ground (arith, h, e))
    ]

-- the same arithmetic on the counts alone
stays_clean :
    (before after lane : ℤ)
    → pos 0 ≤ℤ before
    → (after ≡ before) ⊎ (after ≡ pos 1)
    → lane ≡ before
    → after ≤ℤ pos 0
    → lane ≡ pos 0
stays_clean before after lane low k same h = ground arith

own_dirty :
    (s : Store) (req : ActiveCompletion)
    → holds_lanes s.route.route_state ≡ false
    → (budgeted s req).dirty_generation ≡ s.lane.dirty_generation
own_dirty s req held = ground arith

IsSound-counts : (s : Store) → IsSound s → pos 0 ≤ℤ s.lane.dirty_generation
IsSound-counts s h = ground arith

pub complete_active-IsSound :
    (s t : Store) (req : ActiveCompletion) (out : FollowupCreated)
    → IsSound s
    → complete_active s req ≡ ok (t, out)
    → IsSound t
complete_active-IsSound s t req out h e =
    let (admitted, s₁, snap₁, recorded, finished) = complete_active-parts s t req out e in
    let (held, slot, at_work) = completion_refusal-none s req h admitted in
    let (same_route, same_slot, same_dirty, dirty₁) =
      record_remaining-cases s s₁ (budgeted s req) snap₁ req recorded in
    finish_completion-IsSound s₁ t snap₁ (budgeted s req).dirty_generation req out
      (subst (λ r. holds_lanes r.route_state ≡ false) (sym same_route) held) (same_slot ∙ slot)
      (subst (λ d. pos 0 ≤ℤ d) (sym same_dirty) (IsSound-counts s h))
      (stays_clean (budgeted s req).dirty_generation snap₁.dirty_generation s₁.lane.dirty_generation
        (subst (λ d. pos 0 ≤ℤ d) (sym (own_dirty s req held)) (IsSound-counts s h)) dirty₁
        (same_dirty ∙ sym (own_dirty s req held)))
      finished
