-- ===== src/Lanes/Completion/Completed.antt =====
-- The whole completion: the recording of the remaining work, and what follows it.
use agent_dispatch.Base.{
  ◌∙◌, if◌then◌else◌, ◌&&◌, str_eq_iff, ◌≡◌, ◌↔◌, inl, inr, none, ok, Bool-cases, Result-cases,
  arith,
}
use agent_dispatch.Base.Int.{is_zero}
use agent_dispatch.State.Route.{route_active_dirty, RouteSnapshot, later_relevant_change}
use agent_dispatch.Lanes.Rows.{Store, with_lane, with_state}
use agent_dispatch.Lanes.Completion.{
  ActiveCompletion, FollowupCreated, dirtying_evidence, complete_active, completion_refusal,
  record_remaining, finish_completion,
}
use agent_dispatch.Lanes.Intents.Admitted.{Admits}
use agent_dispatch.Lanes.Completion.Outcomes.{
  IsCompletable, IsOwed, IsOwedBy, IsPrepared, GoesBy, Leaves, budgeted, dirtied,
  dirtying-validated, apply_lane_transition-ok, finish_completion-not_err, finish_completion-edges,
  finish_completion-rows,
}

recorded_store : Store → ActiveCompletion → Store
recorded_store store req =
    if req.remaining_work && is_zero store.lane.dirty_generation
    then with_lane store (with_state store.lane route_active_dirty)
    else store

recorded_snapshot : Store → ActiveCompletion → RouteSnapshot
recorded_snapshot store req =
    if req.remaining_work && is_zero store.lane.dirty_generation
    then dirtied store req
    else budgeted store req

record_remaining-ok :
    (store : Store) (req : ActiveCompletion)
    → IsCompletable store req
    → record_remaining store (budgeted store req) req
      ≡ ok (recorded_store store req, recorded_snapshot store req)
unfolding record_remaining recorded_store recorded_snapshot
record_remaining-ok store req h = ground (
  arith,
  dirtying-validated (budgeted store req) req,
  apply_lane_transition-ok store (budgeted store req) route_active_dirty later_relevant_change
      (dirtying_evidence req),
)

recorded-Admits :
    (store : Store) (req : ActiveCompletion)
    → Admits store.destination_id store.intents store.decisions req.followup_request
    → let after = recorded_store store req in
      Admits after.destination_id after.intents after.decisions req.followup_request
unfolding recorded_store
recorded-Admits store req h =
    elim (Bool-cases (req.remaining_work && is_zero store.lane.dirty_generation)) [
      | inl y ↦ rw y h
      | inr n ↦ rw n h
    ]

recorded-IsPrepared :
    (store : Store) (req : ActiveCompletion)
    → IsCompletable store req
    → IsPrepared (recorded_store store req) (recorded_snapshot store req) req
unfolding recorded_store recorded_snapshot
recorded-IsPrepared store req h = (
  ground arith,
  ground arith,
  ground arith,
  ground arith,
  ground arith,
  recorded-Admits store req h.5,
  ground arith,
  ground arith,
)

recorded-IsOwedBy :
    (store : Store) (req : ActiveCompletion)
    → IsCompletable store req
    → IsOwedBy (recorded_snapshot store req) req ↔ IsOwed store req
unfolding recorded_snapshot
recorded-IsOwedBy store req h = ground arith

completion_refusal-none :
    (store : Store) (req : ActiveCompletion)
    → IsCompletable store req
    → completion_refusal (budgeted store req) req ≡ none
unfolding completion_refusal
completion_refusal-none store req h =
    ground (arith, str_eq_iff store.lane.active_dispatch_id req.dispatch_id)

complete_active-finish :
    (store : Store) (req : ActiveCompletion)
    → IsCompletable store req
    → complete_active store req
      ≡ finish_completion
          (recorded_store store req)
          (recorded_snapshot store req)
          (budgeted store req).dirty_generation
          req
unfolding complete_active
complete_active-finish store req h =
    ground (arith, completion_refusal-none store req h, record_remaining-ok store req h)

GoesBy-map :
    {A B : Type 0} (req : ActiveCompletion) (out : FollowupCreated)
    → A ↔ B
    → GoesBy A req out
    → GoesBy B req out
GoesBy-map req out (f, g) ((idle, not_idle), (uncertain, not_uncertain)) = (
  (λ e. let (k, n) = idle e in (k, λ b. n (g b)), λ (k, n). not_idle (k, λ a. n (f a))),
  (
    λ e. elim (uncertain e) [ inl k ↦ inl k | inr (a, k) ↦ inr (f a, k) ],
    λ c. elim c [ inl k ↦ not_uncertain (inl k) | inr (b, k) ↦ not_uncertain (inr (g b, k)) ],
  ),
)

-- The rows of the lane and of its route.
pub complete_active-applied :
    (store : Store) (req : ActiveCompletion)
    → IsCompletable store req
    → (after : Store) × (out : FollowupCreated) × (complete_active store req ≡ ok (after, out))
      × GoesBy (IsOwed store req) req out
      × Leaves req after out
complete_active-applied store req h =
    let store₁ = recorded_store store req in
    let snap₁ = recorded_snapshot store req in
    let counted = (budgeted store req).dirty_generation in
    let p = recorded-IsPrepared store req h in
    elim (Result-cases (finish_completion store₁ snap₁ counted req)) [
      | inr (x, e) ↦ absurd (finish_completion-not_err store₁ snap₁ counted req x p e)
      | inl ((after, out), e) ↦ (
        after,
        out,
        complete_active-finish store req h ∙ e,
        GoesBy-map req out (recorded-IsOwedBy store req h)
            (finish_completion-edges store₁ snap₁ counted req after out p e),
        finish_completion-rows store₁ snap₁ counted req after out p e,
      )
    ]
