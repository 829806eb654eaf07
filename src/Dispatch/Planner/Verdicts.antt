-- ===== src/Dispatch/Planner/Verdicts.antt =====
-- When the planner dispatches, merges, drops or holds a batch.
use agent_dispatch.Base.{
  Str, Bool, true, false, ◌≡◌, ◌≢◌, ◌↔◌, ◌⊎◌, inl, inr, some, List, [], ◌∷◌, ok, arith, Option, ℕ,
  length, ◌++◌,
}
use agent_dispatch.Base.Int.{pos, ◌≤ℤ◌, ◌<ℤ◌}
use agent_dispatch.Dispatch.Planner.{
  create_delete_never, unchanged_modify, DropRecord, propagate_drops, finish_plan, Plan,
  protected_path, evaluate, ReasonCode, contains_reason,
}
-- The route's limits are positive.
use agent_dispatch.Dispatch.Planner.{
  no_meaningful_changes, disposition_reconcile, disposition_quarantine, ReasonCode-discrete,
  disposition_merge_pending, manifest_bytes, disposition_drop, disposition_dispatch, SourceFlags,
  action_or, Batch, judge, PlanChange, RoutePolicy,
}

abbrev pub LimitsPositive : RoutePolicy → Type 0
LimitsPositive policy =
    (pos 0 <ℤ policy.hard_limit)
    × (pos 0 <ℤ policy.automatic_threshold)
    × (pos 0 <ℤ policy.max_manifest_bytes)

module _ (marshal : List PlanChange → Option ℕ) (sort_strings : List Str → List Str) where
  -- The batch has no overflow-class signal, something to do, nothing protected or immutable, and is
  -- within all limits.
  abbrev pub IsOrdinary : RoutePolicy → Batch → SourceFlags → Type 0
  IsOrdinary policy batch flags =
      (flags.overflow ≡ false)
      × (flags.fresh_instance ≡ false)
      × (batch.changes ≢ [])
      × (batch.protected ≡ [])
      × (batch.immutable ≡ [])
      × (pos (length batch.changes) ≤ℤ policy.hard_limit)
      × (pos (manifest_bytes marshal sort_strings batch.changes) ≤ℤ policy.max_manifest_bytes)
      × (pos (length batch.changes) ≤ℤ policy.automatic_threshold)

  judge_dispatches_iff :
      (policy : RoutePolicy) (batch : Batch) (flags : SourceFlags) (active : Bool)
      → ((judge marshal sort_strings policy batch flags active).disposition ≡ disposition_dispatch)
        ↔ (IsOrdinary policy batch flags × (active ≡ false))
  unfolding judge action_or
  judge_dispatches_iff policy batch flags active = ground arith

  judge_merges_iff :
      (policy : RoutePolicy) (batch : Batch) (flags : SourceFlags) (active : Bool)
      → ((judge marshal sort_strings policy batch flags active).disposition
          ≡ disposition_merge_pending)
        ↔ (IsOrdinary policy batch flags × (active ≡ true))
  unfolding judge action_or
  judge_merges_iff policy batch flags active = ground arith

  judge_drops_iff :
      (policy : RoutePolicy) (batch : Batch) (flags : SourceFlags) (active : Bool)
      → ((judge marshal sort_strings policy batch flags active).disposition ≡ disposition_drop)
        ↔ ((flags.overflow ≡ false) × (flags.fresh_instance ≡ false) × (batch.changes ≡ []))
  unfolding judge action_or
  judge_drops_iff policy batch flags active = ground arith

  judge_protected :
      (policy : RoutePolicy) (batch : Batch) (flags : SourceFlags) (active : Bool)
      → batch.protected ≢ []
      → batch.changes ≢ []
      → let v = judge marshal sort_strings policy batch flags active in
        ((v.disposition ≡ disposition_quarantine) ⊎ (v.disposition ≡ disposition_reconcile))
        × (contains_reason v.reasons protected_path ≡ true)
  unfolding judge action_or ReasonCode-discrete
  judge_protected policy batch flags active h k = ground arith

  judge_unchanged :
      (policy : RoutePolicy) (batch : Batch) (flags : SourceFlags) (active : Bool)
      → batch.changes ≡ []
      → flags.overflow ≡ false
      → flags.fresh_instance ≡ false
      → let v = judge marshal sort_strings policy batch flags active in
        (v.disposition ≡ disposition_drop) × (v.reasons ≡ no_meaningful_changes ∷ [])
  unfolding judge
  judge_unchanged policy batch flags active h k l = ground arith

  judge_signalled :
      (policy : RoutePolicy) (batch : Batch) (flags : SourceFlags) (active : Bool)
      → batch.protected ≢ []
      → (flags.overflow ≡ true) ⊎ (flags.fresh_instance ≡ true)
      → let v = judge marshal sort_strings policy batch flags active in
        ((v.disposition ≡ disposition_quarantine) ⊎ (v.disposition ≡ disposition_reconcile))
        × (contains_reason v.reasons protected_path ≡ true)
  unfolding judge action_or ReasonCode-discrete
  judge_signalled policy batch flags active h k = ground arith

  evaluate_ok :
      (policy : RoutePolicy) (batch : Batch) (flags : SourceFlags) (active : Bool)
      → LimitsPositive policy
      → evaluate marshal sort_strings policy
          (record { batch = some batch; flags = flags; active_dispatch_exists = active })
        ≡ ok (
            finish_plan marshal sort_strings policy batch
              (judge marshal sort_strings policy batch flags active))
  unfolding evaluate
  evaluate_ok policy batch flags active h = ground arith

  -- A batch of a route with positive limits is planned; its plan dispatches exactly when the batch is
  -- ordinary and no dispatch is active, merges into the pending generation exactly when it is
  -- ordinary and one is active, and drops exactly when there is no overflow-class signal and no
  -- change.
  pub evaluate_dispositions :
      (policy : RoutePolicy) (batch : Batch) (flags : SourceFlags) (active : Bool)
      → LimitsPositive policy
      → (plan : Plan) × (evaluate marshal sort_strings policy
            (record { batch = some batch; flags = flags; active_dispatch_exists = active })
          ≡ ok plan)
        × ((plan.disposition ≡ disposition_dispatch)
            ↔ (IsOrdinary policy batch flags × (active ≡ false)))
        × ((plan.disposition ≡ disposition_merge_pending)
            ↔ (IsOrdinary policy batch flags × (active ≡ true)))
        × ((plan.disposition ≡ disposition_drop)
            ↔ ((flags.overflow ≡ false) × (flags.fresh_instance ≡ false) × (batch.changes ≡ [])))
  evaluate_dispositions policy batch flags active h = (
    finish_plan marshal sort_strings policy batch
        (judge marshal sort_strings policy batch flags active),
    evaluate_ok policy batch flags active h,
    judge_dispatches_iff policy batch flags active,
    judge_merges_iff policy batch flags active,
    judge_drops_iff policy batch flags active,
  )

  contains_append :
      (rs : List ReasonCode) (r s : ReasonCode)
      → contains_reason rs s ≡ true
      → contains_reason (rs ++ (r ∷ [])) s ≡ true
  contains_append [] r s h = cc
  contains_append (q ∷ rs) r s h = ground (arith, contains_append rs r s)

  propagate_keeps :
      (dropped : List DropRecord) (rs : List ReasonCode) (s : ReasonCode)
      → contains_reason rs s ≡ true
      → contains_reason (propagate_drops dropped rs) s ≡ true
  unfolding propagate_drops
  propagate_keeps dropped rs s h = ground (
    arith,
    contains_append rs unchanged_modify s,
    contains_append rs create_delete_never s,
    contains_append (rs ++ (unchanged_modify ∷ [])) create_delete_never s,
  )

  propagate_misses :
      (dropped : List DropRecord)
      → contains_reason (propagate_drops dropped (no_meaningful_changes ∷ [])) protected_path
        ≡ false
  unfolding propagate_drops ReasonCode-discrete
  propagate_misses dropped = ground arith

  -- What the plan of a batch with protected paths is: with something to do, a hold that names them;
  -- with nothing, a drop that does not.
  abbrev pub KeepsHold : Batch → SourceFlags → Plan → Type 0
  KeepsHold batch flags plan =
      (((batch.changes ≢ []) ⊎ (flags.overflow ≡ true) ⊎ (flags.fresh_instance ≡ true))
        × ((plan.disposition ≡ disposition_quarantine) ⊎ (plan.disposition ≡ disposition_reconcile))
        × (contains_reason plan.reason_codes protected_path ≡ true))
      ⊎ ((batch.changes ≡ [])
          × (flags.overflow ≡ false)
          × (flags.fresh_instance ≡ false)
          × (plan.disposition ≡ disposition_drop)
          × (contains_reason plan.reason_codes protected_path ≡ false))

  has_work :
      (batch : Batch) (flags : SourceFlags)
      → (batch.changes ≢ [])
        ⊎ ((flags.overflow ≡ true) ⊎ (flags.fresh_instance ≡ true))
        ⊎ ((batch.changes ≡ []) × (flags.overflow ≡ false) × (flags.fresh_instance ≡ false))
  has_work batch flags = ground arith

  judge-KeepsHold :
      (policy : RoutePolicy) (batch : Batch) (flags : SourceFlags) (active : Bool)
      → batch.protected ≢ []
      → KeepsHold batch flags (
          finish_plan marshal sort_strings policy batch
            (judge marshal sort_strings policy batch flags active))
  judge-KeepsHold policy batch flags active k =
      let v = judge marshal sort_strings policy batch flags active in
      let kept = propagate_keeps batch.dropped v.reasons protected_path in
      elim (has_work batch flags) [
        | inl l ↦
            (let (disposed, named) = judge_protected policy batch flags active k l in
              inl (inl l, disposed, kept named))
        | inr (inl s) ↦
            (let (disposed, named) = judge_signalled policy batch flags active k s in
              inl (inr s, disposed, kept named))
        | inr (inr (l, o, f)) ↦
            (let (dropped, only) = judge_unchanged policy batch flags active l o f in
              inr (l, o, f, dropped, rw only (propagate_misses batch.dropped)))
      ]

  -- A batch with a protected path, on a route with positive limits, is planned. With changes or with
  -- an overflow-class signal, the plan quarantines or reconciles and names the protected path among
  -- its reasons; with neither, the plan drops the batch and does not name it.
  pub evaluate_holds_protected :
      (policy : RoutePolicy) (batch : Batch) (flags : SourceFlags) (active : Bool)
      → LimitsPositive policy
      → batch.protected ≢ []
      → (plan : Plan) × (evaluate marshal sort_strings policy
            (record { batch = some batch; flags = flags; active_dispatch_exists = active })
          ≡ ok plan)
        × KeepsHold batch flags plan
  evaluate_holds_protected policy batch flags active h k = (
    finish_plan marshal sort_strings policy batch
        (judge marshal sort_strings policy batch flags active),
    evaluate_ok policy batch flags active h,
    judge-KeepsHold policy batch flags active k,
  )
