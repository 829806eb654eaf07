-- ===== src/Sync/Membership/Transition.antt =====
-- internal/domain/syncrecords/membership.go: `ValidateTransition`, with `reflect.DeepEqual` on plans
-- (`same_plan`; a list that is nil is the empty list, as the decoder of plans refuses nil lists).
use agent_dispatch.Base.{
  In, >>=-eq-ok, Str, ◌≡◌, ◌↔◌, refl, ap, Option, some, ok, err, Result, ◌>>=◌, ◌∙◌,
}
use native.Mathlib.Decide.{ℕ_discrete}
use agent_dispatch.Sync.Endpoint.{Url}
use agent_dispatch.Sync.Membership.{
  ActiveMember, HistoricalMember, Membership, MembershipPlan, Binding, SyncError, Accepted,
  accepted, not_unique, invalid_transition,
}
use agent_dispatch.Sync.Membership.Plan.{new_plan}
use agent_dispatch.Sync.Membership.Kept.{Knows}
use agent_dispatch.Sync.Membership.Distinct.{IsValid}
use agent_dispatch.Sync.Membership.Planned.{new_plan-IsValid, new_plan-historical, new_plan-Knows}

-- `reflect.DeepEqual`

pub same_plan : Discrete MembershipPlan
same_plan = hlevel (ℕ_discrete)

abbrev pub binding_of : Membership → Binding
binding_of m = record {
  group_id = m.group_id;
  content_ref = m.content_ref;
  content_binding = m.content_binding;
  contract_digest = m.contract_digest;
  administrator_key = m.administrator_key;
}

abbrev unique : {a b : MembershipPlan} → Dec (a ≡ b) → Result SyncError Accepted
unique (yes _) = ok accepted
unique (no _) = err (invalid_transition not_unique)

unique_iff : {a b : MembershipPlan} (d : Dec (a ≡ b)) → (unique d ≡ ok accepted) ↔ (a ≡ b)
unique_iff (yes e) = (λ h. e, λ e. refl)
unique_iff (no n) = (λ h. cc, λ e. absurd (n e))

module _ (parse_url : Str → Option Url) (marshal : MembershipPlan → Option Str)
    (sha256_hex : Str → Str) where
  -- the plan that `ValidateTransition` rebuilds
  abbrev pub rebuild : Membership → MembershipPlan → Result SyncError MembershipPlan
  rebuild current plan =
      new_plan parse_url marshal sha256_hex plan.change_kind plan.target_instance (some current)
        plan.expected_predecessor plan.proposed_membership.active_members (binding_of current)

  unfoldable pub validate_transition : Membership → MembershipPlan → Result SyncError Accepted
  validate_transition current plan =
      rebuild current plan >>= λ rebuilt. unique (same_plan rebuilt plan)

  validate_transition-new_plan :
      (current : Membership) (plan : MembershipPlan)
      → (validate_transition current plan ≡ ok accepted) ↔ (
          new_plan parse_url marshal sha256_hex plan.change_kind plan.target_instance
            (some current)
            plan.expected_predecessor
            plan.proposed_membership.active_members
            (binding_of current)
          ≡ ok plan)
  unfolding validate_transition
  validate_transition-new_plan current plan = (
    (λ h.
        let (rebuilt, r, u) =
          >>=-eq-ok (rebuild current plan) (λ rebuilt. unique (same_plan rebuilt plan)) h in
        r ∙ ap ok ((unique_iff (same_plan rebuilt plan)).0 u)),
    (λ r. rw r ((unique_iff (same_plan plan plan)).1 refl)),
  )

  -- A plan that `ValidateTransition` accepts for a valid membership, whoever made it, proposes a valid
  -- membership that still records every retired incarnation of the current one and forgets none of its
  -- active incarnations.
  validate_transition-keeps :
      (current : Membership) (plan : MembershipPlan)
      → IsValid parse_url current
      → validate_transition current plan ≡ ok accepted
      → IsValid parse_url plan.proposed_membership
        × ((h : HistoricalMember)
            → In h current.historical_members
            → In h plan.proposed_membership.historical_members)
        × ((a : ActiveMember)
            → In a current.active_members
            → Knows plan.proposed_membership a.state_incarnation_id)
  validate_transition-keeps current plan v h =
      let made = (validate_transition-new_plan current plan).0 h in
      let pred = plan.expected_predecessor in
      let desired = plan.proposed_membership.active_members in
      let b = binding_of current in
      (
        new_plan-IsValid parse_url marshal sha256_hex plan.change_kind plan.target_instance current
            pred desired b plan made,
        new_plan-historical parse_url marshal sha256_hex plan.change_kind plan.target_instance
            current pred desired b plan made,
        new_plan-Knows parse_url marshal sha256_hex plan.change_kind plan.target_instance current
            pred desired b plan made v,
      )
