-- ===== src/Sync/Membership/Planned.antt =====
-- internal/domain/syncrecords/membership.go: `NewPlan` from a membership that is there.
use agent_dispatch.Base.{
  Str, str_eq, str_eq→eq, str_eq_iff, >>=-eq-ok, ◌>>=◌, In, here, there, In-append_right,
  ok_injective, ◌≡◌, refl, sym, ap, subst, ◌∙◌, Option, none, some, List, [], ◌∷◌, ◌++◌, arith,
  Bool-cases, Option-cases, ok, inl, inr,
}
use agent_dispatch.Base.Sorting.{sort-In, In-sort}
use agent_dispatch.Sync.Endpoint.{Url}
use agent_dispatch.Sync.Membership.{
  ActiveMember, HistoricalMember, Membership, MembershipPlan, Binding, normalize_membership,
  validate, accepted, Accepted,
}
use agent_dispatch.Sync.Membership.Change.{
  active_by_id, historical, Change, change_of, switch_change, apply_update, apply_change,
  apply_bootstrap, validated,
}
use agent_dispatch.Sync.Membership.Plan.{
  proposal, new_plan, seal_plan, validate_plan, identified, unsealed, check_plan, check_id, plan_id,
}
use agent_dispatch.Sync.Membership.Kept.{active_by_id-In, Knows}
use agent_dispatch.Sync.Membership.Moves.{Moves, switch_change-Moves}
use agent_dispatch.Sync.Membership.Distinct.{IsValid, IsValid-one_instance}

pub normalize-active :
    (m : Membership) (a : ActiveMember)
    → In a m.active_members
    → In a (normalize_membership m).active_members
unfolding normalize_membership
normalize-active m a k = In-sort _ m.active_members k

pub normalize-historical :
    (m : Membership) (h : HistoricalMember)
    → In h m.historical_members
    → In h (normalize_membership m).historical_members
unfolding normalize_membership
normalize-historical m h k = In-sort _ m.historical_members k

pub active-normalize :
    (m : Membership) (a : ActiveMember)
    → In a (normalize_membership m).active_members
    → In a m.active_members
unfolding normalize_membership
active-normalize m a k = sort-In _ m.active_members k

normalize-Knows : (m : Membership) (i : Str) → Knows m i → Knows (normalize_membership m) i
normalize-Knows m i (inl (a, k, e)) = inl (a, normalize-active m a k, e)
normalize-Knows m i (inr (h, k, e)) = inr (h, normalize-historical m h k, e)

only_accepted : (a : Accepted) → a ≡ accepted
only_accepted accepted = refl

In-append_left {ℓ} : {A : Type ℓ} {a : A} (xs ys : List A) → In a xs → In a (xs ++ ys)
In-append_left [] ys m = elim m [ ]
In-append_left (x ∷ xs) ys (here e) = here e
In-append_left (x ∷ xs) ys (there m) = there (In-append_left xs ys m)

module _ (target : Str) (current proposed next : Membership)
    (moved : Moves target current proposed (active_by_id current.active_members target) next) where
  Moves-historical :
      (h : HistoricalMember) → In h proposed.historical_members → In h next.historical_members
  Moves-historical h k = elim moved [
    | inl (old, s, r, p, _, e, q, _) ↦
        subst (λ (x : Membership). In h x.historical_members) (sym e)
          (In-append_left p.historical_members _ (subst (λ l. In h l) (sym q) k))
    | inr (e, _) ↦ subst (λ (x : Membership). In h x.historical_members) (sym e) k
  ]

  Moves-Knows :
      ((a b : ActiveMember)
        → In a current.active_members
        → In b current.active_members
        → a.instance_id ≡ b.instance_id
        → a ≡ b)
      → (a : ActiveMember) → In a current.active_members
      → Knows next a.state_incarnation_id
  Moves-Knows one a k = elim moved [
    | inl (old, s, r, p, o, e, _, kept) ↦ elim (Bool-cases (str_eq a.instance_id target)) [
      | inl t ↦
          (let (j, i) = active_by_id-In current.active_members target old o in
            let same : old ≡ a = one old a j k (i ∙ sym (str_eq→eq a.instance_id target t)) in
            inr (
              historical old s r,
              subst (λ (x : Membership). In (historical old s r) x.historical_members) (sym e)
                  (In-append_right p.historical_members _ (here refl)),
              ap (λ (x : ActiveMember). x.state_incarnation_id) same,
            ))
      | inr f ↦ inl (
        a,
        subst (λ (x : Membership). In a x.active_members) (sym e)
            (kept a k (λ i. ground (arith, f, (str_eq_iff a.instance_id target).1 i))),
        refl,
      )
    ]
    | inr (e, names) ↦
        (let (b, j, i) = names a k in
          inl (b, subst (λ (x : Membership). In b x.active_members) (sym e) j, i))
  ]

module _ (parse_url : Str → Option Url) (marshal : MembershipPlan → Option Str)
    (sha256_hex : Str → Str) where
  validated-same : (m n : Membership) → validated parse_url m ≡ ok n → m ≡ n
  validated-same m n h = ground arith

  pub apply_change-switch :
      (kind target : Str) (current proposed changed : Membership)
      → apply_change parse_url kind target (some current) proposed ≡ ok changed
      → (c : Change) × (change_of kind ≡ some c)
        × (switch_change parse_url c target current proposed
              (active_by_id current.active_members target)
            ≡ ok changed)
  unfolding apply_change apply_update apply_bootstrap
  apply_change-switch kind target current proposed changed h =
      elim (Option-cases (change_of kind)) [
        | inl n ↦ ground (arith, h, n)
        | inr (c, e) ↦
            (let chain : (switch_change parse_url c target current proposed
                      (active_by_id current.active_members target)
                    >>= validated parse_url)
                  ≡ ok changed =
                ground (arith, h, e) in
              let (m, switched, same) =
                >>=-eq-ok
                  (switch_change parse_url c target current proposed
                    (active_by_id current.active_members target))
                  (validated parse_url) chain in
              (c, e, switched ∙ ap ok (validated-same m changed same)))
      ]

  apply_change-Moves :
      (kind target : Str) (current proposed changed : Membership)
      → apply_change parse_url kind target (some current) proposed ≡ ok changed
      → Moves target current proposed (active_by_id current.active_members target) changed
  apply_change-Moves kind target current proposed changed h =
      let (c, _, s) = apply_change-switch kind target current proposed changed h in
      switch_change-Moves parse_url c target current proposed changed
        (active_by_id current.active_members target) s

  identified-valid :
      (p : MembershipPlan) (o : Option Str) (plan : MembershipPlan)
      → identified parse_url marshal sha256_hex p o ≡ ok plan
      → (plan.proposed_membership ≡ p.proposed_membership)
        × (validate_plan parse_url marshal sha256_hex plan ≡ ok accepted)
  identified-valid p none plan h = cc
  identified-valid p (some id) plan h =
      let (a, v, e) =
        >>=-eq-ok (validate_plan parse_url marshal sha256_hex (record p { plan_id = id }))
          (λ _. ok (record p { plan_id = id })) h in
      let same : record p { plan_id = id } ≡ plan = ok_injective e in
      (
        sym (ap (λ (x : MembershipPlan). x.proposed_membership) same),
        rw (← same) (v ∙ ap ok (only_accepted a)),
      )

  pub plan-IsValid :
      (plan : MembershipPlan)
      → validate_plan parse_url marshal sha256_hex plan ≡ ok accepted
      → IsValid parse_url plan.proposed_membership
  unfolding validate_plan
  plan-IsValid plan h = elim (Option-cases (check_plan plan)) [
    | inr (f, e) ↦ ground (arith, h, e)
    | inl n ↦
        (let chain : (validate parse_url plan.proposed_membership >>= λ _.
        check_id parse_url marshal sha256_hex plan)
              ≡ ok accepted =
            ground (arith, h, n) in
          let (a, v, _) =
            >>=-eq-ok (validate parse_url plan.proposed_membership)
              (λ _. check_id parse_url marshal sha256_hex plan) chain in
          v ∙ ap ok (only_accepted a))
  ]

  pub seal_plan-IsValid :
      (kind target : Str) (pred : Option Str) (b : Binding) (changed : Membership)
      (plan : MembershipPlan)
      → seal_plan parse_url marshal sha256_hex kind target pred b changed ≡ ok plan
      → (plan.proposed_membership ≡ normalize_membership changed)
        × IsValid parse_url plan.proposed_membership
  unfolding seal_plan
  seal_plan-IsValid kind target pred b changed plan h =
      let (e, v) =
        identified-valid (unsealed kind target pred b changed)
          (plan_id parse_url marshal sha256_hex (unsealed kind target pred b changed)) plan h in
      (e, plan-IsValid plan v)

  module _ (kind target : Str) (current : Membership) (pred : Option Str)
      (desired : List ActiveMember) (b : Binding) (plan : MembershipPlan)
      (made : new_plan parse_url marshal sha256_hex kind target (some current) pred desired b
        ≡ ok plan) where
    pub new_plan-Moves :
        (changed : Membership) × (plan.proposed_membership ≡ normalize_membership changed)
        × IsValid parse_url plan.proposed_membership
        × Moves target current
            (proposal (some current) pred desired b)
            (active_by_id current.active_members target)
            changed
    unfolding new_plan
    new_plan-Moves =
        let (changed, a, z) =
          >>=-eq-ok
            (apply_change parse_url kind target (some current)
              (proposal (some current) pred desired b))
            (seal_plan parse_url marshal sha256_hex kind target pred b) made in
        let (e, v) = seal_plan-IsValid kind target pred b changed plan z in
        (
          changed,
          e,
          v,
          apply_change-Moves kind target current (proposal (some current) pred desired b) changed a,
        )

    pub new_plan-IsValid : IsValid parse_url plan.proposed_membership
    new_plan-IsValid = let (_, _, v, _) = new_plan-Moves in v

    pub new_plan-historical :
        (h : HistoricalMember)
        → In h current.historical_members
        → In h plan.proposed_membership.historical_members
    new_plan-historical h k =
        let (changed, e, _, m) = new_plan-Moves in
        subst (λ (x : Membership). In h x.historical_members) (sym e)
          (normalize-historical changed h (
            Moves-historical target current (proposal (some current) pred desired b) changed m h k))

    -- A plan made from a valid membership forgets no incarnation that is active in it.
    pub new_plan-Knows :
        IsValid parse_url current
        → (a : ActiveMember) → In a current.active_members
        → Knows plan.proposed_membership a.state_incarnation_id
    new_plan-Knows valid a k =
        let (changed, e, _, m) = new_plan-Moves in
        subst (λ (x : Membership). Knows x a.state_incarnation_id) (sym e)
          (normalize-Knows changed a.state_incarnation_id (
            Moves-Knows target current (proposal (some current) pred desired b) changed m
              (IsValid-one_instance parse_url current valid) a k))
