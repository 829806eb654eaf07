-- ===== src/Sync/Membership/Revoked.antt =====
-- internal/domain/syncrecords/membership.go: a removed member's key before `AuthorizePublisher`.
use agent_dispatch.Base.{
  >>=-eq-ok, Str, codes, str_eq, str_eq→eq, str_eq_iff, if◌then◌else◌, str_eq_refl, any-In, In-any,
  >>=-eq-ok, ok_injective, In, Bool, true, false, ◌≡◌, ◌≢◌, ◌⊎◌, refl, sym, ap, subst, ◌∙◌, Option,
  none, some, List, arith, Bool-cases, ok, err, inl, inr,
}
use agent_dispatch.Sync.Endpoint.{Url}
use agent_dispatch.Sync.Membership.{
  ActiveMember, Membership, MembershipPlan, Binding, normalize_membership, accepted,
  removed_key_first_seen,
}
use agent_dispatch.Sync.Membership.Change.{
  Change, retirement, emergency_revocation, bootstrap, endpoint_update, key_rotation, replacement,
  incarnation_registration, change_of, switch_change, apply_change, remove_active, active_by_id,
}
use agent_dispatch.Sync.Membership.Plan.{
  proposal, new_plan, seal_plan, active_key, authorize_publisher,
}
use agent_dispatch.Sync.Membership.Kept.{In-remove_active, remove_active-keeps}
use agent_dispatch.Sync.Membership.Planned.{
  apply_change-switch, active-normalize, normalize-active, seal_plan-IsValid,
}
use agent_dispatch.Sync.Membership.Distinct.{IsValid, IsValid-one_key}

abbrev pub IsRemoval : Str → Type 0
IsRemoval kind = (kind ≡ codes "retirement") ⊎ (kind ≡ codes "emergency_revocation")

retirement_change : change_of (codes "retirement") ≡ some retirement
unfolding change_of str_eq
retirement_change = refl

revocation_change : change_of (codes "emergency_revocation") ≡ some emergency_revocation
unfolding change_of str_eq
revocation_change = refl

abbrev is_removal : Change → Bool
is_removal retirement = true
is_removal emergency_revocation = true
is_removal _ = false

IsRemoval-change :
    (kind : Str) (c : Change) → IsRemoval kind → change_of kind ≡ some c → is_removal c ≡ true
IsRemoval-change kind c (inl e) h =
    let q : some retirement ≡ some c = sym retirement_change ∙ ap change_of (sym e) ∙ h in
    ground (arith, q)
IsRemoval-change kind c (inr e) h =
    let q : some emergency_revocation ≡ some c = sym revocation_change ∙ ap change_of (sym e) ∙ h in
    ground (arith, q)

module _ (m : Membership) (key : Str) where
  active_key-In :
      active_key m key ≡ true → (a : ActiveMember) × In a m.active_members × (a.publisher_key ≡ key)
  unfolding active_key
  active_key-In h =
      let (a, k, e) =
        any-In (λ (a : ActiveMember). str_eq a.publisher_key key) m.active_members h in
      (a, k, str_eq→eq a.publisher_key key e)

  In-active_key :
      (a : ActiveMember) → In a m.active_members → a.publisher_key ≡ key → active_key m key ≡ true
  unfolding active_key
  In-active_key a k e =
      In-any (λ (a : ActiveMember). str_eq a.publisher_key key) a m.active_members k
        (rw e (str_eq_refl key))

module _ (parse_url : Str → Option Url) (marshal : MembershipPlan → Option Str)
    (sha256_hex : Str → Str) where
  switch_removes :
      (c : Change) (target : Str) (current proposed changed : Membership) (o : Option ActiveMember)
      → is_removal c ≡ true
      → switch_change parse_url c target current proposed o ≡ ok changed
      → remove_active current.active_members target ≡ changed.active_members
  unfolding switch_change
  switch_removes retirement target current proposed changed none r h = cc
  switch_removes retirement target current proposed changed (some old) r h =
      ap (λ (m : Membership). m.active_members) (ok_injective h)
  switch_removes emergency_revocation target current proposed changed none r h = cc
  switch_removes emergency_revocation target current proposed changed (some old) r h =
      ap (λ (m : Membership). m.active_members) (ok_injective h)
  switch_removes bootstrap target current proposed changed o r h = cc
  switch_removes endpoint_update target current proposed changed o r h = cc
  switch_removes key_rotation target current proposed changed o r h = cc
  switch_removes replacement target current proposed changed o r h = cc
  switch_removes incarnation_registration target current proposed changed o r h = cc

  module _ (kind target : Str) (current : Membership) (pred : Option Str)
      (desired : List ActiveMember) (b : Binding) (plan : MembershipPlan) (removal : IsRemoval kind)
      (made : new_plan parse_url marshal sha256_hex kind target (some current) pred desired b
        ≡ ok plan) where
    plan_removes :
        (changed : Membership) × (plan.proposed_membership ≡ normalize_membership changed)
        × (remove_active current.active_members target ≡ changed.active_members)
    unfolding new_plan
    plan_removes =
        let (changed, a, z) =
          >>=-eq-ok
            (apply_change parse_url kind target (some current)
              (proposal (some current) pred desired b))
            (seal_plan parse_url marshal sha256_hex kind target pred b) made in
        let (c, is, s) =
          apply_change-switch parse_url marshal sha256_hex kind target current
            (proposal (some current) pred desired b) changed a in
        let (e, _) =
          seal_plan-IsValid parse_url marshal sha256_hex kind target pred b changed plan z in
        (
          changed,
          e,
          switch_removes c target current (proposal (some current) pred desired b) changed
              (active_by_id current.active_members target) (IsRemoval-change kind c removal is) s,
        )

    removed_key :
        IsValid parse_url current
        → (a : ActiveMember) → In a current.active_members
        → a.instance_id ≡ target
        → active_key plan.proposed_membership a.publisher_key ≡ false
    removed_key valid a k e =
        elim (Bool-cases (active_key plan.proposed_membership a.publisher_key)) [
          | inr f ↦ f
          | inl t ↦
              (let (changed, is, removed) = plan_removes in
                let (x, l, same) = active_key-In plan.proposed_membership a.publisher_key t in
                let in_normal : In x (normalize_membership changed).active_members =
                  subst (λ (n : Membership). In x n.active_members) is l in
                let (j, ne) =
                  In-remove_active current.active_members target x
                    (subst (λ ms. In x ms) (sym removed) (active-normalize changed x in_normal)) in
                let one : x ≡ a = IsValid-one_key parse_url current valid x a j k same in
                absurd (ne (ap (λ (n : ActiveMember). n.instance_id) one ∙ e)))
        ]

    kept_key :
        (a : ActiveMember)
        → In a current.active_members
        → a.instance_id ≢ target
        → active_key plan.proposed_membership a.publisher_key ≡ true
    kept_key a k ne =
        let (changed, is, removed) = plan_removes in
        let kept : In a changed.active_members =
          subst (λ ms. In a ms) removed
            (remove_active-keeps current.active_members target a k ne) in
        In-active_key plan.proposed_membership a.publisher_key a
          (subst (λ (n : Membership). In a n.active_members) (sym is)
            (normalize-active changed a kept))
          refl

    -- After an accepted plan that retires or revokes a member of a valid membership, the key of that
    -- member is refused for evidence seen first, the keys of the others are authorized, and evidence
    -- by the removed key is authorized if it was verified before or by an administrator's checkpoint.
    pub new_plan-authorize_publisher :
        IsValid parse_url current
        → (a : ActiveMember) → In a current.active_members
        → (authorize_publisher current plan.proposed_membership a.publisher_key false false
            ≡ (if str_eq a.instance_id target then err removed_key_first_seen else ok accepted))
          × (authorize_publisher current plan.proposed_membership a.publisher_key true false
              ≡ ok accepted)
          × (authorize_publisher current plan.proposed_membership a.publisher_key false true
              ≡ ok accepted)
    unfolding authorize_publisher
    new_plan-authorize_publisher valid a k =
        let known : active_key current a.publisher_key ≡ true =
          In-active_key current a.publisher_key a k refl in
        (first_seen, ground (arith, known), ground (arith, known))
      where
        first_seen :
            authorize_publisher current plan.proposed_membership a.publisher_key false false
            ≡ (if str_eq a.instance_id target then err removed_key_first_seen else ok accepted)
        first_seen =
            let known : active_key current a.publisher_key ≡ true =
              In-active_key current a.publisher_key a k refl in
            elim (Bool-cases (str_eq a.instance_id target)) [
              | inl t ↦
                  ground (arith, known, t, removed_key valid a k (str_eq→eq a.instance_id target t))
              | inr f ↦ ground (
                arith,
                known,
                f,
                kept_key a k (λ e. ground (arith, f, (str_eq_iff a.instance_id target).1 e)),
              )
            ]
