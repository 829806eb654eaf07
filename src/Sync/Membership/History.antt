-- ===== src/Sync/Membership/History.antt =====
-- internal/domain/syncrecords/membership.go: chains of plans that `NewPlan` accepts.
use agent_dispatch.Base.{Str, In, ◌≡◌, ◌≢◌, sym, subst, ◌∙◌, Option, some, List, ok, inl, inr}
use agent_dispatch.Sync.Endpoint.{Url}
use agent_dispatch.Sync.Membership.{
  ActiveMember, HistoricalMember, Membership, MembershipPlan, Binding,
}
use agent_dispatch.Sync.Membership.Plan.{new_plan}
use agent_dispatch.Sync.Membership.Kept.{Knows}
use agent_dispatch.Sync.Membership.Distinct.{IsValid, IsValid-apart}
use agent_dispatch.Sync.Membership.Planned.{new_plan-IsValid, new_plan-historical, new_plan-Knows}

module _ (parse_url : Str → Option Url) (marshal : MembershipPlan → Option Str)
    (sha256_hex : Str → Str) where
  -- a chain of accepted plans, each from the membership the one before proposed
  pub data Chain (m : Membership) : Membership → Type 0 where
    start : Chain m m
    then_plan :
        {n : Membership} (kind target : Str) (pred : Option Str) (desired : List ActiveMember)
        (b : Binding) (plan : MembershipPlan)
        → Chain m n
        → new_plan parse_url marshal sha256_hex kind target (some n) pred desired b ≡ ok plan
        → Chain m plan.proposed_membership

  Chain-IsValid : {m n : Membership} → IsValid parse_url m → Chain m n → IsValid parse_url n
  Chain-IsValid v start = v
  Chain-IsValid v (then_plan {n} kind target pred desired b plan c made) =
      new_plan-IsValid parse_url marshal sha256_hex kind target n pred desired b plan made

  Chain-historical :
      {m n : Membership} (h : HistoricalMember)
      → In h m.historical_members
      → Chain m n
      → In h n.historical_members
  Chain-historical h k start = k
  Chain-historical h k (then_plan {n} kind target pred desired b plan c made) =
      new_plan-historical parse_url marshal sha256_hex kind target n pred desired b plan made h
        (Chain-historical h k c)

  Chain-Knows :
      {m n : Membership} (i : Str) → IsValid parse_url m → Knows m i → Chain m n → Knows n i
  Chain-Knows i v k start = k
  Chain-Knows i v k (then_plan {n} kind target pred desired b plan c made) =
      elim (Chain-Knows i v k c) [
        | inr (h, l, e) ↦ inr (
          h,
          new_plan-historical parse_url marshal sha256_hex kind target n pred desired b plan made h
              l,
          e,
        )
        | inl (a, l, e) ↦ subst (Knows plan.proposed_membership) e (
            new_plan-Knows parse_url marshal sha256_hex kind target n pred desired b plan made
              (Chain-IsValid v c) a l)
      ]

  -- Along a chain of plans that `NewPlan` accepts, begun at a valid membership, a state incarnation
  -- that was a member's and is not active after some plan is not active after any later one.
  pub Chain-no_return :
      {m n k : Membership} (i : Str)
      → IsValid parse_url m
      → Knows m i
      → Chain m n
      → ((b : ActiveMember) → In b n.active_members → b.state_incarnation_id ≢ i)
      → Chain n k
      → (c : ActiveMember) → In c k.active_members
      → c.state_incarnation_id ≢ i
  Chain-no_return {k} i v known to_n gone to_k c j e = elim (Chain-Knows i v known to_n) [
    | inl (a, l, q) ↦ absurd (gone a l q)
    | inr (h, l, q) ↦
        IsValid-apart parse_url k (Chain-IsValid (Chain-IsValid v to_n) to_k) h c
          (Chain-historical h l to_k) j (q ∙ sym e)
  ]
