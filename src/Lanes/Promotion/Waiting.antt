-- ===== src/Lanes/Promotion/Waiting.antt =====
-- Which lanes wait for a group, and which comes first, apart from the query's terms.
use agent_dispatch.Base.{
  Str, str_eq_iff, true, ◌≡◌, ◌≢◌, ◌↔◌, ◌⊎◌, inl, inr, Option, none, some, List, [], In, refl,
  arith, Bool-cases, Option-cases,
}
use agent_dispatch.Base.Ordering.{str_lt, str_lt_irrefl, opt_lt, opt_lt_irrefl, str_order}
use agent_dispatch.Base.Int.{leb_ℤ, pos, ◌<ℤ◌}
use agent_dispatch.State.Route.{route_followup_ready}
use agent_dispatch.Records.Enums.{
  IntentState, intent_state_text, intent_completed, intent_superseded,
}
use agent_dispatch.Lanes.Promotion.{Member, is_live, has_live_intent, waits, waiting_key, key_order}

-- Dirty since an earlier time, or since some time where the other never was.

abbrev pub Sooner : Option Str → Option Str → Type 0
Sooner (some a) (some b) = str_lt a b ≡ true
Sooner (some a) none = Unit
Sooner none b = ⊥

-- A member other than the releasing lane that owes dirty work, or has a ready follow-up in its slot
-- whose intent is neither completed nor superseded.

abbrev pub IsWaiter : Str → Str → Member → Type 0
IsWaiter route destination m =
    ((m.route_id ≡ route) × (m.destination_id ≡ destination) → ⊥)
    × ((pos 0 <ℤ m.lane.dirty_generation)
        ⊎ ((m.lane.lane_state ≡ route_followup_ready)
            × (m.lane.active_dispatch_id ≢ [])
            × (s : IntentState) × (m.intent ≡ some s)
            × (s ≢ intent_completed)
            × (s ≢ intent_superseded)))

-- It has been dirty for longer, a lane that never was counting as the youngest; then the destination
-- decides, then the route.

abbrev pub Precedes : Member → Member → Type 0
Precedes n m =
    Sooner n.lane.dirty_since m.lane.dirty_since
    ⊎ ((n.lane.dirty_since ≡ m.lane.dirty_since)
        × ((str_lt n.destination_id m.destination_id ≡ true)
            ⊎ ((n.destination_id ≡ m.destination_id) × (str_lt n.route_id m.route_id ≡ true))))

-- The first of the waiting members by age, destination and route.

abbrev pub IsFirst : Str → Str → List Member → Member → Type 0
IsFirst route destination members m =
    In m members
    × IsWaiter route destination m
    × ((n : Member) → In n members → IsWaiter route destination n → Precedes n m → ⊥)

-- The query's test on the state of an intent holds of the text of every state but `completed` and
-- `superseded`, that of a canceled intent included.
is_live_iff :
    (s : IntentState)
    → (is_live (intent_state_text s) ≡ true) ↔ ((s ≢ intent_completed) × (s ≢ intent_superseded))
unfolding is_live
is_live_iff intent_completed = (λ h. cc, λ (h, k). absurd (h refl))
is_live_iff intent_superseded = (λ h. cc, λ (h, k). absurd (k refl))
is_live_iff _ = (λ h. (λ e. cc, λ e. cc), λ h. refl)

live_intent :
    (m : Member)
    → (has_live_intent m ≡ true)
      ↔ ((s : IntentState) × (m.intent ≡ some s) × (s ≢ intent_completed) × (s ≢ intent_superseded))
live_intent m = elim (Option-cases m.intent) [
  | inl e ↦ (λ h. absurd (ground (arith, e, h)), λ (s, k, _, _). absurd (ground (arith, e, k)))
  | inr (s, e) ↦ (
    λ h. let (p, q) = (is_live_iff s).0 (ground (arith, e, h)) in (s, e, p, q),
    λ (t, k, p, q). let live = (is_live_iff t).1 (p, q) in ground (arith, k, live),
  )
]

pub waits_iff :
    (route destination : Str) (m : Member)
    → (waits route destination m ≡ true) ↔ IsWaiter route destination m
unfolding waits
waits_iff route destination m = (
  λ h. (
    λ (r, d). ground (arith, str_eq_iff m.route_id route, str_eq_iff m.destination_id destination),
    elim (Bool-cases (leb_ℤ m.lane.dirty_generation (pos 0))) [
      | inr f ↦ inl (ground arith)
      | inl t ↦
          (let (s, e, p, q) = (live_intent m).0 (ground arith) in
            inr (ground arith, ground arith, s, e, p, q))
    ],
  ),
  λ (other, work). elim work [
    | inl dirty ↦
        ground (arith, str_eq_iff m.route_id route, str_eq_iff m.destination_id destination)
    | inr (ready, slot, s, e, p, q) ↦
        (let l = (live_intent m).1 (s, e, p, q) in
          ground (arith, l, str_eq_iff m.route_id route, str_eq_iff m.destination_id destination))
  ],
)

Sooner-opt_lt : (x y : Option Str) → Sooner x y → opt_lt str_order x y ≡ true
Sooner-opt_lt none y s = absurd s
Sooner-opt_lt (some a) none s = refl
Sooner-opt_lt (some a) (some b) s = s

pub Precedes-lt :
    (n m : Member) → Precedes n m → key_order.lt (waiting_key n) (waiting_key m) ≡ true
Precedes-lt n m (inl s) = ground (arith, Sooner-opt_lt n.lane.dirty_since m.lane.dirty_since s)
Precedes-lt n m (inr (e, inl l)) = rw (e, opt_lt_irrefl str_order m.lane.dirty_since, l)
Precedes-lt n m (inr (e, inr (d, l))) =
    rw (e, d, opt_lt_irrefl str_order m.lane.dirty_since, str_lt_irrefl m.destination_id, l)
