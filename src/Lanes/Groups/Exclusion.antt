-- ===== src/Lanes/Groups/Exclusion.antt =====
-- Who gets the slot of a serialization group.
use agent_dispatch.Base.{
  subst, Str, str_eq_iff, ◌≡◌, ◌↔◌, ◌⊎◌, Option, some, none, ok, err, Result-cases, arith, refl,
  inl, inr,
}
use agent_dispatch.Lanes.Groups.{group_open, group_held, GroupRow, GroupError, acquire_group_slot}

-- The group is open, or this dispatch or this lane holds it.

abbrev pub Grants : GroupRow → Str → Str → Str → Type 0
Grants group route destination dispatch =
    (group.state ≡ group_open)
    ⊎ ((group.state ≡ group_held)
        × ((group.holder_dispatch_id ≡ dispatch)
            ⊎ ((group.holder_route_id ≡ route) × (group.holder_destination_id ≡ destination))))

granted :
    (group after : GroupRow) (route destination dispatch : Str)
    → acquire_group_slot (some group) route destination dispatch ≡ ok (some after)
    → Grants group route destination dispatch
      × (after.state ≡ group_held)
      × (after.holder_dispatch_id ≡ dispatch)
unfolding acquire_group_slot
granted group after route destination dispatch h = ground (
  arith,
  str_eq_iff group.holder_dispatch_id dispatch,
  str_eq_iff group.holder_route_id route,
  str_eq_iff group.holder_destination_id destination,
)

refused :
    (group : GroupRow) (e : GroupError) (route destination dispatch : Str)
    → acquire_group_slot (some group) route destination dispatch ≡ err e
    → Grants group route destination dispatch
    → ⊥
unfolding acquire_group_slot
refused group e route destination dispatch h g = ground (
  arith,
  str_eq_iff group.holder_dispatch_id dispatch,
  str_eq_iff group.holder_route_id route,
  str_eq_iff group.holder_destination_id destination,
)

stays_some :
    (group : GroupRow) (after : Option GroupRow) (route destination dispatch : Str)
    → acquire_group_slot (some group) route destination dispatch ≡ ok after
    → (row : GroupRow) × (after ≡ some row)
unfolding acquire_group_slot
stays_some group (some row) route destination dispatch h = (row, refl)
stays_some group none route destination dispatch h = absurd (ground arith)

-- A dispatch gets the slot of its lane's group, and holds it then, exactly when the group is open, or
-- is held by this dispatch or by this lane.
pub acquire_group_slot_iff :
    (group : GroupRow) (route destination dispatch : Str)
    → ((after : GroupRow) × (acquire_group_slot (some group) route destination dispatch
          ≡ ok (some after))
        × (after.state ≡ group_held)
        × (after.holder_dispatch_id ≡ dispatch))
      ↔ Grants group route destination dispatch
acquire_group_slot_iff group route destination dispatch = (
  λ (after, e, s, d). (granted group after route destination dispatch e).0,
  λ g. elim (Result-cases (acquire_group_slot (some group) route destination dispatch)) [
    | inr (x, e) ↦ absurd (refused group x route destination dispatch e g)
    | inl (o, e) ↦
        let (row, k) = stays_some group o route destination dispatch e in
        let e₁ =
          subst (λ p. acquire_group_slot (some group) route destination dispatch ≡ ok p) k e in
        let (g₁, held, mine) = granted group row route destination dispatch e₁ in
        (row, e₁, held, mine)
  ],
)
