-- ===== src/Lanes/Handover/Passed.antt =====
-- A completion on a lane whose dispatch holds the slot of its serialization group.
use agent_dispatch.Base.{◌≡◌, ◌≢◌, ◌⊎◌, inl, inr, refl, some, List, ok, arith}
use agent_dispatch.State.Route.{route_idle, route_followup_ready, route_uncertain}
use agent_dispatch.Lanes.Rows.{Store}
use agent_dispatch.Lanes.Groups.{GroupRow, group_held}
use agent_dispatch.Lanes.Promotion.{Member}
use agent_dispatch.Lanes.Promotion.Oldest.{PassedOn, release_group_slot-promotes}
use agent_dispatch.Lanes.Completion.{ActiveCompletion, FollowupCreated}
use agent_dispatch.Lanes.Completion.Outcomes.{IsCompletable, IsOwed, GoesBy, Leaves}
use agent_dispatch.Lanes.Completion.Completed.{complete_active-applied}
use agent_dispatch.Lanes.Handover.{complete_active_tx}

-- An uncertain lane keeps the group's slot; any other passes it on.

abbrev pub HandsOver : Store → GroupRow → List Member → FollowupCreated → GroupRow → Type 0
HandsOver store group members out left =
    ((out.route_to ≡ route_uncertain) × (left ≡ group))
    ⊎ ((out.route_to ≢ route_uncertain)
        × PassedOn store.route.route_id store.destination_id members left)

left_at :
    (req : ActiveCompletion) (after : Store) (out : FollowupCreated)
    → Leaves req after out
    → (out.route_to ≡ route_idle)
      ⊎ (out.route_to ≡ route_followup_ready)
      ⊎ (out.route_to ≡ route_uncertain)
left_at req after out (inl h) = inl h.0
left_at req after out (inr (inl h)) = inr (inl h.0)
left_at req after out (inr (inr h)) = inr (inr h.0)

-- A completion of the dispatch that an active lane and its serialization group hold, whose dirty
-- generation is zero if the lane is active clean and positive if it is active dirty, on a route that
-- holds no lane, whose fence, if any, still fits and which brings a receipt and a follow-up that the
-- store admits, is always applied: neither a guard of the route state machine nor the reservation for
-- the follow-up refuses it. The lane becomes idle exactly when the work did not fail and nothing is
-- owed, and uncertain exactly when a failure exhausted its budget or work is owed beyond the bound on
-- consecutive follow-ups; the rows are left as `Leaves` says: an idle lane has a free slot and nothing
-- dirty, a lane with a ready follow-up has the follow-up and its generation in its slot and has handed
-- over all that was owed, and an uncertain lane keeps its slot while its route holds all lanes. An
-- uncertain lane keeps the group's slot too; any other passes it on to the waiting lane that comes
-- first, or leaves the group open where none waits.
pub complete_active_tx-applied :
    (store : Store) (group : GroupRow) (members : List Member) (req : ActiveCompletion)
    → IsCompletable store req
    → group.state ≡ group_held
    → group.holder_dispatch_id ≡ req.dispatch_id
    → (after : Store) × (left : GroupRow) × (out : FollowupCreated) × (complete_active_tx store
          (some group)
          members
          req
        ≡ ok (after, some left, out))
      × GoesBy (IsOwed store req) req out
      × Leaves req after out
      × HandsOver store group members out left
unfolding complete_active_tx
complete_active_tx-applied store group members req h held holder =
    let (after, out, applied, goes, leaves) = complete_active-applied store req h in
    let (left, released, passed) =
      release_group_slot-promotes group members store.route.route_id store.destination_id
        req.dispatch_id held holder in
    elim (left_at req after out leaves) [
      | inr (inr u) ↦ (after, group, out, rw (applied, u) refl, goes, leaves, inl (u, refl))
      | inr (inl r) ↦ (
        after,
        left,
        out,
        rw (applied, r, released) refl,
        goes,
        leaves,
        inr (ground arith, passed),
      )
      | inl i ↦ (
        after,
        left,
        out,
        rw (applied, i, released) refl,
        goes,
        leaves,
        inr (ground arith, passed),
      )
    ]
