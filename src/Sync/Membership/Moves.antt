-- ===== src/Sync/Membership/Moves.antt =====
-- internal/domain/syncrecords/membership.go: what the branches of `applyChange` propose.
use agent_dispatch.Base.{
  ok_injective, Str, codes, In, ok_injective, true, ◌≡◌, ◌≢◌, ◌⊎◌, refl, sym, Option, none, some,
  List, arith, Option-cases, ok, inl, inr,
}
use agent_dispatch.Sync.Endpoint.{Url}
use agent_dispatch.Sync.Membership.{ActiveMember, Membership}
use agent_dispatch.Sync.Membership.Change.{
  Change, bootstrap, endpoint_update, key_rotation, replacement, retirement, emergency_revocation,
  incarnation_registration, endpoint_only, key_and_incarnation, incarnation_only, same_except,
  retains, count_retained, with_history, valid_replacement, valid_recovery, switch_change,
}
use agent_dispatch.Sync.Membership.Kept.{
  remove_active-keeps, all-In, retains-In, count_retained-In, same_except-retains,
  same_except-endpoint,
}

-- every active member of the first list but the target's is in the second

abbrev pub Retains : Str → List ActiveMember → List ActiveMember → Type 0
Retains target old new = (m : ActiveMember) → In m old → m.instance_id ≢ target → In m new

abbrev pub Names : List ActiveMember → List ActiveMember → Type 0
Names old new =
    (m : ActiveMember)
    → In m old
    → (b : ActiveMember) × In b new × (b.state_incarnation_id ≡ m.state_incarnation_id)

-- What an accepted change proposes: the target's member moves to the history, or no active
-- incarnation leaves.
abbrev pub Moves : Str → Membership → Membership → Option ActiveMember → Membership → Type 0
Moves target current proposed o next =
    ((old : ActiveMember) × (s : Str) × (r : Str) × (p : Membership) × (o ≡ some old)
      × (next ≡ with_history p old s r)
      × (p.historical_members ≡ proposed.historical_members)
      × Retains target current.active_members p.active_members)
    ⊎ ((next ≡ proposed) × Names current.active_members proposed.active_members)

valid_replacement-Retains :
    (old desired : List ActiveMember) (target : Str)
    → valid_replacement old desired target ≡ true
    → Retains target old desired
unfolding valid_replacement
valid_replacement-Retains old desired target h m k ne =
    elim (Option-cases (count_retained desired target 0 old)) [
      | inl n ↦ ground (arith, h, n)
      | inr (n, e) ↦ count_retained-In desired old target 0 n m e k ne
    ]

module _ (parse_url : Str → Option Url) where
  valid_recovery-Names :
      (old desired : List ActiveMember) (target : Str)
      → valid_recovery parse_url old desired target ≡ true
      → Names old desired
  unfolding valid_recovery
  valid_recovery-Names old desired target h m k =
      (m, retains-In desired m (all-In (retains desired) old m (ground (arith, h)) k), refl)

  pub switch_change-Moves :
      (c : Change) (target : Str) (current proposed next : Membership) (o : Option ActiveMember)
      → switch_change parse_url c target current proposed o ≡ ok next
      → Moves target current proposed o next
  unfolding switch_change
  switch_change-Moves bootstrap target current proposed next o h = cc
  switch_change-Moves retirement target current proposed next none h = cc
  switch_change-Moves retirement target current proposed next (some old) h = inl (
    old,
    _,
    _,
    _,
    refl,
    sym (ok_injective h),
    refl,
    remove_active-keeps current.active_members target,
  )
  switch_change-Moves emergency_revocation target current proposed next none h = cc
  switch_change-Moves emergency_revocation target current proposed next (some old) h = inl (
    old,
    _,
    _,
    _,
    refl,
    sym (ok_injective h),
    refl,
    remove_active-keeps current.active_members target,
  )
  switch_change-Moves endpoint_update target current proposed next none h = cc
  switch_change-Moves endpoint_update target current proposed next (some old) h =
      let s : same_except current.active_members proposed.active_members target endpoint_only
          ≡ true =
        ground (arith, h) in
      inr (
        ground (arith, h),
        λ m. same_except-endpoint proposed.active_members current.active_members target m s,
      )
  switch_change-Moves key_rotation target current proposed next none h = cc
  switch_change-Moves key_rotation target current proposed next (some old) h =
      let s : same_except current.active_members proposed.active_members target key_and_incarnation
          ≡ true =
        ground (arith, h) in
      inl (
        old,
        codes "retired",
        codes "key_rotation",
        proposed,
        refl,
        ground (arith, h),
        refl,
        λ m.
            same_except-retains proposed.active_members current.active_members target
              key_and_incarnation m s,
      )
  switch_change-Moves incarnation_registration target current proposed next none h = cc
  switch_change-Moves incarnation_registration target current proposed next (some old) h =
      let s : same_except current.active_members proposed.active_members target incarnation_only
          ≡ true =
        ground (arith, h) in
      inl (
        old,
        codes "retired",
        codes "incarnation_rotation",
        proposed,
        refl,
        ground (arith, h),
        refl,
        λ m.
            same_except-retains proposed.active_members current.active_members target
              incarnation_only m s,
      )
  switch_change-Moves replacement target current proposed next none h =
      let v : valid_recovery parse_url current.active_members proposed.active_members target
          ≡ true =
        ground (arith, h) in
      inr (
        ground (arith, h),
        valid_recovery-Names current.active_members proposed.active_members target v,
      )
  switch_change-Moves replacement target current proposed next (some old) h =
      let v : valid_replacement current.active_members proposed.active_members target ≡ true =
        ground (arith, h) in
      inl (
        old,
        codes "retired",
        codes "planned_replacement",
        proposed,
        refl,
        ground (arith, h),
        refl,
        valid_replacement-Retains current.active_members proposed.active_members target v,
      )
