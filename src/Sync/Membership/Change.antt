-- ===== src/Sync/Membership/Change.antt =====
-- internal/domain/syncrecords/membership.go: the changes of a membership, `applyChange` and what it
-- calls. `change_of` reads the text of a change for the `switch`.
use agent_dispatch.Base.{
  ℕ, suc, Str, codes, str_eq, is_empty, all, length, leb, ◌==◌, if◌then◌else◌, Bool, true, false,
  ◌&&◌, ◌||◌, not, Option, none, some, List, [], ◌∷◌, ◌++◌, ok, err, Result, ◌>>=◌,
}
use agent_dispatch.Sync.Endpoint.{Url}
use agent_dispatch.Sync.Membership.{
  bad_current_mode, not_recovery, not_replacement, not_incarnation, not_key_rotation,
  not_endpoint_update, no_target, target_inactive, unsupported_change, no_membership, bad_bootstrap,
  ActiveMember, HistoricalMember, Membership, SyncError, TransitionFault, invalid_transition,
  normal, blocked_emergency, valid_active, validate,
}

pub data Change : Type 0 where
  bootstrap endpoint_update key_rotation replacement retirement : Change
  emergency_revocation incarnation_registration : Change

unfoldable pub change_of : Str → Option Change
change_of kind =
    if str_eq kind (codes "bootstrap")
    then some bootstrap
    else if str_eq kind (codes "endpoint_update")
    then some endpoint_update
    else if str_eq kind (codes "key_rotation")
    then some key_rotation
    else if str_eq kind (codes "replacement")
    then some replacement
    else if str_eq kind (codes "retirement")
    then some retirement
    else if str_eq kind (codes "emergency_revocation")
    then some emergency_revocation
    else if str_eq kind (codes "incarnation_registration")
    then some incarnation_registration
    else none

-- the fields that `sameExcept` lets change
pub data Allowed : Type 0 where
  endpoint_only key_and_incarnation incarnation_only : Allowed

unfoldable pub active_by_id : List ActiveMember → Str → Option ActiveMember
active_by_id [] id = none
active_by_id (m ∷ ms) id = if str_eq m.instance_id id then some m else active_by_id ms id

unfoldable pub remove_active : List ActiveMember → Str → List ActiveMember
remove_active [] id = []
remove_active (m ∷ ms) id =
    let rest = remove_active ms id in if not (str_eq m.instance_id id) then m ∷ rest else rest

abbrev pub historical : ActiveMember → Str → Str → HistoricalMember
historical m s r = record {
  instance_id = m.instance_id;
  state_incarnation_id = m.state_incarnation_id;
  state = s;
  publisher_key = m.publisher_key;
  reason = r;
}

-- Go's `==` on the records
abbrev pub same_member : ActiveMember → ActiveMember → Bool
same_member a b =
    str_eq a.instance_id b.instance_id
    && str_eq a.state_incarnation_id b.state_incarnation_id
    && str_eq a.publisher_key b.publisher_key
    && str_eq a.endpoint b.endpoint

abbrev allowed_change : Allowed → ActiveMember → ActiveMember → Bool
allowed_change endpoint_only before after =
    not (str_eq before.endpoint after.endpoint)
    && str_eq before.state_incarnation_id after.state_incarnation_id
    && str_eq before.publisher_key after.publisher_key
allowed_change key_and_incarnation before after =
    not (str_eq before.publisher_key after.publisher_key)
    && not (str_eq before.state_incarnation_id after.state_incarnation_id)
    && str_eq before.endpoint after.endpoint
allowed_change incarnation_only before after =
    not (str_eq before.state_incarnation_id after.state_incarnation_id)
    && str_eq before.publisher_key after.publisher_key
    && str_eq before.endpoint after.endpoint

-- one turn of the loop of `sameExcept`
abbrev pub allows : Str → Allowed → ActiveMember → Option ActiveMember → Bool
allows target a before none = false
allows target a before (some after) =
    if not (str_eq before.instance_id target)
    then same_member before after
    else allowed_change a before after

unfoldable pub same_loop : List ActiveMember → Str → Allowed → Bool → List ActiveMember → Bool
same_loop desired target a changed [] = changed
same_loop desired target a changed (before ∷ old) =
    allows target a before (active_by_id desired before.instance_id)
    && same_loop desired target a (changed || str_eq before.instance_id target) old

unfoldable pub same_except : List ActiveMember → List ActiveMember → Str → Allowed → Bool
same_except old desired target a =
    length old == length desired && same_loop desired target a false old

abbrev pub retains : List ActiveMember → ActiveMember → Bool
retains desired m = elim (active_by_id desired m.instance_id) [
  | none ↦ false
  | some after ↦ same_member after m
]

-- the loop of `validReplacement`: `retained` at its end
unfoldable pub count_retained : List ActiveMember → Str → ℕ → List ActiveMember → Option ℕ
count_retained desired target retained [] = some retained
count_retained desired target retained (m ∷ old) =
    if str_eq m.instance_id target
    then count_retained desired target retained old
    else if retains desired m
    then count_retained desired target (suc retained) old
    else none

abbrev is_one : Option ℕ → Bool
is_one none = false
is_one (some n) = n == 1

abbrev is_none {ℓ} : {A : Type ℓ} → Option A → Bool
is_none none = true
is_none (some _) = false

unfoldable pub valid_replacement : List ActiveMember → List ActiveMember → Str → Bool
valid_replacement old desired target =
    length old == 2
    && length desired == 2
    && is_one (count_retained desired target 0 old)
    && is_none (active_by_id desired target)

abbrev fail : TransitionFault → Result SyncError Membership
fail f = err (invalid_transition f)

abbrev pub with_history : Membership → ActiveMember → Str → Str → Membership
with_history proposed old s r = record proposed {
  historical_members = proposed.historical_members ++ historical old s r ∷ [];
}

-- the branch of `retirement` and `emergency_revocation`
abbrev pub remove_member :
    Membership → Membership → Str → ActiveMember → Str → Str → Str → Membership
remove_member current proposed target old s r block =
    with_history
      (record proposed {
        active_members = remove_active current.active_members target;
        mode = blocked_emergency;
        block_reason = block;
      })
      old s r

module _ (parse_url : Str → Option Url) where
  unfoldable pub valid_recovery : List ActiveMember → List ActiveMember → Str → Bool
  valid_recovery old desired target =
      leb (length old) 1
      && length desired == 2
      && elim (active_by_id desired target) [
        | none ↦ false
        | some added ↦ valid_active parse_url added
      ]
      && all (retains desired) old

  -- the `switch` on the change, given the target's active member: what is proposed
  unfoldable pub switch_change :
      Change → Str → Membership → Membership → Option ActiveMember → Result SyncError Membership
  switch_change bootstrap target current proposed old = fail unsupported_change
  switch_change retirement target current proposed none = fail target_inactive
  switch_change retirement target current proposed (some old) = ok (
      remove_member current proposed target old (codes "retired") (codes "planned_replacement")
        (codes "active_member_shortfall"))
  switch_change emergency_revocation target current proposed none = fail target_inactive
  switch_change emergency_revocation target current proposed (some old) = ok (
      remove_member current proposed target old (codes "revoked") (codes "credential_compromise")
        (codes "emergency_revocation"))
  switch_change endpoint_update target current proposed none = fail not_endpoint_update
  switch_change endpoint_update target current proposed (some old) =
      if length current.active_members == 2
        && same_except current.active_members proposed.active_members target endpoint_only
      then ok proposed
      else fail not_endpoint_update
  switch_change key_rotation target current proposed none = fail not_key_rotation
  switch_change key_rotation target current proposed (some old) =
      if length current.active_members == 2
        && same_except current.active_members proposed.active_members target key_and_incarnation
      then ok (with_history proposed old (codes "retired") (codes "key_rotation"))
      else fail not_key_rotation
  switch_change incarnation_registration target current proposed none = fail not_incarnation
  switch_change incarnation_registration target current proposed (some old) =
      if length current.active_members == 2
        && same_except current.active_members proposed.active_members target incarnation_only
      then ok (with_history proposed old (codes "retired") (codes "incarnation_rotation"))
      else fail not_incarnation
  switch_change replacement target current proposed old =
      if str_eq current.mode normal
      then elim old [
        | none ↦ fail not_replacement
        | some m ↦
            if valid_replacement current.active_members proposed.active_members target
            then ok (with_history proposed m (codes "retired") (codes "planned_replacement"))
            else fail not_replacement
      ]
      else if str_eq current.mode blocked_emergency
      then if is_none old && valid_recovery current.active_members proposed.active_members target
        then ok proposed
        else fail not_recovery
      else fail bad_current_mode

  -- `return proposed.Validate()`
  abbrev pub validated : Membership → Result SyncError Membership
  validated proposed = elim (validate parse_url proposed) [ err e ↦ err e | ok _ ↦ ok proposed ]

  unfoldable pub apply_bootstrap :
      Str → Option Membership → Membership → Result SyncError Membership
  apply_bootstrap target (some _) proposed = fail bad_bootstrap
  apply_bootstrap target none proposed =
      if not (is_empty target) || not (length proposed.active_members == 2)
      then fail bad_bootstrap
      else validated proposed

  -- a change other than `bootstrap`
  unfoldable pub apply_update :
      Option Change → Str → Membership → Membership → Result SyncError Membership
  apply_update change target current proposed =
      if is_none proposed.predecessor
      then fail no_membership
      else if is_empty target
      then fail no_target
      else elim change [
        | none ↦ fail unsupported_change
        | some c ↦
            switch_change c target current proposed (active_by_id current.active_members target)
            >>= validated
      ]

  unfoldable pub apply_change :
      Str → Str → Option Membership → Membership → Result SyncError Membership
  apply_change kind target current proposed =
      if str_eq kind (codes "bootstrap")
      then apply_bootstrap target current proposed
      else elim current [
        | none ↦ fail no_membership
        | some m ↦ apply_update (change_of kind) target m proposed
      ]
