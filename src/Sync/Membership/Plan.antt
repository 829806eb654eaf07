-- ===== src/Sync/Membership/Plan.antt =====
-- internal/domain/syncrecords/membership.go: `NewPlan`, `Validate` of a plan, `ValidateTransition`
-- and `AuthorizePublisher`. The encoder of JSON and SHA-256 belong to Go's library: `marshal`, the
-- bytes that `planID` hashes (`none` is an error), and `sha256_hex`.
use agent_dispatch.Base.{
  Str, codes, str_eq, is_empty, any, if◌then◌else◌, Bool, true, false, ◌&&◌, ◌||◌, not, Option,
  none, some, List, [], ◌∷◌, ◌++◌, ok, err, Result, ◌>>=◌,
}
use agent_dispatch.Sync.Patterns.{is_identity, is_fingerprint, is_oid}
use agent_dispatch.Sync.Endpoint.{Url}
use agent_dispatch.Sync.Membership.{
  update_predecessor, bootstrap_predecessor, bad_change, bad_canonical, plan_binding, bad_plan_id,
  key_inactive, ActiveMember, Membership, MembershipPlan, Binding, SyncError, Accepted, accepted,
  RecordFault, invalid_record, invalid_transition, removed_key_first_seen, normal,
  membership_schema, validate, normalize_membership,
}
use agent_dispatch.Sync.Membership.Change.{change_of, apply_change}

abbrev plan_schema : Str
plan_schema = codes "agent-dispatch.sync-membership-plan/v1"

-- `valid_change kind`
abbrev valid_change : Str → Bool
valid_change kind = elim (change_of kind) [ none ↦ false | some _ ↦ true ]

unfoldable pub active_key : Membership → Str → Bool
active_key m key = any (λ a. str_eq a.publisher_key key) m.active_members

unfoldable pub authorize_publisher :
    Membership → Membership → Str → Bool → Bool → Result SyncError Accepted
authorize_publisher at_revision current key previously_verified checkpoint =
    if not (active_key at_revision key)
    then err (invalid_transition key_inactive)
    else if active_key current key || previously_verified || checkpoint
    then ok accepted
    else err removed_key_first_seen

-- what `NewPlan` proposes before the change
abbrev pub proposal : Option Membership → Option Str → List ActiveMember → Binding → Membership
proposal current pred desired b = record {
  schema_version = membership_schema;
  group_id = b.group_id;
  predecessor = pred;
  content_ref = b.content_ref;
  content_binding = b.content_binding;
  contract_digest = b.contract_digest;
  mode = normal;
  block_reason = [];
  administrator_key = b.administrator_key;
  active_members = desired;
  historical_members = elim current [ none ↦ [] | some m ↦ m.historical_members ];
}

abbrev both_missing : Option Str → Option Str → Bool
both_missing none none = true
both_missing _ _ = false

abbrev same_oid : Option Str → Option Str → Bool
same_oid (some a) (some b) = str_eq a b && is_oid a
same_oid _ _ = false

unfoldable pub bad_plan_binding : MembershipPlan → Bool
bad_plan_binding p =
    not (str_eq p.schema_version plan_schema)
    || not (is_identity p.group_id)
    || not (str_eq p.group_id p.proposed_membership.group_id)
    || not (str_eq p.administrator_key p.proposed_membership.administrator_key)
    || not (is_fingerprint p.administrator_key)

-- the checks of a plan's `Validate` before the proposed membership's
unfoldable pub check_plan : MembershipPlan → Option RecordFault
check_plan p =
    if bad_plan_binding p
    then some plan_binding
    else if not (valid_change p.change_kind)
        || (not (is_empty p.target_instance) && not (is_identity p.target_instance))
    then some bad_change
    else if str_eq p.change_kind (codes "bootstrap")
    then if not (both_missing p.expected_predecessor p.proposed_membership.predecessor)
        || not (is_empty p.target_instance)
      then some bootstrap_predecessor
      else none
    else if is_empty p.target_instance
        || not (same_oid p.expected_predecessor p.proposed_membership.predecessor)
    then some update_predecessor
    else none

-- the plan that `NewPlan` builds, its identity still empty
abbrev pub unsealed : Str → Str → Option Str → Binding → Membership → MembershipPlan
unsealed kind target pred b changed = record {
  schema_version = plan_schema;
  plan_id = [];
  group_id = b.group_id;
  change_kind = kind;
  target_instance = target;
  expected_predecessor = pred;
  proposed_membership = normalize_membership changed;
  administrator_key = b.administrator_key;
}

module _ (parse_url : Str → Option Url) (marshal : MembershipPlan → Option Str)
    (sha256_hex : Str → Str) where
  unfoldable pub plan_id : MembershipPlan → Option Str
  plan_id p =
      elim (marshal (record p {
        plan_id = [];
        proposed_membership = normalize_membership p.proposed_membership;
      })) [
        | none ↦ none
        | some raw ↦ some (
            codes "membership-"
            ++ sha256_hex (codes "agent-dispatch.sync-membership-plan-id/v1" ++ 0 ∷ raw ++ 10 ∷ []))
      ]

  abbrev pub check_id : MembershipPlan → Result SyncError Accepted
  check_id p = elim (plan_id p) [
    | none ↦ err (invalid_record bad_plan_id)
    | some want ↦ if str_eq p.plan_id want then ok accepted else err (invalid_record bad_plan_id)
  ]

  unfoldable pub validate_plan : MembershipPlan → Result SyncError Accepted
  validate_plan p = elim (check_plan p) [
    | some f ↦ err (invalid_record f)
    | none ↦ validate parse_url p.proposed_membership >>= λ _. check_id p
  ]

  -- the plan with its identity, as `Validate` accepts it
  abbrev pub identified : MembershipPlan → Option Str → Result SyncError MembershipPlan
  identified plan none = err (invalid_record bad_canonical)
  identified plan (some id) =
      validate_plan (record plan { plan_id = id }) >>= λ _. ok (record plan { plan_id = id })

  -- `NewPlan` after `applyChange`
  unfoldable pub seal_plan :
      Str → Str → Option Str → Binding → Membership → Result SyncError MembershipPlan
  seal_plan kind target pred b changed =
      identified (unsealed kind target pred b changed)
        (plan_id (unsealed kind target pred b changed))

  unfoldable pub new_plan :
      Str
      → Str
      → Option Membership
      → Option Str
      → List ActiveMember
      → Binding
      → Result SyncError MembershipPlan
  new_plan kind target current pred desired b =
      apply_change parse_url kind target current (proposal current pred desired b)
      >>= seal_plan kind target pred b
