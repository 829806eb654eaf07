-- ===== src/Sync/Membership.antt =====
-- internal/domain/syncrecords/membership.go: the records, and `Validate` of a membership. A list that
-- is nil in Go is the empty list. The closed texts of the source are `abbrev`s.
pub mod Change
pub mod Plan
pub mod Distinct
pub mod Kept
pub mod Moves
pub mod Transition
pub mod Planned
pub mod History
pub mod Revoked
use agent_dispatch.Base.{
  ℕ, Str, codes, str_eq, is_empty, any, length, leb, ◌==◌, if◌then◌else◌, Bool, true, false, ◌&&◌,
  ◌||◌, not, Option, none, some, List, [], ◌∷◌, ◌++◌, ok, err, Result, ltb,
}
use agent_dispatch.Base.Sorting.{sort}
use agent_dispatch.Base.Ordering.{str_lt}
use agent_dispatch.Sync.Patterns.{
  is_identity, is_incarnation, is_oid, is_digest, is_fingerprint, valid_content_ref,
}
use agent_dispatch.Sync.Endpoint.{Url, parse_tailnet_endpoint}

pub record ActiveMember : Type 0 where
  pub instance_id : Str
  pub state_incarnation_id : Str
  pub publisher_key : Str
  pub endpoint : Str

pub record HistoricalMember : Type 0 where
  pub instance_id : Str
  pub state_incarnation_id : Str
  pub state : Str
  pub publisher_key : Str
  pub reason : Str

pub record Membership : Type 0 where
  pub schema_version : Str
  pub group_id : Str
  pub predecessor : Option Str
  pub content_ref : Str
  pub content_binding : Str
  pub contract_digest : Str
  pub mode : Str
  pub block_reason : Str
  pub administrator_key : Str
  pub active_members : List ActiveMember
  pub historical_members : List HistoricalMember

pub record MembershipPlan : Type 0 where
  pub schema_version : Str
  pub plan_id : Str
  pub group_id : Str
  pub change_kind : Str
  pub target_instance : Str
  pub expected_predecessor : Option Str
  pub proposed_membership : Membership
  pub administrator_key : Str

pub record Binding : Type 0 where
  pub group_id : Str
  pub content_ref : Str
  pub content_binding : Str
  pub contract_digest : Str
  pub administrator_key : Str

pub data RecordFault : Type 0 where
  bad_binding bad_predecessor too_much_history not_two_active not_blocked bad_mode : RecordFault
  bad_active bad_historical plan_binding bad_change bootstrap_predecessor : RecordFault
  update_predecessor bad_canonical bad_plan_id : RecordFault

pub data TransitionFault : Type 0 where
  bad_bootstrap no_membership no_target target_inactive not_endpoint_update : TransitionFault
  not_key_rotation not_incarnation not_replacement not_recovery bad_current_mode : TransitionFault
  unsupported_change not_unique key_inactive : TransitionFault

-- `ErrInvalidRecord` and `ErrInvalidTransition`, each with the reason given, and
-- `ErrRemovedKeyFirstSeen`
pub data SyncError : Type 0 where
  invalid_record : RecordFault → SyncError
  invalid_transition : TransitionFault → SyncError
  removed_key_first_seen : SyncError

-- a `nil` error
pub data Accepted : Type 0 where
  accepted : Accepted

abbrev pub membership_schema : Str
membership_schema = codes "agent-dispatch.sync-membership/v1"

unfoldable pub normal : Str
normal = codes "normal"

unfoldable pub blocked_emergency : Str
blocked_emergency = codes "blocked_emergency"

-- a map from texts to `true`: the keys
unfoldable pub has : List Str → Str → Bool
has seen k = any (λ s. str_eq k s) seen

unfoldable pub bad_record : Membership → Bool
bad_record m =
    not (str_eq m.schema_version membership_schema)
    || not (is_identity m.group_id)
    || not (valid_content_ref m.content_ref)
    || not (is_digest m.content_binding)
    || not (is_digest m.contract_digest)
    || not (is_fingerprint m.administrator_key)

unfoldable pub bad_oid : Option Str → Bool
bad_oid none = false
bad_oid (some p) = not (is_oid p)

unfoldable pub bad_blocked : Membership → Bool
bad_blocked m =
    ltb 1 (length m.active_members)
    || (not (str_eq m.block_reason (codes "emergency_revocation"))
        && not (str_eq m.block_reason (codes "active_member_shortfall")))

-- the checks of `Validate` before its loops
unfoldable pub check_shape : Membership → Option RecordFault
check_shape m =
    if bad_record m
    then some bad_binding
    else if bad_oid m.predecessor
    then some bad_predecessor
    else if ltb 1000 (length m.historical_members)
    then some too_much_history
    else if str_eq m.mode normal
    then if not (length m.active_members == 2) || not (is_empty m.block_reason)
      then some not_two_active
      else none
    else if str_eq m.mode blocked_emergency
    then if bad_blocked m then some not_blocked else none
    else some bad_mode

unfoldable pub valid_historical : HistoricalMember → Bool
valid_historical m =
    is_identity m.instance_id
    && is_incarnation m.state_incarnation_id
    && is_fingerprint m.publisher_key
    && (str_eq m.state (codes "retired") || str_eq m.state (codes "revoked"))
    && any (λ r. str_eq m.reason (codes r))
        ("planned_replacement" ∷ "incarnation_rotation" ∷ "key_rotation" ∷ "credential_compromise"
          ∷ "operator_revocation" ∷ [])

-- `instances`, `incarnations` and `activeKeys` of the loop over the active members
pub record Seen : Type 0 where
  pub instances : List Str
  pub incarnations : List Str
  pub active_keys : List Str

abbrev pub see : Seen → ActiveMember → Seen
see s m = record {
  instances = m.instance_id ∷ s.instances;
  incarnations = m.state_incarnation_id ∷ s.incarnations;
  active_keys = m.publisher_key ∷ s.active_keys;
}

abbrev pub history_key : HistoricalMember → Str
history_key m = m.instance_id ++ 0 ∷ m.state_incarnation_id ++ 0 ∷ m.publisher_key

-- the loop over the historical members, with `incarnations` and `historyIdentity`
unfoldable pub check_historical :
    Str → List Str → List Str → List HistoricalMember → Option RecordFault
check_historical admin incarnations identities [] = none
check_historical admin incarnations identities (m ∷ ms) =
    if not (valid_historical m)
      || has incarnations m.state_incarnation_id
      || has identities (history_key m)
      || str_eq m.publisher_key admin
    then some bad_historical
    else check_historical admin (m.state_incarnation_id ∷ incarnations) (history_key m ∷ identities)
        ms

-- what `check` found, as the Go error
abbrev pub outcome : Option RecordFault → Result SyncError Accepted
outcome none = ok accepted
outcome (some f) = err (invalid_record f)

module _ (parse_url : Str → Option Url) where
  unfoldable pub valid_active : ActiveMember → Bool
  valid_active m =
      is_identity m.instance_id
      && is_incarnation m.state_incarnation_id
      && is_fingerprint m.publisher_key
      && elim (parse_tailnet_endpoint parse_url m.endpoint) [ ok _ ↦ true | err _ ↦ false ]

  -- the loop over the active members: what it has seen at its end
  unfoldable pub check_active : Str → Seen → List ActiveMember → Option Seen
  check_active admin s [] = some s
  check_active admin s (m ∷ ms) =
      if not (valid_active m)
        || has s.instances m.instance_id
        || has s.incarnations m.state_incarnation_id
        || has s.active_keys m.publisher_key
        || str_eq m.publisher_key admin
      then none
      else check_active admin (see s m) ms

  abbrev pub check_members : Membership → Option Seen → Option RecordFault
  check_members m none = some bad_active
  check_members m (some s) =
      check_historical m.administrator_key s.incarnations [] m.historical_members

  unfoldable pub validate : Membership → Result SyncError Accepted
  validate m = elim (check_shape m) [
    | some f ↦ err (invalid_record f)
    | none ↦ outcome (
        check_members m (
          check_active m.administrator_key
            (record { instances = []; incarnations = []; active_keys = [] }) m.active_members))
  ]

-- the order of `normalizeMembership` on the historical members
unfoldable pub historical_less : HistoricalMember → HistoricalMember → Bool
historical_less a b =
    if not (str_eq a.instance_id b.instance_id)
    then str_lt a.instance_id b.instance_id
    else str_lt a.state_incarnation_id b.state_incarnation_id

unfoldable pub normalize_membership : Membership → Membership
normalize_membership m = record m {
  active_members = sort (λ a b. str_lt a.instance_id b.instance_id) m.active_members;
  historical_members = sort historical_less m.historical_members;
}
