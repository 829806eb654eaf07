-- ===== src/Tests/Sync.antt =====
-- Runs of the membership changes: a group of two members, one of them revoked, then replaced.
use agent_dispatch.Base.{
  ℕ, Str, codes, str_eq, replicate, In, here, there, true, false, ◌≡◌, ◌≢◌, refl, Option, none,
  some, List, [], ◌∷◌, ◌++◌, ok, err, Result, inl, inr, str_eq_iff, sym, ap, ◌∙◌, if◌then◌else◌,
}
use agent_dispatch.Base.Sorting.{sort}
use agent_dispatch.Base.Ordering.{str_lt}
use agent_dispatch.Sync.Patterns.{
  after, is_identity, is_incarnation, is_oid, is_digest, is_fingerprint, valid_content_ref,
  is_endpoint_host,
}
use agent_dispatch.Sync.Endpoint.{Url, parse_tailnet_endpoint}
use agent_dispatch.Sync.Membership.{
  ActiveMember, Membership, MembershipPlan, SyncError, normal, blocked_emergency, membership_schema,
  validate, accepted, removed_key_first_seen, has, bad_record, bad_oid, bad_blocked, check_shape,
  valid_historical, check_historical, valid_active, check_active, historical_less,
  normalize_membership,
}
use agent_dispatch.Sync.Membership.Change.{
  change_of, active_by_id, remove_active, valid_recovery, switch_change, apply_update,
  apply_bootstrap, apply_change,
}
use agent_dispatch.Sync.Membership.Plan.{
  authorize_publisher, plan_id, validate_plan, check_plan, bad_plan_binding, seal_plan, new_plan,
}
use agent_dispatch.Sync.Membership.Transition.{binding_of}
use agent_dispatch.Sync.Membership.Planned.{new_plan-Knows}
use agent_dispatch.Sync.Membership.Kept.{Knows}
use agent_dispatch.Sync.Membership.History.{Chain, start, then_plan, Chain-no_return}
use agent_dispatch.Sync.Membership.Revoked.{new_plan-authorize_publisher}

-- the parser of URLs on a text that is a scheme and a host

abbrev parse : Str → Option Url
parse raw = elim (after (codes "https://") raw) [
  | none ↦ none
  | some name ↦ some (record {
    scheme = codes "https";
    host = name;
    hostname = name;
    port = [];
    opaque = [];
    has_user = false;
    raw_query = [];
    force_query = false;
    fragment = [];
    raw_path = [];
    path = [];
  })
]

abbrev encode : MembershipPlan → Option Str
encode p = some (p.change_kind ++ p.target_instance)

abbrev digest : Str → Str
digest s = s

abbrev key : ℕ → Str
key c = codes "SHA256:" ++ replicate 42 c ++ codes "A"

abbrev oid : Str
oid = replicate 40 b'0'

abbrev member : Str → Str → ℕ → Str → ActiveMember
member id incarnation c url = record {
  instance_id = id;
  state_incarnation_id = incarnation;
  publisher_key = key c;
  endpoint = url;
}

abbrev first : ActiveMember
first = member (codes "node-a") (codes "incarnation-a") b'a' (codes "https://a.ts.net")

abbrev second : ActiveMember
second = member (codes "node-b") (codes "incarnation-b") b'b' (codes "https://b.ts.net")

abbrev third : ActiveMember
third = member (codes "node-c") (codes "incarnation-c") b'c' (codes "https://c.ts.net")

abbrev group : Membership
group = record {
  schema_version = membership_schema;
  group_id = codes "wiki";
  predecessor = some oid;
  content_ref = codes "refs/heads/main";
  content_binding = codes "sha256:" ++ replicate 64 b'1';
  contract_digest = codes "sha256:" ++ replicate 64 b'2';
  mode = normal;
  block_reason = [];
  administrator_key = key b'z';
  active_members = first ∷ second ∷ [];
  historical_members = [];
}

abbrev planned : Str → Str → Membership → List ActiveMember → Result SyncError MembershipPlan
planned kind target current desired =
    new_plan parse encode digest kind target (some current) (some oid) desired (binding_of group)

abbrev no_plan : MembershipPlan
no_plan = record {
  schema_version = [];
  plan_id = [];
  group_id = [];
  change_kind = [];
  target_instance = [];
  expected_predecessor = none;
  proposed_membership = group;
  administrator_key = [];
}

abbrev made : Result SyncError MembershipPlan → MembershipPlan
made (ok plan) = plan
made (err _) = no_plan

abbrev revoking : MembershipPlan
revoking = made (planned (codes "emergency_revocation") (codes "node-a") group [])

group-IsValid : validate parse group ≡ ok accepted
unfolding validate check_shape bad_record bad_oid bad_blocked check_active check_historical
    valid_active valid_historical has str_eq normal blocked_emergency is_identity is_incarnation
    is_oid is_digest is_fingerprint valid_content_ref parse_tailnet_endpoint is_endpoint_host
group-IsValid = refl

revoking_made : planned (codes "emergency_revocation") (codes "node-a") group [] ≡ ok revoking
unfolding new_plan apply_change apply_bootstrap apply_update change_of switch_change active_by_id
    remove_active seal_plan plan_id validate_plan check_plan bad_plan_binding normalize_membership
    sort historical_less str_lt validate check_shape bad_record bad_oid bad_blocked check_active
    check_historical valid_active valid_historical has str_eq normal blocked_emergency is_identity
    is_incarnation is_oid is_digest is_fingerprint valid_content_ref parse_tailnet_endpoint
    is_endpoint_host
revoking_made = refl

abbrev recovering : MembershipPlan
recovering = made (
    planned (codes "replacement") (codes "node-c") revoking.proposed_membership
      (second ∷ third ∷ []))

recovering_made :
    planned
      (codes "replacement")
      (codes "node-c")
      revoking.proposed_membership
      (second ∷ third ∷ [])
    ≡ ok recovering
unfolding new_plan apply_change apply_bootstrap apply_update change_of switch_change active_by_id
    remove_active valid_recovery seal_plan plan_id validate_plan check_plan bad_plan_binding
    normalize_membership sort historical_less str_lt validate check_shape bad_record bad_oid
    bad_blocked check_active check_historical valid_active valid_historical has str_eq normal
    blocked_emergency is_identity is_incarnation is_oid is_digest is_fingerprint valid_content_ref
    parse_tailnet_endpoint is_endpoint_host
recovering_made = refl

to_revoked : Chain parse encode digest group revoking.proposed_membership
to_revoked =
    then_plan (codes "emergency_revocation") (codes "node-a") (some oid) [] (binding_of group)
      revoking start revoking_made

to_recovered : Chain parse encode digest revoking.proposed_membership recovering.proposed_membership
to_recovered =
    then_plan (codes "replacement") (codes "node-c") (some oid) (second ∷ third ∷ [])
      (binding_of group) recovering start recovering_made

second_differs : codes "incarnation-b" ≢ codes "incarnation-a"
unfolding str_eq
second_differs e =
    let q : str_eq (codes "incarnation-b") (codes "incarnation-a") ≡ true = (str_eq_iff _ _).1 e in
    cc

first_gone :
    (b : ActiveMember)
    → In b revoking.proposed_membership.active_members
    → b.state_incarnation_id ≢ first.state_incarnation_id
unfolding new_plan apply_change apply_bootstrap apply_update change_of switch_change active_by_id
    remove_active valid_recovery seal_plan plan_id validate_plan check_plan bad_plan_binding
    normalize_membership sort historical_less str_lt validate check_shape bad_record bad_oid
    bad_blocked check_active check_historical valid_active valid_historical has str_eq normal
    blocked_emergency is_identity is_incarnation is_oid is_digest is_fingerprint valid_content_ref
    parse_tailnet_endpoint is_endpoint_host
first_gone b (here e) q =
    second_differs (sym (ap (λ (m : ActiveMember). m.state_incarnation_id) e) ∙ q)
first_gone b (there m) q = elim m [ ]

third-In : In third recovering.proposed_membership.active_members
unfolding new_plan apply_change apply_bootstrap apply_update change_of switch_change active_by_id
    remove_active valid_recovery seal_plan plan_id validate_plan check_plan bad_plan_binding
    normalize_membership sort historical_less str_lt validate check_shape bad_record bad_oid
    bad_blocked check_active check_historical valid_active valid_historical has str_eq normal
    blocked_emergency is_identity is_incarnation is_oid is_digest is_fingerprint valid_content_ref
    parse_tailnet_endpoint is_endpoint_host
third-In = there (here refl)

Chain-no_return_example : third.state_incarnation_id ≢ first.state_incarnation_id
Chain-no_return_example =
    Chain-no_return parse encode digest first.state_incarnation_id group-IsValid
      (inl (first, here refl, refl)) to_revoked first_gone to_recovered third third-In

new_plan-Knows_example : Knows revoking.proposed_membership first.state_incarnation_id
new_plan-Knows_example =
    new_plan-Knows parse encode digest (codes "emergency_revocation") (codes "node-a") group
      (some oid) [] (binding_of group) revoking revoking_made group-IsValid first (here refl)

new_plan-authorize_publisher_example :
    (authorize_publisher group revoking.proposed_membership first.publisher_key false false ≡ (
      if str_eq first.instance_id (codes "node-a")
      then err removed_key_first_seen
      else ok accepted))
    × (authorize_publisher group revoking.proposed_membership first.publisher_key true false
        ≡ ok accepted)
    × (authorize_publisher group revoking.proposed_membership first.publisher_key false true
        ≡ ok accepted)
new_plan-authorize_publisher_example =
    new_plan-authorize_publisher parse encode digest (codes "emergency_revocation") (codes "node-a")
      group (some oid) [] (binding_of group) revoking (inr refl) revoking_made group-IsValid first
      (here refl)
