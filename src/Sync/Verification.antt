-- ===== src/Sync/Verification.antt =====
-- internal/domain/syncrecords/peer.go and verification.go: the status that a peer reports and the
-- verification of a pair, each with its `Validate`. The JSON decoders are not modelled.
pub mod Complete
pub mod Strangers
pub mod Age
use agent_dispatch.Base.{
  ℕ, ◌+◌, ◌-◌, ◌/◌, ◌%◌, ◌^◌, zero, suc, Str, codes, str_eq, any, all, length, leb, ltb, ◌==◌,
  if◌then◌else◌, Bool, true, false, ◌&&◌, ◌||◌, not, Option, none, some, List, [], ◌∷◌,
}
use agent_dispatch.Base.Int.{ℤ, pos, negsuc, leb_ℤ}
use agent_dispatch.Sync.Patterns.{
  is_identity, is_incarnation, is_oid, is_digest, valid_content_ref, record_id,
}
use agent_dispatch.Sync.Membership.{has}

abbrev pub second : ℕ
second = 1000000000

-- an `int64` by its bits
abbrev pub int64 : ℕ → ℤ
int64 n = let r : ℕ = n % 2 ^ 64 in if ltb r (2 ^ 63) then pos r else negsuc (2 ^ 64 - r - 1)

-- Go's `-` on what is not negative
abbrev pub minus : ℕ → ℤ
minus zero = pos 0
minus (suc n) = negsuc n

-- Go's `/` by a positive divisor, toward zero
abbrev pub quotient : ℤ → ℕ → ℤ
quotient (pos n) d = pos (n / d)
quotient (negsuc n) d = minus (suc n / d)

unfoldable pub evidence_age_seconds_since : ℤ → ℤ
evidence_age_seconds_since (negsuc n) = pos 0
evidence_age_seconds_since (pos zero) = pos 0
evidence_age_seconds_since (pos (suc n)) = quotient (int64 (suc n + (second - 1))) second

abbrev pub max_evidence_age : ℤ
max_evidence_age = pos 300

pub record StatusResponse : Type 0 where
  pub schema_version : Str
  pub group_id : Str
  pub responder : Str
  pub state_incarnation_id : Str
  pub membership_revision : Str
  pub content_ref : Str
  pub target_commit : Str
  pub scope_digest : Str
  pub contract_digest : Str
  pub nonce : Str
  pub evidence_generation : ℤ
  pub evidence_age_seconds : ℤ
  pub state : Str
  pub governed_dirty : Bool
  pub pending_work : Bool
  pub membership_current : Bool
  pub uncertain : Bool

pub record ExpectedNode : Type 0 where
  pub instance_id : Str
  pub state_incarnation_id : Str

pub record VerificationNode : Type 0 where
  pub instance_id : Str
  pub state_incarnation_id : Str
  pub membership_revision : Str
  pub content_ref : Str
  pub target_commit : Str
  pub scope_digest : Str
  pub contract_digest : Str
  pub nonce : Str
  pub state : Str
  pub evidence_generation : ℤ
  pub evidence_age_seconds : ℤ
  pub governed_dirty : Bool
  pub pending_work : Bool
  pub membership_current : Bool
  pub evidence_fresh : Bool
  pub uncertain : Bool

pub record Verification : Type 0 where
  pub schema_version : Str
  pub verification_id : Str
  pub group_id : Str
  pub membership_revision : Str
  pub content_ref : Str
  pub target_commit : Str
  pub scope_digest : Str
  pub contract_digest : Str
  pub phase : Str
  pub result : Str
  pub expected_nodes : List ExpectedNode
  pub nodes : List VerificationNode
  pub fence : ℤ
  pub retain_until_resolved : Bool

abbrev bad_nonce : Str → Bool
bad_nonce nonce = ltb (length nonce) 16 || ltb 128 (length nonce)

abbrev is_status_state : Str → Bool
is_status_state s =
    any (λ t. str_eq s (codes t))
      ("applied" ∷ "behind" ∷ "ahead" ∷ "local_dirty" ∷ "joining" ∷ "paused" ∷ "blocked" ∷ "unknown"
        ∷ [])

-- `StatusResponse.Validate`: is there no error
unfoldable pub valid_status : StatusResponse → Bool
valid_status r =
    str_eq r.schema_version (codes "agent-dispatch.sync-status-response/v1")
    && is_identity r.group_id
    && is_identity r.responder
    && is_incarnation r.state_incarnation_id
    && is_oid r.membership_revision
    && valid_content_ref r.content_ref
    && is_oid r.target_commit
    && is_digest r.scope_digest
    && is_digest r.contract_digest
    && not (bad_nonce r.nonce)
    && leb_ℤ (pos 1) r.evidence_generation
    && leb_ℤ (pos 0) r.evidence_age_seconds
    && is_status_state r.state

unfoldable pub node_from_status : StatusResponse → VerificationNode
node_from_status r = record {
  instance_id = r.responder;
  state_incarnation_id = r.state_incarnation_id;
  membership_revision = r.membership_revision;
  content_ref = r.content_ref;
  target_commit = r.target_commit;
  scope_digest = r.scope_digest;
  contract_digest = r.contract_digest;
  nonce = r.nonce;
  state = r.state;
  evidence_generation = r.evidence_generation;
  evidence_age_seconds = r.evidence_age_seconds;
  governed_dirty = r.governed_dirty;
  pending_work = r.pending_work;
  membership_current = r.membership_current;
  evidence_fresh = leb_ℤ r.evidence_age_seconds max_evidence_age;
  uncertain = r.uncertain;
}

abbrev pub clean_node : VerificationNode → Bool
clean_node n =
    str_eq n.state (codes "applied")
    && not n.governed_dirty
    && not n.pending_work
    && n.membership_current
    && n.evidence_fresh
    && not n.uncertain

unfoldable pub clean_pair : Verification → Bool
clean_pair v = length v.nodes == 2 && all clean_node v.nodes

pub data VerificationError : Type 0 where
  bad_target duplicate_expected bad_expected unbound_node bad_outcome : VerificationError
  no_clean_pair not_retained : VerificationError

unfoldable pub bad_target_of : Verification → Bool
bad_target_of v =
    not (str_eq v.schema_version (codes "agent-dispatch.sync-verification/v1"))
    || not (record_id v.verification_id)
    || not (is_identity v.group_id)
    || not (is_oid v.membership_revision)
    || not (valid_content_ref v.content_ref)
    || not (is_oid v.target_commit)
    || not (is_digest v.scope_digest)
    || not (is_digest v.contract_digest)
    || not (leb_ℤ (pos 1) v.fence)
    || not (length v.expected_nodes == 2)
    || ltb 2 (length v.nodes)

abbrev pub duplicates : List ExpectedNode → Bool
duplicates (a ∷ b ∷ _) =
    str_eq a.instance_id b.instance_id || str_eq a.state_incarnation_id b.state_incarnation_id
duplicates _ = false

abbrev pub expected_ok : ExpectedNode → Bool
expected_ok e = is_identity e.instance_id && is_incarnation e.state_incarnation_id

-- `expected[id]` once the loop has filled the map: a missing key reads as `""`
unfoldable pub expected_at : List ExpectedNode → Str → Str → Str
expected_at [] id found = found
expected_at (e ∷ es) id found =
    expected_at es id (if str_eq e.instance_id id then e.state_incarnation_id else found)

-- the checks of a node that read the verification's target and the node alone
unfoldable pub bound_node : Verification → VerificationNode → Bool
bound_node v n =
    str_eq n.membership_revision v.membership_revision
    && str_eq n.content_ref v.content_ref
    && str_eq n.target_commit v.target_commit
    && str_eq n.scope_digest v.scope_digest
    && str_eq n.contract_digest v.contract_digest
    && not (bad_nonce n.nonce)
    && leb_ℤ (pos 1) n.evidence_generation
    && leb_ℤ (pos 0) n.evidence_age_seconds
    && (if leb_ℤ n.evidence_age_seconds max_evidence_age
        then n.evidence_fresh
        else not n.evidence_fresh)

-- the loop over the nodes, with `seen`
unfoldable pub nodes_ok : Verification → List Str → List VerificationNode → Bool
nodes_ok v seen [] = true
nodes_ok v seen (n ∷ ns) =
    not (has seen n.instance_id)
    && str_eq (expected_at v.expected_nodes n.instance_id []) n.state_incarnation_id
    && bound_node v n
    && nodes_ok v (n.instance_id ∷ seen) ns

unfoldable pub complete : Str
complete = codes "complete"

abbrev is_result : Str → Bool
is_result s =
    str_eq s complete
    || any (λ t. str_eq s (codes t)) ("incomplete" ∷ "target_changed" ∷ "blocked" ∷ "expired" ∷ [])

unfoldable pub bad_outcome_of : Verification → Bool
bad_outcome_of v = not (str_eq v.phase (codes "finished")) || not (is_result v.result)

unfoldable pub validate_verification : Verification → Option VerificationError
validate_verification v =
    if bad_target_of v
    then some bad_target
    else if duplicates v.expected_nodes
    then some duplicate_expected
    else if not (all expected_ok v.expected_nodes)
    then some bad_expected
    else if not (nodes_ok v [] v.nodes)
    then some unbound_node
    else if bad_outcome_of v
    then some bad_outcome
    else if str_eq v.result complete
    then if not (clean_pair v) || v.retain_until_resolved then some no_clean_pair else none
    else if not v.retain_until_resolved
    then some not_retained
    else none
