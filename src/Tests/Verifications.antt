-- ===== src/Tests/Verifications.antt =====
-- Runs of the verification of a pair.
use agent_dispatch.Base.{
  ℕ, Str, codes, str_eq, str_eq_iff, replicate, In, here, there, true, false, ◌≡◌, ◌≢◌, refl, sym,
  ap, ◌∙◌, none, [], ◌∷◌, ◌++◌, arith, ◌*◌, ◌+◌, ◌≤◌, ◌<◌, leb,
}
use agent_dispatch.Base.Int.{pos}
use agent_dispatch.Sync.Patterns.{
  is_identity, is_incarnation, is_oid, is_digest, valid_content_ref, record_id,
}
use agent_dispatch.Sync.Membership.{has}
use agent_dispatch.Sync.Verification.{
  StatusResponse, ExpectedNode, VerificationNode, Verification, validate_verification,
  bad_target_of, expected_at, bound_node, nodes_ok, bad_outcome_of, complete, clean_pair,
  valid_status, node_from_status, evidence_age_seconds_since,
}
use agent_dispatch.Sync.Verification.Complete.{IsBound, IsClean, validate_verification-covers}
use agent_dispatch.Sync.Verification.Strangers.{stranger, with_nodes, strangers-complete}
use agent_dispatch.Sync.Verification.Age.{valid_status-age}

abbrev oid : Str
oid = replicate 40 b'0'

abbrev digest : Str
digest = codes "sha256:" ++ replicate 64 b'1'

abbrev node : Str → Str → VerificationNode
node id incarnation = record {
  instance_id = id;
  state_incarnation_id = incarnation;
  membership_revision = oid;
  content_ref = codes "refs/heads/main";
  target_commit = oid;
  scope_digest = digest;
  contract_digest = digest;
  nonce = replicate 16 b'n';
  state = codes "applied";
  evidence_generation = pos 1;
  evidence_age_seconds = pos 7;
  governed_dirty = false;
  pending_work = false;
  membership_current = true;
  evidence_fresh = true;
  uncertain = false;
}

abbrev first : VerificationNode
first = node (codes "node-a") (codes "incarnation-a")

abbrev second : VerificationNode
second = node (codes "node-b") (codes "incarnation-b")

abbrev expected_first : ExpectedNode
expected_first = record {
  instance_id = codes "node-a";
  state_incarnation_id = codes "incarnation-a";
}

abbrev expected_second : ExpectedNode
expected_second = record {
  instance_id = codes "node-b";
  state_incarnation_id = codes "incarnation-b";
}

abbrev pair : Verification
pair = record {
  schema_version = codes "agent-dispatch.sync-verification/v1";
  verification_id = codes "verification-1";
  group_id = codes "wiki";
  membership_revision = oid;
  content_ref = codes "refs/heads/main";
  target_commit = oid;
  scope_digest = digest;
  contract_digest = digest;
  phase = codes "finished";
  result = complete;
  expected_nodes = expected_first ∷ expected_second ∷ [];
  nodes = first ∷ second ∷ [];
  fence = pos 1;
  retain_until_resolved = false;
}

pair_validates : validate_verification pair ≡ none
unfolding validate_verification bad_target_of expected_at bound_node nodes_ok bad_outcome_of
    complete clean_pair has str_eq is_identity is_incarnation is_oid is_digest valid_content_ref
    record_id
pair_validates = refl

pair_named : (n : VerificationNode) → In n pair.nodes → n.state_incarnation_id ≢ []
pair_named n (here e) q =
    let bad : codes "incarnation-a" ≡ [] =
      sym (ap (λ (x : VerificationNode). x.state_incarnation_id) e) ∙ q in
    cc
pair_named n (there (here e)) q =
    let bad : codes "incarnation-b" ≡ [] =
      sym (ap (λ (x : VerificationNode). x.state_incarnation_id) e) ∙ q in
    cc
pair_named n (there (there m)) q = elim m [ ]

validate_verification-covers_example :
    (n : VerificationNode) × In n pair.nodes
    × (n.instance_id ≡ expected_second.instance_id)
    × (n.state_incarnation_id ≡ expected_second.state_incarnation_id)
    × IsBound pair n
    × IsClean n
validate_verification-covers_example =
    validate_verification-covers pair pair_validates refl pair_named expected_second
      (there (here refl))

differ : (s t : Str) → str_eq s t ≡ false → s ≢ t
differ s t f e = let q : str_eq s t ≡ true = (str_eq_iff s t).1 e in cc

unexpected :
    (id : Str)
    → str_eq (codes "node-a") id ≡ false
    → str_eq (codes "node-b") id ≡ false
    → (e : ExpectedNode) → In e pair.expected_nodes
    → e.instance_id ≢ id
unexpected id f g e (here k) q =
    differ (codes "node-a") id f (sym (ap (λ (x : ExpectedNode). x.instance_id) k) ∙ q)
unexpected id f g e (there (here k)) q =
    differ (codes "node-b") id g (sym (ap (λ (x : ExpectedNode). x.instance_id) k) ∙ q)
unexpected id f g e (there (there m)) q = elim m [ ]

x_unexpected : (e : ExpectedNode) → In e pair.expected_nodes → e.instance_id ≢ codes "x"
unfolding str_eq
x_unexpected = unexpected (codes "x") refl refl

y_unexpected : (e : ExpectedNode) → In e pair.expected_nodes → e.instance_id ≢ codes "y"
unfolding str_eq
y_unexpected = unexpected (codes "y") refl refl

x_is_not_y : codes "x" ≢ codes "y"
unfolding str_eq
x_is_not_y = differ (codes "x") (codes "y") refl

strangers-complete_example :
    validate_verification
      (with_nodes pair (stranger first (codes "x")) (stranger second (codes "y")))
    ≡ none
strangers-complete_example =
    strangers-complete pair first second (codes "x") (codes "y") pair_validates refl x_unexpected
      y_unexpected x_is_not_y

abbrev status : StatusResponse
status = record {
  schema_version = codes "agent-dispatch.sync-status-response/v1";
  group_id = codes "wiki";
  responder = codes "node-a";
  state_incarnation_id = codes "incarnation-a";
  membership_revision = oid;
  content_ref = codes "refs/heads/main";
  target_commit = oid;
  scope_digest = digest;
  contract_digest = digest;
  nonce = replicate 16 b'n';
  evidence_generation = pos 1;
  evidence_age_seconds = pos 3;
  state = codes "applied";
  governed_dirty = false;
  pending_work = false;
  membership_current = true;
  uncertain = false;
}

status_validates : valid_status status ≡ true
unfolding valid_status str_eq is_identity is_incarnation is_oid is_digest valid_content_ref
status_validates = refl

status_aged : status.evidence_age_seconds ≡ evidence_age_seconds_since (pos 2000000001)
unfolding evidence_age_seconds_since
status_aged = refl

valid_status-age_example :
    (a : ℕ) × (status.evidence_age_seconds ≡ pos a)
    × (2000000001 ≤ a * 1000000000)
    × (a * 1000000000 < 2000000001 + 1000000000)
    × ((node_from_status status).evidence_fresh ≡ leb 2000000001 300000000000)
valid_status-age_example =
    valid_status-age status 2000000001 (ground arith) (ground arith) status_validates status_aged
