-- ===== src/Sync/Verification/Strangers.antt =====
-- internal/domain/syncrecords/verification.go: the map that `Validate` reads gives `""` for an
-- instance that is not expected.
use agent_dispatch.Base.{
  Str, str_eq, str_eq→eq, str_eq_iff, In, here, there, true, false, ◌≡◌, ◌≢◌, refl, sym, none, List,
  [], ◌∷◌, arith, Bool-cases, inl, inr,
}
use agent_dispatch.Sync.Membership.{has}
use agent_dispatch.Sync.Verification.{
  ExpectedNode, VerificationNode, Verification, clean_pair, expected_at, bound_node, nodes_ok,
  complete, validate_verification, bad_target_of, bad_outcome_of,
}

-- the node under another instance, with no incarnation
abbrev pub stranger : VerificationNode → Str → VerificationNode
stranger n id = record n { instance_id = id; state_incarnation_id = [] }

abbrev pub with_nodes : Verification → VerificationNode → VerificationNode → Verification
with_nodes v m n = record v { nodes = m ∷ n ∷ [] }

-- no expected node has the instance
abbrev pub IsUnexpected : Verification → Str → Type 0
IsUnexpected v id = (e : ExpectedNode) → In e v.expected_nodes → e.instance_id ≢ id

expected_at_missing :
    (es : List ExpectedNode) (id found : Str)
    → ((e : ExpectedNode) → In e es → e.instance_id ≢ id)
    → expected_at es id found ≡ found
unfolding expected_at
expected_at_missing [] id found ne = refl
expected_at_missing (e ∷ es) id found ne = elim (Bool-cases (str_eq e.instance_id id)) [
  | inl t ↦ absurd (ne e (here refl) (str_eq→eq e.instance_id id t))
  | inr f ↦ rw f (expected_at_missing es id found (λ x k. ne x (there k)))
]

module _ (v : Verification) (m n : VerificationNode) (x y : Str) where
  abbrev before : Verification
  before = with_nodes v m n

  abbrev after : Verification
  after = with_nodes v (stranger m x) (stranger n y)

  stranger_bound :
      (k : VerificationNode) (id : Str) → bound_node after (stranger k id) ≡ bound_node before k
  unfolding bound_node
  stranger_bound k id = refl

  nodes_bound :
      nodes_ok before [] (m ∷ n ∷ []) ≡ true
      → (bound_node before m ≡ true) × (bound_node before n ≡ true)
  unfolding nodes_ok
  nodes_bound h = ground arith

  strangers_ok :
      expected_at v.expected_nodes x [] ≡ []
      → expected_at v.expected_nodes y [] ≡ []
      → x ≢ y
      → nodes_ok before [] (m ∷ n ∷ []) ≡ true
      → nodes_ok after [] (stranger m x ∷ stranger n y ∷ []) ≡ true
  unfolding nodes_ok has str_eq
  strangers_ok ux uy d h =
      let (bm, bn) = nodes_bound h in
      let differ : str_eq y x ≡ false = elim (Bool-cases (str_eq y x)) [
        | inr f ↦ f
        | inl t ↦ absurd (d (sym (str_eq→eq y x t)))
      ] in
      rw (ux, uy, stranger_bound m x, stranger_bound n y, bm, bn, differ)

  -- A complete verification of two nodes that `Validate` accepts is still accepted, and complete, when
  -- its nodes carry two different instances that are not expected, and no state incarnation.
  pub strangers-complete :
      validate_verification (with_nodes v m n) ≡ none
      → v.result ≡ complete
      → IsUnexpected v x
      → IsUnexpected v y
      → x ≢ y
      → validate_verification (with_nodes v (stranger m x) (stranger n y)) ≡ none
  unfolding validate_verification bad_target_of bad_outcome_of clean_pair
  strangers-complete h c ux uy d =
      let e : str_eq v.result complete ≡ true = (str_eq_iff v.result complete).1 c in
      let loop : nodes_ok before [] (m ∷ n ∷ []) ≡ true = ground (arith, h) in
      let after_loop : nodes_ok after [] (stranger m x ∷ stranger n y ∷ []) ≡ true =
        strangers_ok (expected_at_missing v.expected_nodes x [] ux)
          (expected_at_missing v.expected_nodes y [] uy) d loop in
      ground (arith, h, e, after_loop)
