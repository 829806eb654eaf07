-- ===== src/Sync/Verification/Complete.antt =====
-- internal/domain/syncrecords/verification.go: `Verification.Validate` on a complete result.
use agent_dispatch.Base.{
  ◌≤◌, codes, str_eq, str_eq→eq, str_eq_iff, all, length, In, here, there, true, false, ◌≡◌, ◌≢◌,
  ◌⊎◌, refl, sym, subst, ◌∙◌, none, List, [], ◌∷◌, arith, Bool-cases, inl, inr,
}
use agent_dispatch.Base.Int.{leb_ℤ, pos, ◌≤ℤ◌}
use agent_dispatch.Sync.Membership.{has}
use agent_dispatch.Sync.Verification.{
  ExpectedNode, VerificationNode, Verification, max_evidence_age, clean_node, clean_pair,
  duplicates, expected_at, bound_node, nodes_ok, complete, validate_verification, bad_target_of,
}

-- What `Validate` demands of a complete verification.
abbrev pub Demands : Verification → Type 0
Demands v =
    (length v.expected_nodes ≡ 2)
    × (duplicates v.expected_nodes ≡ false)
    × (nodes_ok v [] v.nodes ≡ true)
    × (length v.nodes ≡ 2)
    × (all clean_node v.nodes ≡ true)

demands : (v : Verification) → validate_verification v ≡ none → v.result ≡ complete → Demands v
unfolding validate_verification bad_target_of clean_pair
demands v h e =
    let c : str_eq v.result complete ≡ true = (str_eq_iff v.result complete).1 e in
    ground (arith, h, c)

-- the node answers for the expected node
abbrev Answers : ExpectedNode → VerificationNode → Type 0
Answers e n = (n.instance_id ≡ e.instance_id) × (n.state_incarnation_id ≡ e.state_incarnation_id)

expected_at_two :
    (a b : ExpectedNode) (n : VerificationNode)
    → str_eq (expected_at (a ∷ b ∷ []) n.instance_id []) n.state_incarnation_id ≡ true
    → n.state_incarnation_id ≢ []
    → Answers a n ⊎ Answers b n
unfolding expected_at
expected_at_two a b n h ne = elim (Bool-cases (str_eq b.instance_id n.instance_id)) [
  | inl t ↦ inr (
    sym (str_eq→eq b.instance_id n.instance_id t),
    sym (str_eq→eq b.state_incarnation_id n.state_incarnation_id (ground (arith, h, t))),
  )
  | inr f ↦ elim (Bool-cases (str_eq a.instance_id n.instance_id)) [
    | inl t ↦ inl (
      sym (str_eq→eq a.instance_id n.instance_id t),
      sym (str_eq→eq a.state_incarnation_id n.state_incarnation_id (ground (arith, h, f, t))),
    )
    | inr g ↦
        (let q : str_eq [] n.state_incarnation_id ≡ true = ground (arith, h, f, g) in
          absurd (ne (sym (str_eq→eq [] n.state_incarnation_id q))))
  ]
]

-- two nodes of different instances that each answer for one of two
both_answered :
    (a b : ExpectedNode) (m n : VerificationNode)
    → m.instance_id ≢ n.instance_id
    → Answers a m ⊎ Answers b m
    → Answers a n ⊎ Answers b n
    → (Answers a m × Answers b n) ⊎ (Answers b m × Answers a n)
both_answered a b m n ne (inl p) (inl q) = absurd (ne (p.0 ∙ sym q.0))
both_answered a b m n ne (inl p) (inr q) = inl (p, q)
both_answered a b m n ne (inr p) (inl q) = inr (p, q)
both_answered a b m n ne (inr p) (inr q) = absurd (ne (p.0 ∙ sym q.0))

nodes_two :
    (v : Verification) (m n : VerificationNode)
    → nodes_ok v [] (m ∷ n ∷ []) ≡ true
    → (str_eq (expected_at v.expected_nodes m.instance_id []) m.state_incarnation_id ≡ true)
      × (str_eq (expected_at v.expected_nodes n.instance_id []) n.state_incarnation_id ≡ true)
      × (bound_node v m ≡ true)
      × (bound_node v n ≡ true)
      × (str_eq n.instance_id m.instance_id ≡ false)
unfolding nodes_ok has
nodes_two v m n h = ground arith

length-two {ℓ} : {A : Type ℓ} (xs : List A) → length xs ≡ 2 → (a : A) × (b : A) × (xs ≡ a ∷ b ∷ [])
length-two [] h = ground arith
length-two (a ∷ []) h = ground arith
length-two (a ∷ b ∷ []) h = (a, b, refl)
length-two (a ∷ b ∷ c ∷ xs) h = ground arith

-- one of the two nodes answers for the expected node
answered :
    (a b e : ExpectedNode) (m n : VerificationNode)
    → (Answers a m × Answers b n) ⊎ (Answers b m × Answers a n)
    → In e (a ∷ b ∷ [])
    → Answers e m ⊎ Answers e n
answered a b e m n (inl (p, q)) (here k) = inl (rw k p)
answered a b e m n (inl (p, q)) (there (here k)) = inr (rw k q)
answered a b e m n (inr (p, q)) (here k) = inr (rw k q)
answered a b e m n (inr (p, q)) (there (here k)) = inl (rw k p)
answered a b e m n s (there (there k)) = elim k [ ]

-- The node reports the verification's target, with a nonce of 16 to 128 bytes and evidence of a
-- positive generation that is at most 300 seconds old.

abbrev pub IsBound : Verification → VerificationNode → Type 0
IsBound v n =
    (n.membership_revision ≡ v.membership_revision)
    × (n.content_ref ≡ v.content_ref)
    × (n.target_commit ≡ v.target_commit)
    × (n.scope_digest ≡ v.scope_digest)
    × (n.contract_digest ≡ v.contract_digest)
    × (16 ≤ length n.nonce)
    × (length n.nonce ≤ 128)
    × (pos 1 ≤ℤ n.evidence_generation)
    × (pos 0 ≤ℤ n.evidence_age_seconds)
    × (n.evidence_age_seconds ≤ℤ pos 300)

-- The node is applied, with nothing dirty, pending or uncertain, under the current membership and on
-- fresh evidence.

abbrev pub IsClean : VerificationNode → Type 0
IsClean n =
    (n.state ≡ codes "applied")
    × (n.governed_dirty ≡ false)
    × (n.pending_work ≡ false)
    × (n.membership_current ≡ true)
    × (n.evidence_fresh ≡ true)
    × (n.uncertain ≡ false)

clean_node-IsClean : (n : VerificationNode) → clean_node n ≡ true → IsClean n
clean_node-IsClean n h = ground (arith, h, str_eq_iff n.state (codes "applied"))

bound_node-IsBound :
    (v : Verification) (n : VerificationNode)
    → bound_node v n ≡ true
    → leb_ℤ n.evidence_age_seconds max_evidence_age ≡ true
    → IsBound v n
unfolding bound_node
bound_node-IsBound v n h k = ground (
  arith,
  h,
  k,
  str_eq_iff n.membership_revision v.membership_revision,
  str_eq_iff n.content_ref v.content_ref,
  str_eq_iff n.target_commit v.target_commit,
  str_eq_iff n.scope_digest v.scope_digest,
  str_eq_iff n.contract_digest v.contract_digest,
)

-- what the loop leaves of a node, with the pair's cleanness
fresh_node :
    (v : Verification) (n : VerificationNode)
    → bound_node v n ≡ true
    → clean_node n ≡ true
    → leb_ℤ n.evidence_age_seconds max_evidence_age ≡ true
unfolding bound_node
fresh_node v n h k = elim (Bool-cases (leb_ℤ n.evidence_age_seconds max_evidence_age)) [
  | inl t ↦ t
  | inr f ↦ ground (arith, h, k, f)
]

-- A verification that `Validate` accepts as complete, each of whose nodes names a state incarnation,
-- has for each expected node a node of its instance and incarnation that reports the verification's
-- membership revision, content ref, target commit, scope and contract, with a nonce of 16 to 128
-- bytes, and is applied, with nothing dirty, pending or uncertain, under the current membership, on
-- evidence of a positive generation that is fresh and at most 300 seconds old.
pub validate_verification-covers :
    (v : Verification)
    → validate_verification v ≡ none
    → v.result ≡ complete
    → ((n : VerificationNode) → In n v.nodes → n.state_incarnation_id ≢ [])
    → (e : ExpectedNode) → In e v.expected_nodes
    → (n : VerificationNode) × In n v.nodes
      × (n.instance_id ≡ e.instance_id)
      × (n.state_incarnation_id ≡ e.state_incarnation_id)
      × IsBound v n
      × IsClean n
validate_verification-covers v h c named e k =
    let (two, apart, loop, pair, clean) = demands v h c in
    let (m, n, p) = length-two v.nodes pair in
    let (a, b, q) = length-two v.expected_nodes two in
    let (am, an, bm, bn, d) = nodes_two v m n (subst (λ ns. nodes_ok v [] ns ≡ true) p loop) in
    let cm : all clean_node (m ∷ n ∷ []) ≡ true = subst (λ ns. all clean_node ns ≡ true) p clean in
    let in_m : In m v.nodes = subst (λ ns. In m ns) (sym p) (here refl) in
    let in_n : In n v.nodes = subst (λ ns. In n ns) (sym p) (there (here refl)) in
    let answers_m : Answers a m ⊎ Answers b m =
      expected_at_two a b m
        (subst (λ es. str_eq (expected_at es m.instance_id []) m.state_incarnation_id ≡ true) q am)
        (named m in_m) in
    let answers_n : Answers a n ⊎ Answers b n =
      expected_at_two a b n
        (subst (λ es. str_eq (expected_at es n.instance_id []) n.state_incarnation_id ≡ true) q an)
        (named n in_n) in
    let differ : m.instance_id ≢ n.instance_id =
      λ i. ground (arith, d, (str_eq_iff n.instance_id m.instance_id).1 (sym i)) in
    elim (answered a b e m n (both_answered a b m n differ answers_m answers_n)
      (subst (λ es. In e es) q k)) [
        | inl (i, s) ↦
            (let clean_m : clean_node m ≡ true = ground (arith, cm) in
              (
                m,
                in_m,
                i,
                s,
                bound_node-IsBound v m bm (fresh_node v m bm clean_m),
                clean_node-IsClean m clean_m,
              ))
        | inr (i, s) ↦
            (let clean_n : clean_node n ≡ true = ground (arith, cm) in
              (
                n,
                in_n,
                i,
                s,
                bound_node-IsBound v n bn (fresh_node v n bn clean_n),
                clean_node-IsClean n clean_n,
              ))
      ]
