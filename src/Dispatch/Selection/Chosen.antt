-- ===== src/Dispatch/Selection/Chosen.antt =====
-- The destinations that an occurrence selects: OR within a present class of conditions, AND between
-- the classes, and nothing asked of an absent one.
use agent_dispatch.Base.{
  Str, Bool, true, false, ◌≡◌, ◌≢◌, ◌↔◌, ◌⊎◌, inl, inr, some, List, [], ◌∷◌, ok, Result, arith, In,
  any, any-In, In-any, map, str_eq, str_eq_iff, refl, Result-cases, err, ||-true, subst, In-map,
  here, there,
}
use agent_dispatch.Records.Enums.{Operation, operation_text}
use agent_dispatch.Dispatch.Selection.{
  SelectionContext, DestinationConditionSet, contains, SelectionError, pattern_matches,
  patterns_match, any_path_matches, select_destination, any_string_in, operations_as_strings,
}

contains_iff : (values : List Str) (want : Str) → (contains values want ≡ true) ↔ In want values
contains_iff values want = (
  λ h.
      let (v, m, e) = any-In (λ v. str_eq v want) values h in
      subst (λ w. In w values) ((str_eq_iff v want).0 e) m,
  λ m. In-any (λ v. str_eq v want) want values m ((str_eq_iff want want).1 refl),
)

-- Some operation of the occurrence is among the allowed ones.

abbrev pub SomeOperation : List Operation → List Str → Type 0
SomeOperation ops allowed = (op : Operation) × In op ops × In (operation_text op) allowed

operations_iff :
    (ops : List Operation) (allowed : List Str)
    → (any_string_in (operations_as_strings ops) allowed ≡ true) ↔ SomeOperation ops allowed
operations_iff [] allowed = (λ h. cc, λ (op, m, k). elim m [ ])
operations_iff (op ∷ ops) allowed = (
  λ h. elim (||-true _ _ h) [
    | inl e ↦ (op, here refl, (contains_iff allowed (operation_text op)).0 e)
    | inr e ↦ let (o, m, k) = (operations_iff ops allowed).0 e in (o, there m, k)
  ],
  λ (o, m, k).
      In-any (λ c. contains allowed c) (operation_text o) (map operation_text (op ∷ ops))
        (In-map operation_text m) ((contains_iff allowed (operation_text o)).1 k),
)

module _ (test : Str → Str → Bool) where
  some_match : List Str → List Str → Bool
  some_match paths patterns = any (λ pattern. any (λ path. test pattern path) paths) patterns

  -- Some path of the occurrence matches one of the patterns.

  abbrev pub SomeMatch : List Str → List Str → Type 0
  SomeMatch paths patterns =
      (pattern : Str) × In pattern patterns
      × (path : Str) × In path paths
      × (test pattern path ≡ true)

  some_match_iff :
      (paths patterns : List Str) → (some_match paths patterns ≡ true) ↔ SomeMatch paths patterns
  unfolding some_match
  some_match_iff paths patterns = (
    λ h.
        let (pattern, m, e) = any-In (λ p. any (λ q. test p q) paths) patterns h in
        let (path, n, k) = any-In (λ q. test pattern q) paths e in (pattern, m, path, n, k),
    λ (pattern, m, path, n, k).
        In-any (λ p. any (λ q. test p q) paths) pattern patterns m
          (In-any (λ q. test pattern q) path paths n k),
  )

  some_match_none : (paths patterns : List Str) → patterns ≡ [] → some_match paths patterns ≡ false
  unfolding some_match
  some_match_none paths [] h = refl
  some_match_none paths (p ∷ patterns) h = cc

  -- Every class that is present is satisfied.

  abbrev pub IsSatisfied : SelectionContext → DestinationConditionSet → Type 0
  IsSatisfied ctx conds =
      ((conds.path_include ≡ []) ⊎ SomeMatch ctx.paths conds.path_include)
      × (SomeMatch ctx.paths conds.path_exclude → ⊥)
      × ((conds.operations ≡ []) ⊎ SomeOperation ctx.operations conds.operations)
      × ((conds.classifications ≡ []) ⊎ In ctx.classification conds.classifications)
      × ((conds.policy_outcomes ≡ []) ⊎ In ctx.disposition conds.policy_outcomes)

module _ {E : Type 0} (test : Str → Str → Bool) where
  -- The caller's matcher, where it never fails.
  abbrev pub answers : Str → Str → Result E Bool
  answers pattern path = ok (test pattern path)

  pattern_matches_lem :
      (pattern : Str) (paths : List Str)
      → pattern_matches answers pattern paths ≡ ok (any (λ path. test pattern path) paths)
  unfolding pattern_matches
  pattern_matches_lem pattern [] = refl
  pattern_matches_lem pattern (path ∷ paths) = ground (arith, pattern_matches_lem pattern paths)

  patterns_match_lem :
      (paths patterns : List Str)
      → patterns_match answers paths patterns ≡ ok (some_match test paths patterns)
  unfolding patterns_match some_match
  patterns_match_lem paths [] = refl
  patterns_match_lem paths (pattern ∷ patterns) =
      rw (pattern_matches_lem pattern paths, patterns_match_lem paths patterns) (ground arith)

  any_path_matches_lem :
      (paths patterns : List Str)
      → any_path_matches paths patterns (some answers) ≡ ok (some_match test paths patterns)
  unfolding any_path_matches
  any_path_matches_lem paths patterns = patterns_match_lem paths patterns

  selected_iff :
      (ctx : SelectionContext) (conds : DestinationConditionSet) (b : Bool) (r : Str)
      → select_destination {E = E} ctx (some conds) (some answers) ≡ ok (b, r)
      → (b ≡ true) ↔ IsSatisfied test ctx conds
  unfolding select_destination
  selected_iff ctx conds b r e = ground (
    arith,
    any_path_matches_lem ctx.paths conds.path_include,
    any_path_matches_lem ctx.paths conds.path_exclude,
    some_match_iff test ctx.paths conds.path_include,
    some_match_iff test ctx.paths conds.path_exclude,
    some_match_none test ctx.paths conds.path_exclude,
    operations_iff ctx.operations conds.operations,
    contains_iff conds.classifications ctx.classification,
    contains_iff conds.policy_outcomes ctx.disposition,
  )

  never_fails :
      (ctx : SelectionContext) (conds : DestinationConditionSet) (x : SelectionError E)
      → select_destination ctx (some conds) (some answers) ≢ err x
  unfolding select_destination
  never_fails ctx conds x e = ground (
    arith,
    any_path_matches_lem ctx.paths conds.path_include,
    any_path_matches_lem ctx.paths conds.path_exclude,
  )

  -- With a matcher that never fails, the evaluation of a condition set answers, and it selects the
  -- destination exactly when every condition class that is present is satisfied.
  pub select_destination_iff :
      (ctx : SelectionContext) (conds : DestinationConditionSet)
      → (selected : Bool) × (reason : Str) × (select_destination ctx (some conds) (some answers)
          ≡ ok (selected, reason))
        × ((selected ≡ true) ↔ IsSatisfied test ctx conds)
  select_destination_iff ctx conds =
      elim (Result-cases (select_destination ctx (some conds) (some answers))) [
        | inl ((b, r), e) ↦ (b, r, e, selected_iff ctx conds b r e)
        | inr (x, e) ↦ absurd (never_fails ctx conds x e)
      ]
