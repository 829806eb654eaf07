-- ===== src/Dispatch/Selection.antt =====
-- internal/app/dispatch/selection.go: which destinations of a route one occurrence selects. The
-- caller's path matcher is `match_path`, and `none` the nil one; its error is what it says.
pub mod Chosen
use agent_dispatch.Base.{
  Str, codes, str_eq, is_empty, any, if◌then◌else◌, Bool, true, false, ◌&&◌, not, Option, none,
  some, List, [], ◌∷◌, ◌++◌, map, ok, err, Result, ◌>>=◌,
}
use agent_dispatch.Records.Enums.{Operation, operation_text}

pub record SelectionContext : Type 0 where
  pub paths : List Str
  pub operations : List Operation
  pub classification : Str
  pub disposition : Str

pub record DestinationConditionSet : Type 0 where
  pub path_include : List Str
  pub path_exclude : List Str
  pub operations : List Str
  pub classifications : List Str
  pub policy_outcomes : List Str

abbrev pub selection_reason_unconditional : Str
selection_reason_unconditional = codes "unconditional"

abbrev pub selection_reason_matched : Str
selection_reason_matched = codes "conditions-matched"

abbrev pub selection_not_matched : Str → Str
selection_not_matched class = codes "conditions-not-matched:" ++ class

abbrev pub contains : List Str → Str → Bool
contains values want = any (λ v. str_eq v want) values

abbrev any_string_in : List Str → List Str → Bool
any_string_in candidates allowed = any (λ candidate. contains allowed candidate) candidates

abbrev operations_as_strings : List Operation → List Str
operations_as_strings ops = map operation_text ops

pub data SelectionError (E : Type 0) : Type 0 where
  needs_matcher : SelectionError E
  path_condition : Str → E → SelectionError E

abbrev is_unconditional : DestinationConditionSet → Bool
is_unconditional conds =
    is_empty conds.path_include
    && is_empty conds.path_exclude
    && is_empty conds.operations
    && is_empty conds.classifications
    && is_empty conds.policy_outcomes

-- the classes that the matcher is not asked for
abbrev select_by_values : SelectionContext → DestinationConditionSet → Bool × Str
select_by_values ctx conds =
    if not (is_empty conds.operations)
      && not (any_string_in (operations_as_strings ctx.operations) conds.operations)
    then (false, selection_not_matched (codes "operations"))
    else if not (is_empty conds.classifications)
        && not (contains conds.classifications ctx.classification)
    then (false, selection_not_matched (codes "classifications"))
    else if not (is_empty conds.policy_outcomes)
        && not (contains conds.policy_outcomes ctx.disposition)
    then (false, selection_not_matched (codes "policy_outcomes"))
    else (true, selection_reason_matched)

module _ {E : Type 0} where
  -- the loop over the paths, for one pattern
  unfoldable pub pattern_matches :
      (Str → Str → Result E Bool) → Str → List Str → Result (SelectionError E) Bool
  pattern_matches match_path pattern [] = ok false
  pattern_matches match_path pattern (path ∷ paths) =
      let rest = pattern_matches match_path pattern paths in
      elim (match_path pattern path) [
        | err e ↦ err (path_condition pattern e)
        | ok matched ↦ if matched then ok true else rest
      ]

  unfoldable pub patterns_match :
      (Str → Str → Result E Bool) → List Str → List Str → Result (SelectionError E) Bool
  unfolding pattern_matches
  patterns_match match_path paths [] = ok false
  patterns_match match_path paths (pattern ∷ patterns) =
      let rest = patterns_match match_path paths patterns in
      pattern_matches match_path pattern paths >>= λ matched. if matched then ok true else rest

  unfoldable pub any_path_matches :
      List Str → List Str → Option (Str → Str → Result E Bool) → Result (SelectionError E) Bool
  unfolding patterns_match
  any_path_matches paths patterns none = err needs_matcher
  any_path_matches paths patterns (some match_path) = patterns_match match_path paths patterns

  -- A class that is absent is not asked for: `absent` is what its test then counts as.
  abbrev class_test :
      SelectionContext
      → List Str
      → Option (Str → Str → Result E Bool)
      → Bool
      → Result (SelectionError E) Bool
  class_test ctx patterns match_path absent =
      if is_empty patterns then ok absent else any_path_matches ctx.paths patterns match_path

  unfoldable pub select_destination :
      SelectionContext
      → Option DestinationConditionSet
      → Option (Str → Str → Result E Bool)
      → Result (SelectionError E) (Bool × Str)
  unfolding str_eq
  select_destination ctx none match_path = ok (true, selection_reason_unconditional)
  select_destination ctx (some conds) match_path =
      if is_unconditional conds
      then ok (true, selection_reason_unconditional)
      else class_test ctx conds.path_include match_path true >>= λ included.
          if not included
          then ok (false, selection_not_matched (codes "path_include"))
          else class_test ctx conds.path_exclude match_path false >>= λ excluded.
              if excluded
              then ok (false, selection_not_matched (codes "path_exclude"))
              else ok (select_by_values ctx conds)
