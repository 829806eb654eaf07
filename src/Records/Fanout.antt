-- ===== src/Records/Fanout.antt =====
-- internal/domain/records/fanout.go: the origins of aggregate events, selection rows and canonical
-- lists of destinations. The validity of UTF-8 is a parameter.
pub mod Canonical
use agent_dispatch.Base.{
  Str, codes, str_eq, is_empty, any, all, if◌then◌else◌, Bool, true, false, ◌||◌, ◌&&◌, not, Option,
  none, some, List, [], ◌∷◌,
}
use agent_dispatch.Base.Ordering.{str_lt}
use agent_dispatch.Base.Sorting.{sort}

pub data AggregateOrigin : Type 0 where
  origin_arrival origin_followup origin_rerun origin_rebuild origin_reconcile : AggregateOrigin

-- a member of the closed set `aggregateOrigins`
unfoldable pub parse_aggregate_origin : Str → Option AggregateOrigin
parse_aggregate_origin s =
    if str_eq s (codes "arrival")
    then some origin_arrival
    else if str_eq s (codes "followup")
    then some origin_followup
    else if str_eq s (codes "rerun")
    then some origin_rerun
    else if str_eq s (codes "rebuild")
    then some origin_rebuild
    else if str_eq s (codes "reconcile")
    then some origin_reconcile
    else none

pub record DestinationSelection : Type 0 where
  pub destination_id : Str
  pub destination_revision : Str
  pub workstream : Str
  pub reason : Str

pub data SelectionFault : Type 0 where
  selection_incomplete selection_not_utf8 : SelectionFault

abbrev selection_texts : DestinationSelection → List Str
selection_texts s = s.destination_id ∷ s.destination_revision ∷ s.workstream ∷ s.reason ∷ []

module _ (valid_utf8 : Str → Bool) where
  unfoldable pub validate_selection : DestinationSelection → Option SelectionFault
  validate_selection s =
      if any is_empty (selection_texts s)
      then some selection_incomplete
      else if not (all valid_utf8 (selection_texts s))
      then some selection_not_utf8
      else none

-- `seen[dest]`
abbrev pub was_seen : List Str → Str → Bool
was_seen seen d = any (λ s. str_eq d s) seen

-- the loop of `CanonicalDestinations`
unfoldable pub distinct_loop : List Str → List Str → List Str
distinct_loop seen [] = []
distinct_loop seen (d ∷ ds) = elim (is_empty d || was_seen seen d) [
  | true ↦ distinct_loop seen ds
  | false ↦ d ∷ distinct_loop (d ∷ seen) ds
]

unfoldable pub canonical_destinations : List Str → List Str
canonical_destinations destinations = sort str_lt (distinct_loop [] destinations)

abbrev selection_less : DestinationSelection → DestinationSelection → Bool
selection_less a b =
    if not (str_eq a.destination_id b.destination_id)
    then str_lt a.destination_id b.destination_id
    else str_lt a.workstream b.workstream

unfoldable pub sort_selections : List DestinationSelection → List DestinationSelection
sort_selections selections = sort selection_less selections
