-- ===== src/Tests/Dispatches.antt =====
-- The planner and the selection of destinations.
use agent_dispatch.Base.{
  ◌*◌, Str, codes, ℕ, Bool, true, false, ◌≡◌, ◌≢◌, ◌↔◌, refl, some, List, [], ◌∷◌, ok, length,
  Option, str_eq, arith,
}
use agent_dispatch.Base.Int.{pos}
use agent_dispatch.Dispatch.Planner.Verdicts.{
  KeepsHold, IsOrdinary, LimitsPositive, evaluate_dispositions, evaluate_holds_protected,
}
use agent_dispatch.Dispatch.Selection.Chosen.{answers, IsSatisfied, select_destination_iff}
use agent_dispatch.Dispatch.Selection.{
  selection_reason_matched, any_path_matches, SelectionContext, select_destination,
  DestinationConditionSet,
}
use agent_dispatch.Dispatch.Planner.{
  evaluate, Plan, PlanChange, SourceFlags, Batch, Input, ChangeItem, RoutePolicy,
}
use agent_dispatch.Records.Enums.{
  disposition_drop, digest_unavailable, disposition_merge_pending, disposition_dispatch,
  file_regular, op_modify,
}

abbrev marshal : List PlanChange → Option ℕ
marshal cs = some (100 * length cs)

abbrev sort_strings : List Str → List Str
sort_strings ss = ss

abbrev policy : RoutePolicy
policy = record {
  route_id = codes "notes";
  route_revision = codes "r1";
  resource_id = codes "vault";
  automatic_threshold = pos 2;
  hard_limit = pos 4;
  max_manifest_bytes = pos 1000;
  bulk_action = codes "quarantine";
  overflow_action = codes "reconcile";
  fresh_instance_action = codes "reconcile";
  required_capabilities = [];
}

limits : LimitsPositive policy
limits = (omega arith, omega arith, omega arith)

abbrev change : ChangeItem
change = record {
  path = codes "keys/a";
  ordinal = pos 0;
  operation = op_modify;
  exists_after = true;
  file_type = file_regular;
  before_digest = [];
  after_digest = [];
  digest_status = digest_unavailable;
}

abbrev batch : Batch
batch = record {
  changes = change ∷ [];
  fingerprint = [];
  dropped = [];
  protected = codes "keys/a" ∷ [];
  immutable = [];
}

abbrev flags : SourceFlags
flags = record { overflow = true; fresh_instance = false; relative_root = []; has_relative = false }

abbrev input : Input
input = record { batch = some batch; flags = flags; active_dispatch_exists = false }

evaluate_dispositions_example :
    (plan : Plan) × (evaluate marshal sort_strings policy input ≡ ok plan)
    × ((plan.disposition ≡ disposition_dispatch)
        ↔ (IsOrdinary marshal sort_strings policy batch flags × (false ≡ false)))
    × ((plan.disposition ≡ disposition_merge_pending)
        ↔ (IsOrdinary marshal sort_strings policy batch flags × (false ≡ true)))
    × ((plan.disposition ≡ disposition_drop)
        ↔ ((flags.overflow ≡ false) × (flags.fresh_instance ≡ false) × (batch.changes ≡ [])))
evaluate_dispositions_example =
    evaluate_dispositions marshal sort_strings policy batch flags false limits

protected_path_present : batch.protected ≢ []
protected_path_present h = cc

evaluate_holds_protected_example :
    (plan : Plan) × (evaluate marshal sort_strings policy input ≡ ok plan)
    × KeepsHold marshal sort_strings batch flags plan
evaluate_holds_protected_example =
    evaluate_holds_protected marshal sort_strings policy batch flags false limits
      protected_path_present

abbrev occurrence : SelectionContext
occurrence = record {
  paths = codes "keys/a" ∷ [];
  operations = op_modify ∷ [];
  classification = codes "normal";
  disposition = codes "dispatch";
}

abbrev conditions : DestinationConditionSet
conditions = record {
  path_include = codes "keys/a" ∷ [];
  path_exclude = codes "keys/b" ∷ [];
  operations = codes "modify" ∷ codes "create" ∷ [];
  classifications = [];
  policy_outcomes = [];
}

-- This occurrence is selected for the conditions that it meets.
select_destination_run :
    select_destination {E = Str} occurrence (some conditions) (some (answers str_eq))
    ≡ ok (true, selection_reason_matched)
unfolding select_destination any_path_matches
select_destination_run = refl

select_destination_iff_example :
    (selected : Bool) × (reason : Str) × (select_destination {E = Str} occurrence
        (some conditions)
        (some (answers str_eq))
      ≡ ok (selected, reason))
    × ((selected ≡ true) ↔ IsSatisfied str_eq occurrence conditions)
select_destination_iff_example = select_destination_iff str_eq occurrence conditions
