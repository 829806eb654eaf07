-- ===== src/Dispatch/Planner.antt =====
-- internal/app/dispatch/planner.go: the structural policy planner, with the parts of
-- internal/app/ingest/batch.go and of internal/domain/records/change.go that it reads. A slice that
-- `append` grows is a list; the set of classifications is the list of those that were set.
-- `json.Marshal` and `sort.Strings` belong to Go's library: `marshal`, the number of bytes or an
-- error, and `sort_strings`.
pub mod Verdicts
use agent_dispatch.Base.{
  Str, codes, str_eq, is_empty, any, if◌then◌else◌, Bool, true, false, ◌&&◌, ◌||◌, not, Option,
  none, some, List, [], ◌∷◌, ◌++◌, map, length, ℕ, ◌+◌, ◌*◌, ok, err, Result,
}
use agent_dispatch.Base.Int.{ℤ, pos, leb_ℤ}
use agent_dispatch.Records.Enums
use mathlib.Core.Logic.{ite}
use agent_dispatch.Records.Enums.{
  gen_create_if_idle, disposition_dispatch, gen_increment_dirty, class_unknown, class_stale,
  disposition_merge_pending, gen_merge_reconcile, class_bulk, disposition_reconcile,
  class_protected, gen_none, DigestStatus, digest_status_text, class_overflow, class_malformed,
  GenerationAction, file_type_text, disposition_drop, FileType, classification_text,
  disposition_quarantine, operation_text, Classification, Operation, class_normal, Disposition,
}

pub data ReasonCode : Type 0 where
  no_meaningful_changes protected_path immutable_path batch_over_hard_limit : ReasonCode
  manifest_over_limit over_threshold overflow_signal fresh_instance_signal : ReasonCode
  active_dispatch normal_batch unchanged_modify create_delete_never : ReasonCode

pub ReasonCode-discrete : Discrete ReasonCode
ReasonCode-discrete = hlevel

abbrev pub reason_code_text : ReasonCode → Str
reason_code_text no_meaningful_changes = codes "no_meaningful_changes"
reason_code_text protected_path = codes "protected_path_present"
reason_code_text immutable_path = codes "immutable_path_present"
reason_code_text batch_over_hard_limit = codes "batch_over_hard_limit"
reason_code_text manifest_over_limit = codes "manifest_over_limit"
reason_code_text over_threshold = codes "over_automatic_threshold"
reason_code_text overflow_signal = codes "overflow_signal"
reason_code_text fresh_instance_signal = codes "fresh_instance"
reason_code_text active_dispatch = codes "active_dispatch_exists"
reason_code_text normal_batch = codes "normal_batch"
reason_code_text unchanged_modify = codes "unchanged_content"
reason_code_text create_delete_never = codes "create_delete_never_existed"

pub record RoutePolicy : Type 0 where
  pub route_id : Str
  pub route_revision : Str
  pub resource_id : Str
  pub automatic_threshold : ℤ
  pub hard_limit : ℤ
  pub max_manifest_bytes : ℤ
  pub bulk_action : Str
  pub overflow_action : Str
  pub fresh_instance_action : Str
  pub required_capabilities : List Str

pub record ChangeItem : Type 0 where
  pub path : Str
  pub ordinal : ℤ
  pub operation : Operation
  pub exists_after : Bool
  pub file_type : FileType
  pub before_digest : Str
  pub after_digest : Str
  pub digest_status : DigestStatus

pub record SourceFlags : Type 0 where
  pub overflow : Bool
  pub fresh_instance : Bool
  pub relative_root : Str
  pub has_relative : Bool

pub record DropRecord : Type 0 where
  pub path : Str
  pub reason : Str

-- the fields of `ingest.Result` that the planner reads
pub record Batch : Type 0 where
  pub changes : List ChangeItem
  pub fingerprint : Str
  pub dropped : List DropRecord
  pub protected : List Str
  pub immutable : List Str

-- `none` is the nil batch.
pub record Input : Type 0 where
  pub batch : Option Batch
  pub flags : SourceFlags
  pub active_dispatch_exists : Bool

pub record PlanChange : Type 0 where
  pub path : Str
  pub operation : Str
  pub exists_after : Bool
  pub file_type : Str
  pub before_digest : Str
  pub after_digest : Str
  pub digest_status : Str

pub record Plan : Type 0 where
  pub schema_version : Str
  pub route_id : Str
  pub route_revision : Str
  pub resource_id : Str
  pub changes : List PlanChange
  pub content_fingerprint : Str
  pub classification : List Classification
  pub disposition : Disposition
  pub reason_codes : List ReasonCode
  pub required_capabilities : List Str
  pub generation_action : GenerationAction

abbrev plan_schema_version : Str
plan_schema_version = codes "agent-dispatch.dispatch-plan/v1"

abbrev project_change : ChangeItem → PlanChange
project_change c = record {
  path = c.path;
  operation = operation_text c.operation;
  exists_after = c.exists_after;
  file_type = file_type_text c.file_type;
  before_digest = c.before_digest;
  after_digest = c.after_digest;
  digest_status = digest_status_text c.digest_status;
}

abbrev project_changes : List ChangeItem → List PlanChange
project_changes cs = map project_change cs

abbrev is_class : Classification → Classification → Bool
is_class c d = str_eq (classification_text c) (classification_text d)

-- A Go map that was set for these keys, read in the fixed order.
abbrev class_order : List Classification
class_order =
    class_malformed ∷ class_overflow ∷ class_protected ∷ class_bulk ∷ class_stale ∷ class_unknown
    ∷ class_normal ∷ []

abbrev keep_classes : List Classification → List Classification → List Classification
keep_classes set [] = []
keep_classes set (c ∷ order) =
    if any (is_class c) set then c ∷ keep_classes set order else keep_classes set order

unfoldable pub classify_list : List Classification → List Classification
unfolding str_eq
classify_list set = keep_classes set class_order

-- `records.Disposition(action)` is a conversion: the other strings fall back.
unfoldable pub action_or : Str → Disposition → Disposition
unfolding str_eq
action_or action fallback =
    if str_eq action (codes "quarantine")
    then disposition_quarantine
    else if str_eq action (codes "reconcile")
    then disposition_reconcile
    else fallback

abbrev pub contains_reason : List ReasonCode → ReasonCode → Bool
contains_reason reasons reason = any (λ r. ite (ReasonCode-discrete r reason) true false) reasons

-- `seen[reason]`
abbrev pub was_dropped : List DropRecord → ReasonCode → Bool
was_dropped dropped reason = any (λ d. str_eq d.reason (reason_code_text reason)) dropped

abbrev propagate_drop : List DropRecord → List ReasonCode → ReasonCode → List ReasonCode
propagate_drop dropped reasons reason =
    if was_dropped dropped reason && not (contains_reason reasons reason)
    then reasons ++ (reason ∷ [])
    else reasons

unfoldable pub propagate_drops : List DropRecord → List ReasonCode → List ReasonCode
unfolding str_eq
propagate_drops dropped reasons =
    propagate_drop dropped (propagate_drop dropped reasons unchanged_modify) create_delete_never

pub data PlanError : Type 0 where
  nil_batch limits_not_positive : PlanError

-- What a `return finish(…)` fixes of the plan.
pub record Verdict : Type 0 where
  pub reasons : List ReasonCode
  pub classes : List Classification
  pub disposition : Disposition
  pub generation : GenerationAction

abbrev verdict : List ReasonCode → List Classification → Disposition → GenerationAction → Verdict
verdict rs cs d g = record { reasons = rs; classes = cs; disposition = d; generation = g }

abbrev when {ℓ} : {A : Type ℓ} → Bool → A → List A
when b a = if b then a ∷ [] else []

-- precedence 2: an overflow-class signal
abbrev signal_verdict : RoutePolicy → Batch → SourceFlags → List Classification → Verdict
signal_verdict policy batch flags normal =
    let held = not (is_empty batch.protected) in
    verdict
      (when flags.overflow overflow_signal
        ++ when flags.fresh_instance fresh_instance_signal
        ++ when held protected_path)
      (normal ++ (class_overflow ∷ when held class_protected))
      (action_or (if flags.overflow then policy.overflow_action else policy.fresh_instance_action)
        disposition_reconcile)
      gen_merge_reconcile

module _ (marshal : List PlanChange → Option ℕ) (sort_strings : List Str → List Str) where
  -- one round of the loop; on an error of `json.Marshal`, the worst case
  abbrev entry_bytes : ChangeItem → ℕ
  entry_bytes c = elim (marshal (project_changes (c ∷ []))) [
    | none ↦ 512 + length c.path * 6
    | some n ↦ n + 2
  ]

  unfoldable pub manifest_bytes : List ChangeItem → ℕ
  manifest_bytes [] = 0
  manifest_bytes (c ∷ cs) = entry_bytes c + manifest_bytes cs

  -- The precedence of the dispositions; `normal` is the classification of a batch with changes.
  unfoldable pub judge : RoutePolicy → Batch → SourceFlags → Bool → Verdict
  judge policy batch flags active =
      let normal = when (not (is_empty batch.changes)) class_normal in
      let count = pos (length batch.changes) in
      if flags.overflow || flags.fresh_instance
      then signal_verdict policy batch flags normal
      else if is_empty batch.changes
      then verdict (no_meaningful_changes ∷ []) normal disposition_drop gen_none
      else if not (is_empty batch.protected)
      then verdict (protected_path ∷ []) (normal ++ (class_protected ∷ [])) disposition_quarantine
          gen_none
      else if not (is_empty batch.immutable)
      then verdict (immutable_path ∷ []) (normal ++ (class_protected ∷ [])) disposition_quarantine
          gen_none
      else if not (leb_ℤ count policy.hard_limit)
      then verdict (batch_over_hard_limit ∷ []) (normal ++ (class_bulk ∷ [])) disposition_quarantine
          gen_none
      else if not (leb_ℤ (pos (manifest_bytes batch.changes)) policy.max_manifest_bytes)
      then verdict (manifest_over_limit ∷ []) (normal ++ (class_bulk ∷ [])) disposition_quarantine
          gen_none
      else if not (leb_ℤ count policy.automatic_threshold)
      then verdict (over_threshold ∷ []) (normal ++ (class_bulk ∷ []))
          (action_or policy.bulk_action disposition_quarantine) gen_merge_reconcile
      else if active
      then verdict (active_dispatch ∷ []) normal disposition_merge_pending gen_increment_dirty
      else verdict (normal_batch ∷ []) normal disposition_dispatch gen_create_if_idle

  -- the initial plan, with what `finish` writes into it
  abbrev pub finish_plan : RoutePolicy → Batch → Verdict → Plan
  finish_plan policy batch v = record {
    schema_version = plan_schema_version;
    route_id = policy.route_id;
    route_revision = policy.route_revision;
    resource_id = policy.resource_id;
    changes = project_changes batch.changes;
    content_fingerprint = batch.fingerprint;
    classification = classify_list v.classes;
    disposition = v.disposition;
    reason_codes = propagate_drops batch.dropped v.reasons;
    required_capabilities = sort_strings policy.required_capabilities;
    generation_action = v.generation;
  }

  abbrev pub limits_positive : RoutePolicy → Bool
  limits_positive policy = not (
      leb_ℤ policy.hard_limit (pos 0)
      || leb_ℤ policy.automatic_threshold (pos 0)
      || leb_ℤ policy.max_manifest_bytes (pos 0))

  unfoldable pub evaluate : RoutePolicy → Input → Result PlanError Plan
  unfolding judge
  evaluate policy input = elim input.batch [
    | none ↦ err nil_batch
    | some batch ↦
        if limits_positive policy
        then ok
            (finish_plan policy batch (judge policy batch input.flags input.active_dispatch_exists))
        else err limits_not_positive
  ]
