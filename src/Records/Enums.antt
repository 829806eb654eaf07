-- ===== src/Records/Enums.antt =====
-- internal/domain/records/enums.go: the closed enums, each with its text and its fail-closed parser.
-- A Go enum is a string type; here it is a data type with a constructor for each declared constant,
-- and `…_text` gives the constant's string. A `switch` over all constants of an enum is
-- `parse_enum` over their list, in the order of the `case`.
pub mod Parsing
use agent_dispatch.Base.{Str, codes, str_eq, if◌then◌else◌, Option, none, some, List, [], ◌∷◌}

-- `switch T(s) { case v₁, …, vₙ: return T(s), nil }; return "", fmt.Errorf(…)`
unfoldable pub parse_enum : {A : Type 0} → (A → Str) → List A → Str → Option A
unfolding str_eq
parse_enum text [] s = none
parse_enum text (v ∷ vs) s = if str_eq s (text v) then some v else parse_enum text vs s

pub data Operation : Type 0 where
  op_create op_modify op_delete : Operation

abbrev pub operation_text : Operation → Str
operation_text op_create = codes "create"
operation_text op_modify = codes "modify"
operation_text op_delete = codes "delete"

abbrev pub all_operation : List Operation
all_operation = op_create ∷ op_modify ∷ op_delete ∷ []

unfoldable pub parse_operation : Str → Option Operation
unfolding parse_enum
parse_operation = parse_enum operation_text all_operation

pub data FileType : Type 0 where
  file_regular file_directory file_symlink file_other file_unknown : FileType

abbrev pub file_type_text : FileType → Str
file_type_text file_regular = codes "regular"
file_type_text file_directory = codes "directory"
file_type_text file_symlink = codes "symlink"
file_type_text file_other = codes "other"
file_type_text file_unknown = codes "unknown"

abbrev pub all_file_type : List FileType
all_file_type = file_regular ∷ file_directory ∷ file_symlink ∷ file_other ∷ file_unknown ∷ []

unfoldable pub parse_file_type : Str → Option FileType
unfolding parse_enum
parse_file_type = parse_enum file_type_text all_file_type

pub data DigestStatus : Type 0 where
  digest_known digest_unavailable digest_not_applicable : DigestStatus

abbrev pub digest_status_text : DigestStatus → Str
digest_status_text digest_known = codes "known"
digest_status_text digest_unavailable = codes "unavailable"
digest_status_text digest_not_applicable = codes "not_applicable"

abbrev pub all_digest_status : List DigestStatus
all_digest_status = digest_known ∷ digest_unavailable ∷ digest_not_applicable ∷ []

unfoldable pub parse_digest_status : Str → Option DigestStatus
unfolding parse_enum
parse_digest_status = parse_enum digest_status_text all_digest_status

pub data Classification : Type 0 where
  class_normal class_protected class_bulk class_overflow class_malformed class_stale :
      Classification
  class_unknown : Classification

abbrev pub classification_text : Classification → Str
classification_text class_normal = codes "normal"
classification_text class_protected = codes "protected"
classification_text class_bulk = codes "bulk"
classification_text class_overflow = codes "overflow"
classification_text class_malformed = codes "malformed"
classification_text class_stale = codes "stale"
classification_text class_unknown = codes "unknown"

abbrev pub all_classification : List Classification
all_classification =
    class_normal ∷ class_protected ∷ class_bulk ∷ class_overflow ∷ class_malformed ∷ class_stale
    ∷ class_unknown ∷ []

unfoldable pub parse_classification : Str → Option Classification
unfolding parse_enum
parse_classification = parse_enum classification_text all_classification

pub data Disposition : Type 0 where
  disposition_drop disposition_dispatch disposition_merge_pending disposition_quarantine :
      Disposition
  disposition_reconcile : Disposition

abbrev pub disposition_text : Disposition → Str
disposition_text disposition_drop = codes "drop"
disposition_text disposition_dispatch = codes "dispatch"
disposition_text disposition_merge_pending = codes "merge_pending"
disposition_text disposition_quarantine = codes "quarantine"
disposition_text disposition_reconcile = codes "reconcile"

abbrev pub all_disposition : List Disposition
all_disposition =
    disposition_drop ∷ disposition_dispatch ∷ disposition_merge_pending ∷ disposition_quarantine
    ∷ disposition_reconcile ∷ []

unfoldable pub parse_disposition : Str → Option Disposition
unfolding parse_enum
parse_disposition = parse_enum disposition_text all_disposition

pub data GenerationAction : Type 0 where
  gen_none gen_create_if_idle gen_increment_dirty gen_merge_reconcile : GenerationAction

abbrev pub generation_action_text : GenerationAction → Str
generation_action_text gen_none = codes "none"
generation_action_text gen_create_if_idle = codes "create_if_idle"
generation_action_text gen_increment_dirty = codes "increment_dirty"
generation_action_text gen_merge_reconcile = codes "merge_reconcile"

abbrev pub all_generation_action : List GenerationAction
all_generation_action =
    gen_none ∷ gen_create_if_idle ∷ gen_increment_dirty ∷ gen_merge_reconcile ∷ []

unfoldable pub parse_generation_action : Str → Option GenerationAction
unfolding parse_enum
parse_generation_action = parse_enum generation_action_text all_generation_action

pub data IntentState : Type 0 where
  intent_ready intent_submitting intent_accepted intent_rejected intent_unknown : IntentState
  intent_retry_wait intent_reconciling intent_dead_lettered intent_superseded intent_completed :
      IntentState
  intent_failed intent_canceled : IntentState

abbrev pub intent_state_text : IntentState → Str
intent_state_text intent_ready = codes "ready"
intent_state_text intent_submitting = codes "submitting"
intent_state_text intent_accepted = codes "accepted"
intent_state_text intent_rejected = codes "rejected"
intent_state_text intent_unknown = codes "unknown"
intent_state_text intent_retry_wait = codes "retry_wait"
intent_state_text intent_reconciling = codes "reconciling"
intent_state_text intent_dead_lettered = codes "dead_lettered"
intent_state_text intent_superseded = codes "superseded"
intent_state_text intent_completed = codes "completed"
intent_state_text intent_failed = codes "failed"
intent_state_text intent_canceled = codes "canceled"

abbrev pub all_intent_state : List IntentState
all_intent_state =
    intent_ready ∷ intent_submitting ∷ intent_accepted ∷ intent_rejected ∷ intent_unknown
    ∷ intent_retry_wait ∷ intent_reconciling ∷ intent_dead_lettered ∷ intent_superseded
    ∷ intent_completed ∷ intent_failed ∷ intent_canceled ∷ []

unfoldable pub parse_intent_state : Str → Option IntentState
unfolding parse_enum
parse_intent_state = parse_enum intent_state_text all_intent_state

pub data ReceiptKind : Type 0 where
  receipt_acceptance receipt_execution_projection : ReceiptKind

abbrev pub receipt_kind_text : ReceiptKind → Str
receipt_kind_text receipt_acceptance = codes "acceptance"
receipt_kind_text receipt_execution_projection = codes "execution_projection"

abbrev pub all_receipt_kind : List ReceiptKind
all_receipt_kind = receipt_acceptance ∷ receipt_execution_projection ∷ []

unfoldable pub parse_receipt_kind : Str → Option ReceiptKind
unfolding parse_enum
parse_receipt_kind = parse_enum receipt_kind_text all_receipt_kind

pub data AcceptanceState : Type 0 where
  acceptance_accepted acceptance_rejected acceptance_unknown : AcceptanceState

abbrev pub acceptance_state_text : AcceptanceState → Str
acceptance_state_text acceptance_accepted = codes "accepted"
acceptance_state_text acceptance_rejected = codes "rejected"
acceptance_state_text acceptance_unknown = codes "unknown"

abbrev pub all_acceptance_state : List AcceptanceState
all_acceptance_state = acceptance_accepted ∷ acceptance_rejected ∷ acceptance_unknown ∷ []

unfoldable pub parse_acceptance_state : Str → Option AcceptanceState
unfolding parse_enum
parse_acceptance_state = parse_enum acceptance_state_text all_acceptance_state

pub data ExecutionState : Type 0 where
  exec_unavailable exec_queued exec_running exec_succeeded exec_failed exec_canceled :
      ExecutionState

abbrev pub execution_state_text : ExecutionState → Str
execution_state_text exec_unavailable = codes "unavailable"
execution_state_text exec_queued = codes "queued"
execution_state_text exec_running = codes "running"
execution_state_text exec_succeeded = codes "succeeded"
execution_state_text exec_failed = codes "failed"
execution_state_text exec_canceled = codes "canceled"

abbrev pub all_execution_state : List ExecutionState
all_execution_state =
    exec_unavailable ∷ exec_queued ∷ exec_running ∷ exec_succeeded ∷ exec_failed ∷ exec_canceled
    ∷ []

unfoldable pub parse_execution_state : Str → Option ExecutionState
unfolding parse_enum
parse_execution_state = parse_enum execution_state_text all_execution_state

pub data WorkStatus : Type 0 where
  work_began work_completed work_partially_complete work_blocked work_failed : WorkStatus

abbrev pub work_status_text : WorkStatus → Str
work_status_text work_began = codes "begun"
work_status_text work_completed = codes "completed"
work_status_text work_partially_complete = codes "partially_completed"
work_status_text work_blocked = codes "blocked"
work_status_text work_failed = codes "failed"

abbrev pub all_work_status : List WorkStatus
all_work_status =
    work_began ∷ work_completed ∷ work_partially_complete ∷ work_blocked ∷ work_failed ∷ []

unfoldable pub parse_work_status : Str → Option WorkStatus
unfolding parse_enum
parse_work_status = parse_enum work_status_text all_work_status

pub data FailureCode : Type 0 where
  fail_agent_error fail_canceled fail_timeout fail_environment_error : FailureCode

abbrev pub failure_code_text : FailureCode → Str
failure_code_text fail_agent_error = codes "agent_error"
failure_code_text fail_canceled = codes "canceled"
failure_code_text fail_timeout = codes "timeout"
failure_code_text fail_environment_error = codes "environment_error"

abbrev pub all_failure_code : List FailureCode
all_failure_code = fail_agent_error ∷ fail_canceled ∷ fail_timeout ∷ fail_environment_error ∷ []

unfoldable pub parse_failure_code : Str → Option FailureCode
unfolding parse_enum
parse_failure_code = parse_enum failure_code_text all_failure_code
