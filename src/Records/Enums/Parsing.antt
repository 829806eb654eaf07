-- ===== src/Records/Enums/Parsing.antt =====
-- The parsers of the closed enums, against the texts of the declared constants.
use agent_dispatch.Base.{
  Str, str_eq, str_eq→eq, Bool-cases, ◌≡◌, refl, ◌↔◌, Option, some, List, [], ◌∷◌, arith, inl, inr,
}
use agent_dispatch.Records.Enums.{
  parse_enum, Operation, all_operation, op_create, operation_text, parse_operation, FileType,
  all_file_type, file_regular, file_type_text, parse_file_type, DigestStatus, all_digest_status,
  digest_known, digest_status_text, parse_digest_status, Classification, all_classification,
  class_normal, classification_text, parse_classification, Disposition, all_disposition,
  disposition_drop, disposition_text, parse_disposition, GenerationAction, all_generation_action,
  gen_none, generation_action_text, parse_generation_action, IntentState, all_intent_state,
  intent_ready, intent_state_text, parse_intent_state, ReceiptKind, all_receipt_kind,
  receipt_acceptance, receipt_kind_text, parse_receipt_kind, AcceptanceState, all_acceptance_state,
  acceptance_accepted, acceptance_state_text, parse_acceptance_state, ExecutionState,
  all_execution_state, exec_unavailable, execution_state_text, parse_execution_state, WorkStatus,
  all_work_status, work_began, work_status_text, parse_work_status, FailureCode, all_failure_code,
  fail_agent_error, failure_code_text, parse_failure_code,
}

abbrev pub Parses : {A : Type 0} → (A → Str) → (Str → Option A) → Type 0
Parses {A} text parse = (s : Str) (v : A) → (parse s ≡ some v) ↔ (s ≡ text v)

parse_enum_sound :
    {A : Type 0} (text : A → Str) (vs : List A) (s : Str) (v : A)
    → parse_enum text vs s ≡ some v
    → s ≡ text v
unfolding parse_enum
parse_enum_sound text [] s v h = cc
parse_enum_sound text (w ∷ vs) s v h = elim (Bool-cases (str_eq s (text w))) [
  | inl e ↦ ground (arith, str_eq→eq s (text w))
  | inr e ↦ parse_enum_sound text vs s v (rw e at h)
]

parses :
    {A : Type 0} (text : A → Str) (vs : List A)
    → ((v : A) → parse_enum text vs (text v) ≡ some v)
    → Parses text (parse_enum text vs)
parses text vs back s v = (parse_enum_sound text vs s v, λ e. rw e (back v))

parse_operation-text : (v : Operation) → parse_operation (operation_text v) ≡ some v
unfolding parse_operation
parse_operation-text op_create = refl
parse_operation-text _ = refl

parse_file_type-text : (v : FileType) → parse_file_type (file_type_text v) ≡ some v
unfolding parse_file_type
parse_file_type-text file_regular = refl
parse_file_type-text _ = refl

parse_digest_status-text : (v : DigestStatus) → parse_digest_status (digest_status_text v) ≡ some v
unfolding parse_digest_status
parse_digest_status-text digest_known = refl
parse_digest_status-text _ = refl

parse_classification-text :
    (v : Classification) → parse_classification (classification_text v) ≡ some v
unfolding parse_classification
parse_classification-text class_normal = refl
parse_classification-text _ = refl

parse_disposition-text : (v : Disposition) → parse_disposition (disposition_text v) ≡ some v
unfolding parse_disposition
parse_disposition-text disposition_drop = refl
parse_disposition-text _ = refl

parse_generation_action-text :
    (v : GenerationAction) → parse_generation_action (generation_action_text v) ≡ some v
unfolding parse_generation_action
parse_generation_action-text gen_none = refl
parse_generation_action-text _ = refl

parse_intent_state-text : (v : IntentState) → parse_intent_state (intent_state_text v) ≡ some v
unfolding parse_intent_state
parse_intent_state-text intent_ready = refl
parse_intent_state-text _ = refl

parse_receipt_kind-text : (v : ReceiptKind) → parse_receipt_kind (receipt_kind_text v) ≡ some v
unfolding parse_receipt_kind
parse_receipt_kind-text receipt_acceptance = refl
parse_receipt_kind-text _ = refl

parse_acceptance_state-text :
    (v : AcceptanceState) → parse_acceptance_state (acceptance_state_text v) ≡ some v
unfolding parse_acceptance_state
parse_acceptance_state-text acceptance_accepted = refl
parse_acceptance_state-text _ = refl

parse_execution_state-text :
    (v : ExecutionState) → parse_execution_state (execution_state_text v) ≡ some v
unfolding parse_execution_state
parse_execution_state-text exec_unavailable = refl
parse_execution_state-text _ = refl

parse_work_status-text : (v : WorkStatus) → parse_work_status (work_status_text v) ≡ some v
unfolding parse_work_status
parse_work_status-text work_began = refl
parse_work_status-text _ = refl

parse_failure_code-text : (v : FailureCode) → parse_failure_code (failure_code_text v) ≡ some v
unfolding parse_failure_code
parse_failure_code-text fail_agent_error = refl
parse_failure_code-text _ = refl

-- For each of the twelve enums, a text parses to a value exactly when it is that value's text.
pub enums_parse :
    Parses operation_text parse_operation
    × Parses file_type_text parse_file_type
    × Parses digest_status_text parse_digest_status
    × Parses classification_text parse_classification
    × Parses disposition_text parse_disposition
    × Parses generation_action_text parse_generation_action
    × Parses intent_state_text parse_intent_state
    × Parses receipt_kind_text parse_receipt_kind
    × Parses acceptance_state_text parse_acceptance_state
    × Parses execution_state_text parse_execution_state
    × Parses work_status_text parse_work_status
    × Parses failure_code_text parse_failure_code
unfolding parse_operation parse_file_type parse_digest_status parse_classification parse_disposition
    parse_generation_action parse_intent_state parse_receipt_kind parse_acceptance_state
    parse_execution_state parse_work_status parse_failure_code
enums_parse = (
  parses operation_text all_operation parse_operation-text,
  parses file_type_text all_file_type parse_file_type-text,
  parses digest_status_text all_digest_status parse_digest_status-text,
  parses classification_text all_classification parse_classification-text,
  parses disposition_text all_disposition parse_disposition-text,
  parses generation_action_text all_generation_action parse_generation_action-text,
  parses intent_state_text all_intent_state parse_intent_state-text,
  parses receipt_kind_text all_receipt_kind parse_receipt_kind-text,
  parses acceptance_state_text all_acceptance_state parse_acceptance_state-text,
  parses execution_state_text all_execution_state parse_execution_state-text,
  parses work_status_text all_work_status parse_work_status-text,
  parses failure_code_text all_failure_code parse_failure_code-text,
)
