-- ===== src/Dispatch/Classify.antt =====
-- internal/app/dispatch/classify.go: what one submit outcome means for the attempt record and for
-- the intent, with the parts of internal/ports/sink.go that it reads. The switch's `default` is the
-- constructor `submit_unknown`.
pub mod Validated
use agent_dispatch.Base.{Str, codes, Bool, true, false, if◌then◌else◌, []}
use agent_dispatch.Records.Enums.{
  IntentState, intent_accepted, intent_rejected, intent_unknown, intent_retry_wait,
}
use agent_dispatch.State.Intent.{
  IntentReason, durable_acceptance, definite_rejection, ambiguous_outcome, transient_failure,
}

pub data SubmitClassification : Type 0 where
  submit_accepted submit_rejected submit_definite_not_submitted : SubmitClassification
  submit_unknown : SubmitClassification

pub data DurableStatus : Type 0 where
  durable_true durable_false durable_unknown : DurableStatus

pub record SubmitResult : Type 0 where
  pub classification : SubmitClassification
  pub durable : DurableStatus
  pub external_ref : Str
  pub target_observed_at : Str
  pub structured_payload : Str
  pub diagnostic : Str
  pub payload_version : Str

pub record Classified : Type 0 where
  pub attempt_outcome : Str
  pub error_code : Str
  pub to : IntentState
  pub reason : IntentReason
  pub durable_acceptance_proved : Bool
  pub receipt_worthy : Bool

abbrev is_durable : DurableStatus → Bool
is_durable durable_true = true
is_durable _ = false

abbrev ambiguous : Classified
ambiguous = record {
  attempt_outcome = codes "unknown";
  error_code = [];
  to = intent_unknown;
  reason = ambiguous_outcome;
  durable_acceptance_proved = false;
  receipt_worthy = false;
}

abbrev classify_outcome : SubmitClassification → DurableStatus → Classified
classify_outcome submit_accepted durable = record {
  attempt_outcome = codes "accepted";
  error_code = [];
  to = intent_accepted;
  reason = durable_acceptance;
  durable_acceptance_proved = is_durable durable;
  receipt_worthy = true;
}
classify_outcome submit_rejected durable = record {
  attempt_outcome = codes "rejected";
  error_code = [];
  to = intent_rejected;
  reason = definite_rejection;
  durable_acceptance_proved = false;
  receipt_worthy = true;
}
classify_outcome submit_definite_not_submitted durable = record {
  attempt_outcome = codes "transport_failure";
  error_code = codes "definite_not_submitted";
  to = intent_retry_wait;
  reason = transient_failure;
  durable_acceptance_proved = false;
  receipt_worthy = false;
}
classify_outcome submit_unknown durable = ambiguous

-- `sink_failed` is `sinkErr != nil`.
unfoldable pub classify_result : SubmitResult → Bool → Classified
classify_result res sink_failed =
    if sink_failed then ambiguous else classify_outcome res.classification res.durable
