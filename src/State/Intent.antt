-- ===== src/State/Intent.antt =====
-- internal/domain/state/intent.go: the dispatch-intent state machine, its table of edges with the
-- reasons documented for each, and the guard that every edge puts on the evidence.
-- A map literal is a function by clauses; a nil pointer is `none`; a nil error is `none`. The text
-- of a rejection's detail is a constructor of `Detail` that carries what the format string prints.
pub mod Moves
pub mod Runs
use agent_dispatch.Base.{
  Str, codes, is_empty, any, if◌then◌else◌, Bool, true, false, ◌&&◌, ◌||◌, not, Option, none, some,
  List, [], ◌∷◌,
}
use agent_dispatch.Records.Enums.{
  IntentState, intent_state_text, intent_ready, intent_submitting, intent_accepted, intent_rejected,
  intent_unknown, intent_retry_wait, intent_reconciling, intent_dead_lettered, intent_superseded,
  intent_completed, intent_failed, intent_canceled, AcceptanceState, acceptance_accepted,
  acceptance_rejected, acceptance_unknown,
}
use agent_dispatch.State.Errors.{
  TransitionError, Detail, not_an_edge, undocumented_reason, needs_lease, needs_acceptance_receipt,
  needs_rejection_receipt, needs_reconciling_actor, needs_accepted_lookup, needs_rejected_lookup,
  needs_unresolved_or_exhausted, needs_execution_receipt, needs_explicit_retry,
}
use mathlib.Core.Logic.{ite}
use mathlib.Core.Option
use mathlib.Core.List

pub data IntentReason : Type 0 where
  lease_acquired durable_acceptance definite_rejection ambiguous_outcome : IntentReason
  transient_failure retry_due lookup_started lookup_found_accepted : IntentReason
  lookup_not_accepted unresolved_or_limit terminal_policy route_invalidated : IntentReason
  execution_succeeded execution_failed target_canceled : IntentReason
  explicit_retry reprocess_or_discard : IntentReason

pub IntentReason-discrete : Discrete IntentReason
IntentReason-discrete = hlevel

abbrev pub intent_reason_text : IntentReason → Str
intent_reason_text lease_acquired = codes "lease_acquired"
intent_reason_text durable_acceptance = codes "durable_acceptance"
intent_reason_text definite_rejection = codes "definite_rejection"
intent_reason_text ambiguous_outcome = codes "ambiguous_outcome"
intent_reason_text transient_failure = codes "transient_failure"
intent_reason_text retry_due = codes "retry_due"
intent_reason_text lookup_started = codes "lookup_started"
intent_reason_text lookup_found_accepted = codes "lookup_found_accepted"
intent_reason_text lookup_not_accepted = codes "lookup_proven_not_accepted"
intent_reason_text unresolved_or_limit = codes "unresolved_or_limit_reached"
intent_reason_text terminal_policy = codes "terminal_policy"
intent_reason_text route_invalidated = codes "route_revision_invalidated"
intent_reason_text execution_succeeded = codes "execution_succeeded"
intent_reason_text execution_failed = codes "execution_failed"
intent_reason_text target_canceled = codes "target_canceled"
intent_reason_text explicit_retry = codes "explicit_retry"
intent_reason_text reprocess_or_discard = codes "reprocess_or_discard"

-- `none` is a missing key.
unfoldable pub intent_table : IntentState → IntentState → Option (List IntentReason)
intent_table intent_ready intent_submitting = some (lease_acquired ∷ [])
intent_table intent_submitting intent_accepted = some (durable_acceptance ∷ [])
intent_table intent_submitting intent_rejected = some (definite_rejection ∷ [])
intent_table intent_submitting intent_unknown = some (ambiguous_outcome ∷ [])
intent_table intent_submitting intent_retry_wait = some (transient_failure ∷ [])
intent_table intent_retry_wait intent_submitting = some (retry_due ∷ [])
intent_table intent_unknown intent_reconciling = some (lookup_started ∷ [])
intent_table intent_reconciling intent_accepted = some (lookup_found_accepted ∷ [])
intent_table intent_reconciling intent_retry_wait = some (lookup_not_accepted ∷ [])
intent_table intent_reconciling intent_dead_lettered = some (unresolved_or_limit ∷ [])
intent_table intent_rejected intent_dead_lettered = some (terminal_policy ∷ [])
intent_table intent_ready intent_superseded = some (route_invalidated ∷ [])
intent_table intent_accepted intent_completed = some (execution_succeeded ∷ [])
intent_table intent_accepted intent_failed = some (execution_failed ∷ [])
intent_table intent_accepted intent_canceled = some (target_canceled ∷ [])
intent_table intent_dead_lettered intent_ready = some (explicit_retry ∷ [])
intent_table intent_dead_lettered intent_superseded = some (reprocess_or_discard ∷ [])
intent_table _ _ = none

unfoldable pub can_transition_intent : IntentState → IntentState → Bool
unfolding intent_table
can_transition_intent from to = elim (intent_table from to) [ none ↦ false | some _ ↦ true ]

unfoldable pub intent_reasons : IntentState → IntentState → Option (List IntentReason)
unfolding intent_table
intent_reasons from to = intent_table from to

pub record LeaseEvidence : Type 0 where
  pub owner : Str
  pub expires_at : Str

pub record ReconciliationEvidence : Type 0 where
  pub result : AcceptanceState
  pub external_ref : Str
  pub attempts_exhausted : Bool

pub record IntentEvidence : Type 0 where
  pub actor : Str
  pub lease : Option LeaseEvidence
  pub reconciliation : Option ReconciliationEvidence
  pub explicit_retry_given : Bool
  pub receipt_ref : Str

-- `&IntentEvidence{}`'s zero value
abbrev pub no_evidence : IntentEvidence
no_evidence = record {
  actor = [];
  lease = none;
  reconciliation = none;
  explicit_retry_given = false;
  receipt_ref = [];
}

unfoldable pub intent_rejection :
    IntentState → IntentState → IntentReason → Detail → TransitionError
intent_rejection from to reason detail = record {
  entity = codes "dispatch_intent";
  from = intent_state_text from;
  to = intent_state_text to;
  reason = intent_reason_text reason;
  detail = detail;
}

abbrev lease_missing : Option LeaseEvidence → Bool
lease_missing none = true
lease_missing (some l) = is_empty l.owner || is_empty l.expires_at

abbrev lookup_proves : (AcceptanceState → Bool) → Option ReconciliationEvidence → Bool
lookup_proves p none = false
lookup_proves p (some r) = p r.result

abbrev is_accepted : AcceptanceState → Bool
is_accepted acceptance_accepted = true
is_accepted _ = false

abbrev is_rejected : AcceptanceState → Bool
is_rejected acceptance_rejected = true
is_rejected _ = false

abbrev is_unknown : AcceptanceState → Bool
is_unknown acceptance_unknown = true
is_unknown _ = false

abbrev exhausted_lookup : Option ReconciliationEvidence → Bool
exhausted_lookup none = false
exhausted_lookup (some r) = r.attempts_exhausted

-- `if bad { return intentRejected(…, detail) }`, falling through to `return nil`
abbrev pub fails_with : Bool → Detail → Option Detail
fails_with bad d = if bad then some d else none

-- the `switch` on the edge
unfoldable pub intent_guard : IntentState → IntentState → IntentEvidence → Option Detail
intent_guard intent_ready intent_submitting ev = fails_with (lease_missing ev.lease) needs_lease
intent_guard intent_retry_wait intent_submitting ev =
    fails_with (lease_missing ev.lease) needs_lease
intent_guard intent_submitting intent_accepted ev =
    fails_with (is_empty ev.receipt_ref) needs_acceptance_receipt
intent_guard intent_submitting intent_rejected ev =
    fails_with (is_empty ev.receipt_ref) needs_rejection_receipt
intent_guard intent_unknown intent_reconciling ev =
    fails_with (is_empty ev.actor) needs_reconciling_actor
intent_guard intent_reconciling intent_accepted ev =
    fails_with (not (lookup_proves is_accepted ev.reconciliation)) needs_accepted_lookup
intent_guard intent_reconciling intent_retry_wait ev =
    fails_with (not (lookup_proves is_rejected ev.reconciliation)) needs_rejected_lookup
intent_guard intent_reconciling intent_dead_lettered ev =
    fails_with
      (not (lookup_proves is_unknown ev.reconciliation) && not (exhausted_lookup ev.reconciliation))
      needs_unresolved_or_exhausted
intent_guard intent_accepted intent_completed ev =
    fails_with (is_empty ev.receipt_ref) needs_execution_receipt
intent_guard intent_accepted intent_failed ev =
    fails_with (is_empty ev.receipt_ref) needs_execution_receipt
intent_guard intent_accepted intent_canceled ev =
    fails_with (is_empty ev.receipt_ref) needs_execution_receipt
intent_guard intent_dead_lettered intent_ready ev =
    fails_with (not ev.explicit_retry_given || is_empty ev.actor) needs_explicit_retry
intent_guard _ _ ev = none

-- the loop that sets `documented`
abbrev documented : List IntentReason → IntentReason → Bool
documented reasons reason = any (λ r. ite (IntentReason-discrete r reason) true false) reasons

abbrev checked_detail : Option (List IntentReason) → IntentReason → Option Detail → Option Detail
checked_detail none reason guard = some not_an_edge
checked_detail (some reasons) reason guard =
    if documented reasons reason
    then guard
    else some (undocumented_reason (List.map intent_reason_text reasons))

-- `none` is the nil error of a validated transition.
unfoldable pub validate_intent_transition :
    IntentState → IntentState → IntentReason → IntentEvidence → Option TransitionError
unfolding intent_table intent_guard intent_rejection
validate_intent_transition from to reason ev =
    Option.map (intent_rejection from to reason)
      (checked_detail (intent_table from to) reason (intent_guard from to ev))
