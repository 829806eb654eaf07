-- ===== src/State/Intent/Runs.antt =====
-- Sequences of validated intent transitions: what a dispatch intent can live through.
use agent_dispatch.Base.{ℕ, suc, Bool, true, false, ◌≡◌, ◌≢◌, ◌⊎◌, inl, inr, refl, none, [], arith}
use agent_dispatch.Records.Enums.{
  IntentState, intent_ready, intent_submitting, intent_accepted, intent_retry_wait,
  intent_superseded, intent_completed, intent_failed, intent_canceled, acceptance_accepted,
  acceptance_rejected,
}
use agent_dispatch.State.Intent.{
  IntentReason, durable_acceptance, lookup_found_accepted, lookup_not_accepted, explicit_retry,
  IntentEvidence, validate_intent_transition,
}
use agent_dispatch.State.Intent.Moves.{
  Move, Looked, validate_intent_transition_iff, lease, accept, again, found, not_found, revive,
}

pub data Run : IntentState → IntentState → Type 0 where
  stay : {s : IntentState} → Run s s
  then :
      {s u t : IntentState} (reason : IntentReason) (ev : IntentEvidence)
      → validate_intent_transition s u reason ev ≡ none
      → Run u t
      → Run s t

-- Some step of the run has a reason and evidence with property `Q`.
abbrev pub Contains :
    (IntentReason → IntentEvidence → Type 0) → {s t : IntentState} → Run s t → Type 0
Contains Q stay = ⊥
Contains Q (then reason ev v r) = Q reason ev ⊎ Contains Q r

-- If every step from a state inside `P` stays inside or has property `Q`, then a run that leaves
-- `P` has a step with property `Q`.
leaves :
    (P : IntentState → Bool) (Q : IntentReason → IntentEvidence → Type 0)
    → ((s u : IntentState) (reason : IntentReason) (ev : IntentEvidence)
        → P s ≡ true
        → Move s u reason ev
        → (P u ≡ true) ⊎ Q reason ev)
    → {s t : IntentState} (r : Run s t) → P s ≡ true
    → P t ≡ false
    → Contains Q r
leaves P Q keep stay i o = cc
leaves P Q keep (then {s = s} {u = u} reason ev v r) i o =
    elim (keep s u reason ev i ((validate_intent_transition_iff s u reason ev).0 v)) [
      | inl j ↦ inr (leaves P Q keep r j o)
      | inr q ↦ inl q
    ]

-- Every state but `ready`, `submitting` and `retry_wait`: those a submission starts from.
abbrev held : IntentState → Bool
held intent_ready = false
held intent_submitting = false
held intent_retry_wait = false
held _ = true

abbrev pub AllowsResubmission : IntentReason → IntentEvidence → Type 0
AllowsResubmission reason ev =
    ((reason ≡ lookup_not_accepted) × Looked (λ r. r.result ≡ acceptance_rejected) ev)
    ⊎ ((reason ≡ explicit_retry) × (ev.explicit_retry_given ≡ true) × (ev.actor ≢ []))

held-step :
    (s u : IntentState) (reason : IntentReason) (ev : IntentEvidence)
    → held s ≡ true
    → Move s u reason ev
    → (held u ≡ true) ⊎ AllowsResubmission reason ev
held-step s u reason ev h (not_found k) = inr (inl (refl, k))
held-step s u reason ev h (revive k a) = inr (inr (refl, k, a))
held-step s u reason ev h (lease k) = cc
held-step s u reason ev h (again k) = cc
held-step s u reason ev h _ = ground arith

-- Once an intent is in any state but `ready`, `submitting` and `retry_wait` (an ambiguous outcome
-- is one of them), no run of validated transitions comes to `submitting` again unless one of its
-- steps carries a lookup that proves the target rejected the submission, or an explicit retry by a
-- named operator.
pub submitting_needs_proof :
    {s : IntentState} (r : Run s intent_submitting) → held s ≡ true → Contains AllowsResubmission r
submitting_needs_proof r h = leaves held AllowsResubmission held-step r h refl

abbrev not_yet_accepted : IntentState → Bool
not_yet_accepted intent_accepted = false
not_yet_accepted intent_completed = false
not_yet_accepted intent_failed = false
not_yet_accepted intent_canceled = false
not_yet_accepted _ = true

abbrev pub ProvesAcceptance : IntentReason → IntentEvidence → Type 0
ProvesAcceptance reason ev =
    ((reason ≡ durable_acceptance) × (ev.receipt_ref ≢ []))
    ⊎ ((reason ≡ lookup_found_accepted) × Looked (λ r. r.result ≡ acceptance_accepted) ev)

acceptance-step :
    (s u : IntentState) (reason : IntentReason) (ev : IntentEvidence)
    → not_yet_accepted s ≡ true
    → Move s u reason ev
    → (not_yet_accepted u ≡ true) ⊎ ProvesAcceptance reason ev
acceptance-step s u reason ev h (accept k) = inr (inl (refl, k))
acceptance-step s u reason ev h (found k) = inr (inr (refl, k))
acceptance-step s u reason ev h _ = ground arith

-- A run from a state before acceptance to `accepted`, `completed`, `failed` or `canceled` has a
-- step that carries the reference of an acceptance receipt, or a lookup that found the task
-- accepted.
pub acceptance_needs_proof :
    {s t : IntentState} (r : Run s t)
    → not_yet_accepted s ≡ true
    → not_yet_accepted t ≡ false
    → Contains ProvesAcceptance r
acceptance_needs_proof r h k = leaves not_yet_accepted ProvesAcceptance acceptance-step r h k

abbrev pub is_terminal : IntentState → Bool
is_terminal intent_superseded = true
is_terminal intent_completed = true
is_terminal intent_failed = true
is_terminal intent_canceled = true
is_terminal _ = false

terminal-step :
    {s u : IntentState} {reason : IntentReason} {ev : IntentEvidence}
    → Move s u reason ev
    → is_terminal s ≡ false
terminal-step (lease k) = refl
terminal-step _ = refl

abbrev pub steps : {s t : IntentState} → Run s t → ℕ
steps stay = 0
steps (then reason ev v r) = suc (steps r)

terminal_rejects :
    (s u : IntentState) (reason : IntentReason) (ev : IntentEvidence)
    → is_terminal s ≡ true
    → validate_intent_transition s u reason ev ≢ none
terminal_rejects s u reason ev h v =
    ground (arith, h, terminal-step ((validate_intent_transition_iff s u reason ev).0 v))

terminal_stays : {s t : IntentState} (r : Run s t) → is_terminal s ≡ true → steps r ≡ 0
terminal_stays stay h = refl
terminal_stays (then {s = s} {u = u} reason ev v r) h = absurd (terminal_rejects s u reason ev h v)

-- A run that starts in `superseded`, `completed`, `failed` or `canceled` has no step: every
-- transition out of those states, to whichever state, is rejected on any reason and any evidence.
pub terminal_absorbs :
    {s t : IntentState} (r : Run s t)
    → is_terminal s ≡ true
    → (steps r ≡ 0)
      × ((u : IntentState) (reason : IntentReason) (ev : IntentEvidence)
          → validate_intent_transition s u reason ev ≢ none)
terminal_absorbs {s} r h = (terminal_stays r h, λ u reason ev. terminal_rejects s u reason ev h)
