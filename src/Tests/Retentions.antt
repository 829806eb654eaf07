-- ===== src/Tests/Retentions.antt =====
-- A retention section that shortens one horizon, clamped to a day.
use agent_dispatch.Base.{codes, str_eq, ◌≡◌, refl, none, some, ok, arith, []}
use agent_dispatch.Base.Int.{pos}
use agent_dispatch.Retention.Durations.{parse_duration, unit_nanos, number_from, scaled}
use agent_dispatch.Retention.Policies.{
  Retention, RetentionPolicy, override, effective_policy, clamp_before, default_policy,
}
use agent_dispatch.Retention.Bounds.{IsClamped, clamp_before-IsClamped}

abbrev config : Retention
config = record {
  observations = none;
  attempts = some (codes "7d");
  completed_receipts = some [];
  resolved_quarantine = none;
  unresolved = some (codes "forever");
}

abbrev policy : RetentionPolicy
policy = record default_policy { attempts = pos 604800000000000 }

config_accepted : effective_policy (some config) ≡ ok policy
unfolding effective_policy override parse_duration unit_nanos number_from scaled str_eq
config_accepted = refl

clamp_before-IsClamped_example :
    IsClamped
      (clamp_before policy (pos 86400000000000)).observations
      policy.observations
      (pos 86400000000000)
    × IsClamped
        (clamp_before policy (pos 86400000000000)).attempts
        policy.attempts
        (pos 86400000000000)
    × IsClamped
        (clamp_before policy (pos 86400000000000)).completed_receipts
        policy.completed_receipts
        (pos 86400000000000)
    × IsClamped
        (clamp_before policy (pos 86400000000000)).resolved_quarantine
        policy.resolved_quarantine
        (pos 86400000000000)
clamp_before-IsClamped_example =
    clamp_before-IsClamped (some config) policy 86400000000000 config_accepted (ground arith)
