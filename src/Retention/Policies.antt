-- ===== src/Retention/Policies.antt =====
-- internal/app/maintenance/policy.go: the effective retention policy, and `ClampBefore`.
use agent_dispatch.Base.{
  Str, codes, str_eq, is_empty, if◌then◌else◌, ◌||◌, Option, none, some, [], ok, err, Result, ◌>>=◌,
}
use agent_dispatch.Base.Int.{ℤ, pos, leb_ℤ}
use agent_dispatch.Retention.Durations.{DurationError, Duration, parse_duration}

-- the retention section of the configuration (internal/config/types.go)
pub record Retention : Type 0 where
  pub observations : Option Str
  pub attempts : Option Str
  pub completed_receipts : Option Str
  pub resolved_quarantine : Option Str
  pub unresolved : Option Str

-- `Policy`: horizons in nanoseconds
pub record RetentionPolicy : Type 0 where
  pub observations : ℤ
  pub attempts : ℤ
  pub completed_receipts : ℤ
  pub resolved_quarantine : ℤ

pub data RetentionField : Type 0 where
  field_observations field_attempts field_completed_receipts field_resolved_quarantine :
      RetentionField

pub data RetentionError : Type 0 where
  bad_duration : RetentionField → DurationError → RetentionError
  only_forever : RetentionError

-- 30 and 180 days
abbrev pub default_policy : RetentionPolicy
default_policy = record {
  observations = pos 2592000000000000;
  attempts = pos 2592000000000000;
  completed_receipts = pos 15552000000000000;
  resolved_quarantine = pos 15552000000000000;
}

abbrev pub deref : Option Str → Str
deref none = []
deref (some s) = s

abbrev parsed_horizon : RetentionField → Result DurationError Duration → Result RetentionError ℤ
parsed_horizon field (err e) = err (bad_duration field e)
parsed_horizon field (ok d) = ok (pos d.nanos)

-- `apply` of `EffectivePolicy`: the horizon that it leaves
unfoldable pub override : RetentionField → Str → ℤ → Result RetentionError ℤ
override field text horizon =
    if is_empty text then ok horizon else parsed_horizon field (parse_duration text)

abbrev checked_unresolved : Option Str → RetentionPolicy → Result RetentionError RetentionPolicy
checked_unresolved u p =
    if is_empty (deref u) || str_eq (deref u) (codes "forever") then ok p else err only_forever

unfoldable pub effective_policy : Option Retention → Result RetentionError RetentionPolicy
effective_policy none = ok default_policy
effective_policy (some cfg) =
    override field_observations (deref cfg.observations) default_policy.observations >>= λ o.
    override field_attempts (deref cfg.attempts) default_policy.attempts >>= λ a.
    override field_completed_receipts (deref cfg.completed_receipts)
      default_policy.completed_receipts
    >>= λ c.
        override field_resolved_quarantine (deref cfg.resolved_quarantine)
          default_policy.resolved_quarantine
        >>= λ q. checked_unresolved cfg.unresolved (record {
          observations = o;
          attempts = a;
          completed_receipts = c;
          resolved_quarantine = q;
        })

abbrev pub min_ℤ : ℤ → ℤ → ℤ
min_ℤ a b = if leb_ℤ b a then b else a

unfoldable pub clamp_before : RetentionPolicy → ℤ → RetentionPolicy
clamp_before p before = if leb_ℤ before (pos 0) then p else record {
  observations = min_ℤ p.observations before;
  attempts = min_ℤ p.attempts before;
  completed_receipts = min_ℤ p.completed_receipts before;
  resolved_quarantine = min_ℤ p.resolved_quarantine before;
}
