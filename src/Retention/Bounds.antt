-- ===== src/Retention/Bounds.antt =====
-- internal/app/maintenance/policy.go: the range of the horizons.
use agent_dispatch.Base.{
  ℕ, ◌+◌, ◌-◌, ◌*◌, ◌/◌, ◌≤◌, ◌<◌, Str, true, ◌≡◌, ◌⊎◌, inl, inr, Option, none, some, [], ◌∷◌, ok,
  >>=-eq-ok, arith, Bool-cases, Option-cases, Result-cases,
}
use agent_dispatch.Base.Int.{ℤ, pos, ◌≤ℤ◌, ◌<ℤ◌}
use agent_dispatch.Retention.Durations.{
  Duration, unit_nanos, number_from, starts_positive, scaled, parse_duration, from_parts,
  split_digits, max_int64,
}
use agent_dispatch.Retention.Policies.{
  field_resolved_quarantine, field_completed_receipts, field_attempts, field_observations,
  Retention, RetentionPolicy, RetentionField, override, effective_policy, clamp_before,
  default_policy, deref,
}

number_from-le : (n : ℕ) (s : Str) → n ≤ number_from n s
unfolding number_from
number_from-le n [] = omega arith
number_from-le n (c ∷ s) = omega (arith, number_from-le (n * 10 + (c - b'0')) s)

number_positive : (s : Str) → starts_positive s ≡ true → 0 < number_from 0 s
unfolding number_from
number_positive [] h = ground arith
number_positive (c ∷ s) h = ground (arith, number_from-le (0 * 10 + (c - b'0')) s)

abbrev IsUnit : ℕ → Type 0
IsUnit k =
    (k ≡ 1000000)
    ⊎ (k ≡ 1000000000)
    ⊎ (k ≡ 60000000000)
    ⊎ (k ≡ 3600000000000)
    ⊎ (k ≡ 86400000000000)

unit_nanos-IsUnit : (u : Str) (k : ℕ) → unit_nanos u ≡ some k → IsUnit k
unfolding unit_nanos
unit_nanos-IsUnit u k h = ground arith

scaled_bound : (n k : ℕ) → IsUnit k → 0 < n → n ≤ max_int64 / k → (0 < n * k) × (n * k ≤ max_int64)
scaled_bound n k u h l = ground arith

scaled_range :
    (text unit : Str) (n k : ℕ) (d : Duration)
    → IsUnit k
    → 0 < n
    → scaled text unit n k ≡ ok d
    → (0 < d.nanos) × (d.nanos ≤ max_int64)
unfolding scaled
scaled_range text unit n k d u l h =
    let q : (n ≤ max_int64 / k) × (n * k ≡ d.nanos) = ground (arith, h) in
    let (a, b) = scaled_bound n k u l q.0 in (omega (arith, a, q.1), omega (arith, b, q.1))

from_parts_range :
    (text : Str) (parts : Str × Str) (d : Duration)
    → from_parts text parts ≡ ok d
    → (0 < d.nanos) × (d.nanos ≤ max_int64)
from_parts_range text parts d h = elim (Option-cases (unit_nanos parts.1)) [
  | inl n ↦ ground (arith, h, n)
  | inr (k, e) ↦ elim (Bool-cases (starts_positive parts.0)) [
    | inr f ↦ ground (arith, h, e, f)
    | inl t ↦
        scaled_range text parts.1 (number_from 0 parts.0) k d (unit_nanos-IsUnit parts.1 k e)
          (number_positive parts.0 t) (ground (arith, h, e, t))
  ]
]

parse_duration_range :
    (text : Str) (d : Duration) → parse_duration text ≡ ok d → (0 < d.nanos) × (d.nanos ≤ max_int64)
unfolding parse_duration
parse_duration_range text d h = from_parts_range text (split_digits text) d h

-- A horizon is positive and fits an `int64`.
abbrev pub InRange : ℤ → Type 0
InRange h = (pos 0 <ℤ h) × (h ≤ℤ pos max_int64)

override-InRange :
    (field : RetentionField) (text : Str) (h h₁ : ℤ)
    → InRange h
    → override field text h ≡ ok h₁
    → InRange h₁
unfolding override
override-InRange field text h h₁ r e = elim (Result-cases (parse_duration text)) [
  | inr (x, f) ↦ ground (arith, e, f, r)
  | inl (d, f) ↦ ground (arith, e, f, r, parse_duration_range text d f)
]

abbrev AllInRange : RetentionPolicy → Type 0
AllInRange p =
    InRange p.observations
    × InRange p.attempts
    × InRange p.completed_receipts
    × InRange p.resolved_quarantine

effective_policy-AllInRange :
    (cfg : Option Retention) (p : RetentionPolicy) → effective_policy cfg ≡ ok p → AllInRange p
unfolding effective_policy
effective_policy-AllInRange none p h = ground arith
effective_policy-AllInRange (some cfg) p h =
    let (o, eo, h₁) =
      >>=-eq-ok (override field_observations (deref cfg.observations) default_policy.observations) _
        h in
    let (a, ea, h₂) =
      >>=-eq-ok (override field_attempts (deref cfg.attempts) default_policy.attempts) _ h₁ in
    let (c, ec, h₃) =
      >>=-eq-ok
        (override field_completed_receipts (deref cfg.completed_receipts)
          default_policy.completed_receipts)
        _ h₂ in
    let (q, eq, h₄) =
      >>=-eq-ok
        (override field_resolved_quarantine (deref cfg.resolved_quarantine)
          default_policy.resolved_quarantine)
        _ h₃ in
    ground (
      arith,
      h₄,
      override-InRange field_observations (deref cfg.observations) default_policy.observations o
          (ground arith) eo,
      override-InRange field_attempts (deref cfg.attempts) default_policy.attempts a (ground arith)
          ea,
      override-InRange field_completed_receipts (deref cfg.completed_receipts)
          default_policy.completed_receipts c (ground arith) ec,
      override-InRange field_resolved_quarantine (deref cfg.resolved_quarantine)
          default_policy.resolved_quarantine q (ground arith) eq,
    )

-- the horizon is no longer than the one before it, nor than the bound
abbrev pub IsClamped : ℤ → ℤ → ℤ → Type 0
IsClamped clamped horizon bound = InRange clamped × (clamped ≤ℤ horizon) × (clamped ≤ℤ bound)

-- If a configuration has an effective policy, then clamping it by a positive age keeps every horizon
-- positive and within an `int64`, and makes none longer than it was or than the age.
pub clamp_before-IsClamped :
    (cfg : Option Retention) (p : RetentionPolicy) (n : ℕ)
    → effective_policy cfg ≡ ok p
    → 0 < n
    → IsClamped (clamp_before p (pos n)).observations p.observations (pos n)
      × IsClamped (clamp_before p (pos n)).attempts p.attempts (pos n)
      × IsClamped (clamp_before p (pos n)).completed_receipts p.completed_receipts (pos n)
      × IsClamped (clamp_before p (pos n)).resolved_quarantine p.resolved_quarantine (pos n)
unfolding clamp_before
clamp_before-IsClamped cfg p n h l =
    let (o, a, c, q) = effective_policy-AllInRange cfg p h in ground (arith, o, a, c, q)
