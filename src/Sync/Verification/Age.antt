-- ===== src/Sync/Verification/Age.antt =====
-- internal/domain/syncrecords/verification.go: the age of evidence in whole seconds.
use agent_dispatch.Base.{
  ℕ, zero, suc, ◌+◌, ◌-◌, ◌*◌, ◌/◌, ◌%◌, ◌^◌, ◌≤◌, ◌<◌, ltb, leb, true, false, ◌≡◌, ap, ◌∙◌, arith,
  Bool-cases, inl, inr,
}
use agent_dispatch.Base.Int.{pos, negsuc, leb_ℤ}
use agent_dispatch.Sync.Verification.{
  int64, minus, evidence_age_seconds_since, StatusResponse, node_from_status, max_evidence_age,
  valid_status,
}

int64-small : (m : ℕ) → m < 2 ^ 63 → int64 m ≡ pos m
int64-small m h =
    let e : m % 2 ^ 64 ≡ m = omega arith in
    let t : ltb m (2 ^ 63) ≡ true = ground arith in rw (e, t)

evidence_age-rounded :
    (n : ℕ)
    → suc n + 999999999 < 2 ^ 63
    → evidence_age_seconds_since (pos (suc n)) ≡ pos ((suc n + 999999999) / 1000000000)
unfolding evidence_age_seconds_since
evidence_age-rounded n k = rw (int64-small (suc n + 999999999) k)

minus-negative : (q : ℕ) → 0 < q → leb_ℤ (pos 0) (minus q) ≡ false
minus-negative zero h = ground arith
minus-negative (suc q) h = ground arith

int64-large : (m : ℕ) → 2 ^ 63 ≤ m → m < 2 ^ 64 → int64 m ≡ negsuc (2 ^ 64 - m - 1)
int64-large m h k =
    let e : m % 2 ^ 64 ≡ m = omega arith in
    let t : ltb m (2 ^ 63) ≡ false = ground arith in rw (e, t)

evidence_age-negative :
    (n : ℕ)
    → suc n < 2 ^ 63
    → 2 ^ 63 ≤ suc n + 999999999
    → leb_ℤ (pos 0) (evidence_age_seconds_since (pos (suc n))) ≡ false
unfolding evidence_age_seconds_since
evidence_age-negative n h k =
    let q : 0 < suc (2 ^ 64 - (suc n + 999999999) - 1) / 1000000000 = omega arith in
    rw (int64-large (suc n + 999999999) k (omega arith))
      (minus-negative (suc (2 ^ 64 - (suc n + 999999999) - 1) / 1000000000) q)

valid_status-not_negative :
    (r : StatusResponse) → valid_status r ≡ true → leb_ℤ (pos 0) r.evidence_age_seconds ≡ true
unfolding valid_status
valid_status-not_negative r h = ground arith

rounded_fresh : (m : ℕ) → leb ((m + 999999999) / 1000000000) 300 ≡ leb m 300000000000
rounded_fresh m = ground arith

pos_fresh : (a : ℕ) → leb_ℤ (pos a) max_evidence_age ≡ leb a 300
pos_fresh a = ground arith

-- A status that validates, with an age taken from n nanoseconds (n positive and an `int64`), carries n
-- in seconds rounded up, and the node made of it is fresh exactly when n is at most 300 seconds.
pub valid_status-age :
    (r : StatusResponse) (n : ℕ)
    → 0 < n
    → n < 2 ^ 63
    → valid_status r ≡ true
    → r.evidence_age_seconds ≡ evidence_age_seconds_since (pos n)
    → (a : ℕ) × (r.evidence_age_seconds ≡ pos a)
      × (n ≤ a * 1000000000)
      × (a * 1000000000 < n + 1000000000)
      × ((node_from_status r).evidence_fresh ≡ leb n 300000000000)
unfolding node_from_status
valid_status-age r zero p h v e = ground arith
valid_status-age r (suc n) p h v e = elim (Bool-cases (ltb (suc n + 999999999) (2 ^ 63))) [
  | inl t ↦
      (let rounded : r.evidence_age_seconds ≡ pos ((suc n + 999999999) / 1000000000) =
          e ∙ evidence_age-rounded n (ground (arith, t)) in
        (
          (suc n + 999999999) / 1000000000,
          rounded,
          omega arith,
          omega arith,
          ap (λ x. leb_ℤ x max_evidence_age) rounded
              ∙ pos_fresh ((suc n + 999999999) / 1000000000)
              ∙ rounded_fresh (suc n),
        ))
  | inr f ↦
      ground
        (arith, valid_status-not_negative r v, evidence_age-negative n h (ground (arith, f)), e)
]
