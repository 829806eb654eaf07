-- ===== src/Policy/Rows/Meaning.antt =====
-- What it means for a path to match a pattern, `**` standing for any number of whole segments, and
-- what the row says of it.
use agent_dispatch.Base.{
  ℕ, zero, suc, ◌≤◌, ◌<◌, Str, length, get_or, set, replicate, length-set, get_or-set_self,
  get_or-set_ne, length-replicate, true, false, ◌&&◌, &&-true, ◌≡◌, ◌⊎◌, ◌↔◌, inl, inr, refl, sym,
  ap, ◌∙◌, List, [], ◌∷◌, arith, Bool-cases,
}
use agent_dispatch.Policy.Glob.{match_segment}
use agent_dispatch.Policy.Rows.{Segment, Row, ordinary_loop, row_step, row_loop, match_row}
use agent_dispatch.Policy.Rows.Loops.{
  At, Earlier, length-recursive_loop, recursive_loop-from, length-ordinary_loop, ordinary_loop-at,
}

pub data PathMatches : List Segment → List Str → Type 0 where
  done : PathMatches [] []
  name :
      {seg : Segment} {pat : List Segment} {n : Str} {names : List Str}
      → seg.recursive ≡ false
      → match_segment seg.match_text n ≡ true
      → PathMatches pat names
      → PathMatches (seg ∷ pat) (n ∷ names)
  skip :
      {seg : Segment} {pat : List Segment} {names : List Str}
      → seg.recursive ≡ true
      → PathMatches pat names
      → PathMatches (seg ∷ pat) names
  more :
      {seg : Segment} {pat : List Segment} {n : Str} {names : List Str}
      → seg.recursive ≡ true
      → PathMatches (seg ∷ pat) names
      → PathMatches (seg ∷ pat) (n ∷ names)

-- The pattern covers the names from index `t` up to index `j`.
pub data Covers (names : List Str) : List Segment → ℕ → ℕ → Type 0 where
  end : {t j : ℕ} → t ≡ j → Covers names [] t j
  one :
      {seg : Segment} {pat : List Segment} {t j : ℕ}
      → seg.recursive ≡ false
      → t < length names
      → match_segment seg.match_text (get_or names t []) ≡ true
      → Covers names pat (suc t) j
      → Covers names (seg ∷ pat) t j
  any :
      {seg : Segment} {pat : List Segment} {t j : ℕ} (u : ℕ)
      → seg.recursive ≡ true
      → t ≤ u
      → u ≤ length names
      → Covers names pat u j
      → Covers names (seg ∷ pat) t j

-- One round of the outer loop moves the true entries over one segment.
abbrev Stepped : Segment → List Str → Row → ℕ → Type 0
Stepped seg names dp j =
    ((seg.recursive ≡ true) × Earlier 0 j dp)
    ⊎ ((seg.recursive ≡ false)
        × ((t : ℕ) × (suc t ≡ j)
            × At dp t
            × (match_segment seg.match_text (get_or names t []) ≡ true)))

length-row_step :
    (seg : Segment) (names : List Str) (dp : Row) → length (row_step seg names dp) ≡ length dp
unfolding row_step
length-row_step seg names dp = elim (Bool-cases seg.recursive) [
  | inl e ↦ rw e (length-recursive_loop (suc (length names)) 0 false dp)
  | inr e ↦ rw e (
      length-set (ordinary_loop (length names) seg.match_text names dp) 0 false
      ∙ length-ordinary_loop (length names) seg.match_text names dp)
]

ordinary_step :
    (seg : Segment) (names : List Str) (dp : Row) (j : ℕ)
    → length dp ≡ suc (length names)
    → j ≤ length names
    → seg.recursive ≡ false
    → At (set (ordinary_loop (length names) seg.match_text names dp) 0 false) j
      ↔ Stepped seg names dp j
ordinary_step seg names dp zero len hi e =
    let below : get_or (set (ordinary_loop (length names) seg.match_text names dp) 0 false) 0 false
        ≡ false =
      get_or-set_self (ordinary_loop (length names) seg.match_text names dp) 0 false false
        (rw (length-ordinary_loop (length names) seg.match_text names dp) (omega arith)) in
    (
      λ h. absurd (ground arith),
      λ x. elim x [
        | inl (r, _) ↦ absurd (ground arith)
        | inr (_, (t, st, _, _)) ↦ absurd (omega arith)
      ],
    )
ordinary_step seg names dp (suc j) len hi e =
    let value : get_or (set (ordinary_loop (length names) seg.match_text names dp) 0 false) (suc j)
          false
        ≡ (get_or dp j false && match_segment seg.match_text (get_or names j [])) =
      get_or-set_ne (ordinary_loop (length names) seg.match_text names dp) 0 (suc j) false false
        (λ z. omega arith)
      ∙ ordinary_loop-at (length names) j seg.match_text names dp hi (omega arith) in
    (
      λ h.
          let both =
            &&-true (get_or dp j false) (match_segment seg.match_text (get_or names j []))
              (sym value ∙ h) in
          inr (e, (j, refl, both.0, both.1)),
      λ x. elim x [
        | inl (r, _) ↦ absurd (ground arith)
        | inr (_, (t, st, a, m)) ↦
            let q : t ≡ j = omega arith in
            let a' = rw q at a in let m' = rw q at m in value ∙ ground arith
      ],
    )

row_step_iff :
    (seg : Segment) (names : List Str) (dp : Row) (j : ℕ)
    → length dp ≡ suc (length names)
    → j ≤ length names
    → At (row_step seg names dp) j ↔ Stepped seg names dp j
unfolding row_step
row_step_iff seg names dp j len hi = elim (Bool-cases seg.recursive) [
  | inl e ↦
      let r =
        recursive_loop-from (suc (length names)) 0 j false dp (omega arith) (omega arith)
          (omega arith) in
      rw e (
        λ h. elim (r.0 h) [ inl f ↦ absurd (cc) | inr p ↦ inl (refl, p) ],
        λ x. elim x [ inl (_, p) ↦ r.1 (inr p) | inr (f, _) ↦ absurd (cc) ],
      )
  | inr e ↦ rw e (rw e at (ordinary_step seg names dp j len hi e))
]

row_loop→ :
    (pat : List Segment) (names : List Str) (dp : Row) (j : ℕ)
    → length dp ≡ suc (length names)
    → j ≤ length names
    → At (row_loop pat names dp) j
    → (t : ℕ) × (t ≤ length names) × At dp t × Covers names pat t j
unfolding row_loop
row_loop→ [] names dp j len hi h = (j, hi, h, end refl)
row_loop→ (seg ∷ pat) names dp j len hi h =
    let (u, hu, a, cov) =
      row_loop→ pat names (row_step seg names dp) j (length-row_step seg names dp ∙ len) hi h in
    elim ((row_step_iff seg names dp u len hu).0 a) [
      | inl (r, (t, _, tu, b)) ↦ (t, omega arith, b, any u r tu hu cov)
      | inr (r, (t, st, b, m)) ↦ (t, omega arith, b, one r (omega arith) m (rw st cov))
    ]

→row_loop :
    (pat : List Segment) (names : List Str) (dp : Row) (t j : ℕ)
    → length dp ≡ suc (length names)
    → t ≤ length names
    → At dp t
    → Covers names pat t j
    → At (row_loop pat names dp) j
unfolding row_loop
→row_loop [] names dp t j len hi a (end e) = rw (← e) a
→row_loop (seg ∷ pat) names dp t j len hi a (one r lt m cov) =
    →row_loop pat names (row_step seg names dp) (suc t) j (length-row_step seg names dp ∙ len) lt
      ((row_step_iff seg names dp (suc t) len lt).1 (inr (r, (t, refl, a, m)))) cov
→row_loop (seg ∷ pat) names dp t j len hi a (any u r tu hu cov) =
    →row_loop pat names (row_step seg names dp) u j (length-row_step seg names dp ∙ len) hu
      ((row_step_iff seg names dp u len hu).1 (inl (r, (t, omega arith, tu, a)))) cov

-- The first row is true at 0 alone.
At-first : (n t : ℕ) → At (true ∷ replicate n false) t → t ≡ 0
At-first n zero h = refl
At-first zero (suc t) h = absurd (cc)
At-first (suc n) (suc zero) h = absurd (cc)
At-first (suc n) (suc (suc t)) h = absurd (omega (arith, At-first n (suc t) h))

pub match_row_iff :
    (pat : List Segment) (names : List Str) (j : ℕ)
    → j ≤ length names
    → At (match_row pat names) j ↔ Covers names pat 0 j
unfolding match_row
match_row_iff pat names j hi =
    let len : length (true ∷ replicate (length names) false) ≡ suc (length names) =
      ap suc (length-replicate (length names) false) in
    (
      λ h.
          let (t, lt, a, cov) =
            row_loop→ pat names (true ∷ replicate (length names) false) j len hi h in
          rw (At-first (length names) t a) at cov,
      λ cov.
          →row_loop pat names (true ∷ replicate (length names) false) 0 j len (omega arith) refl
            cov,
    )
