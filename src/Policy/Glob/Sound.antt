-- ===== src/Policy/Glob/Sound.antt =====
-- The matcher's fuel, and its positive answers.
use agent_dispatch.Base.{
  ℕ, zero, suc, ◌+◌, ◌*◌, ◌≤◌, ◌<◌, Str, length, ◌==◌, Bool, true, ◌≡◌, ◌≢◌, inl, inr, refl, Option,
  none, some, [], ◌∷◌, Bool-cases, arith,
}
use agent_dispatch.Policy.Glob.{
  star, question, Back, takes, go_back, segment_loop, segment_fuel, match_segment,
}
use agent_dispatch.Policy.Glob.Meaning.{Matches, byte, skip, eat, only_stars→Matches}

-- The saved position keeps within the bounds `k` on patterns and `m` on names.

abbrev Bounded : ℕ → ℕ → Str → Back → Type 0
Bounded k m s none = Unit {0}
Bounded k m s (some (bp, bs)) = (length bp ≤ k) × (length s ≤ length bs) × (length bs ≤ m)

-- What is left to do, `m` being a bound on the name that a retry may still have to read.
segment_loop-total :
    (k f m : ℕ) (p s : Str) (back : Back)
    → length p ≤ k
    → length s ≤ m
    → Bounded k m s back
    → m * suc k + length p < f
    → segment_loop f p s back ≢ none
unfolding segment_loop
segment_loop-total k zero m p s back hp hs hb hf = elim hf [ ]
segment_loop-total k (suc f) m p [] back hp hs hb hf = ground arith
segment_loop-total k (suc f) zero [] (c ∷ s) back hp hs hb hf = absurd (omega arith)
segment_loop-total k (suc f) (suc m) [] (c ∷ s) none hp hs hb hf = ground arith
segment_loop-total k (suc f) (suc m) [] (c ∷ s) (some (bp, [])) hp hs hb hf = absurd (omega arith)
segment_loop-total k (suc f) (suc m) [] (c ∷ s) (some (bp, x ∷ bs)) hp hs hb hf =
    segment_loop-total k f m bp bs (some (bp, bs)) hb.0 (omega arith) (omega arith) (omega arith)
segment_loop-total k (suc f) zero (a ∷ p) (c ∷ s) back hp hs hb hf = absurd (omega arith)
segment_loop-total k (suc f) (suc m) (a ∷ p) (c ∷ s) none hp hs hb hf = ground (
  arith,
  segment_loop-total k f (suc m) p s none (omega arith) (omega arith) tt (omega arith),
  segment_loop-total k f (suc m) p (c ∷ s) (some (p, c ∷ s)) (omega arith) hs (omega arith)
      (omega arith),
)
segment_loop-total k (suc f) (suc m) (a ∷ p) (c ∷ s) (some (bp, [])) hp hs hb hf =
    absurd (omega arith)
segment_loop-total k (suc f) (suc m) (a ∷ p) (c ∷ s) (some (bp, x ∷ bs)) hp hs hb hf = ground (
  arith,
  segment_loop-total k f (suc m) p s (some (bp, x ∷ bs)) (omega arith) (omega arith) (omega arith)
      (omega arith),
  segment_loop-total k f (suc m) p (c ∷ s) (some (p, c ∷ s)) (omega arith) hs (omega arith)
      (omega arith),
  segment_loop-total k f m bp bs (some (bp, bs)) hb.0 (omega arith) (omega arith) (omega arith),
)

-- The fuel is enough for every pattern and every name, so `match_segment` is the loop's answer.
pub match_segment-total :
    (p s : Str) → segment_loop (segment_fuel p s) p s none ≡ some (match_segment p s)
unfolding match_segment
match_segment-total p s = ground (
  arith,
  segment_loop-total (length p) (segment_fuel p s) (length s) p s none (omega arith) (omega arith)
      tt (omega arith),
)

-- What the saved position proves of the question `G` that was asked at the start.
abbrev Reserve : Type 0 → Back → Type 0
Reserve G none = Unit {0}
Reserve G (some (bp, bs)) = Matches (star ∷ bp) bs → G

byte_sound : {a c : ℕ} {p s : Str} → takes a c ≡ true → Matches p s → Matches (a ∷ p) (c ∷ s)
byte_sound {a} {c} h d = elim (Bool-cases (a == question)) [
  | inl q ↦ byte (inl (ground arith)) d
  | inr q ↦ elim (Bool-cases (a == star)) [
    | inl e ↦ eat (ground arith) (skip (ground arith) d)
    | inr e ↦ byte (inr (ground arith, ground arith)) d
  ]
]

go_back-sound :
    (G : Type 0) (back : Back) (next : Str → Str → Back → Option Bool)
    → Reserve G back
    → ((p s : Str) (b : Back) → (Matches p s → G) → Reserve G b → next p s b ≡ some true → G)
    → go_back back next ≡ some true
    → G
unfolding go_back
go_back-sound G none next r ih h = absurd (cc)
go_back-sound G (some (bp, [])) next r ih h = ih bp [] (some (bp, [])) (λ d. r (skip refl d)) r h
go_back-sound G (some (bp, x ∷ bs)) next r ih h =
    ih bp bs (some (bp, bs)) (λ d. r (eat refl (skip refl d))) (λ d. r (eat refl d)) h

segment_loop-sound :
    (G : Type 0) (f : ℕ) (p s : Str) (back : Back)
    → (Matches p s → G)
    → Reserve G back
    → segment_loop f p s back ≡ some true
    → G
unfolding segment_loop
segment_loop-sound G zero p s back now r h = absurd (cc)
segment_loop-sound G (suc f) p [] back now r h = now (only_stars→Matches p (ground arith))
segment_loop-sound G (suc f) [] (c ∷ s) back now r h =
    go_back-sound G back (segment_loop f) r (segment_loop-sound G f) h
segment_loop-sound G (suc f) (a ∷ p) (c ∷ s) back now r h = elim (Bool-cases (takes a c)) [
  | inl e ↦ segment_loop-sound G f p s back (λ d. now (byte_sound e d)) r (ground arith)
  | inr e ↦ elim (Bool-cases (a == star)) [
    | inl q ↦
        segment_loop-sound G f p (c ∷ s) (some (p, c ∷ s)) (λ d. now (skip (ground arith) d))
          (λ d. now (rw (let x : a ≡ star = ground arith in x) d)) (ground arith)
    | inr q ↦ go_back-sound G back (segment_loop f) r (segment_loop-sound G f) (ground arith)
  ]
]

-- A name that `match_segment` accepts matches the pattern.
pub match_segment_sound : (p s : Str) → match_segment p s ≡ true → Matches p s
match_segment_sound p s h =
    segment_loop-sound (Matches p s) (segment_fuel p s) p s none (λ d. d) tt
      (rw (match_segment-total p s, h))
