-- ===== src/Policy/Glob/Complete.antt =====
-- The matcher's negative answers, with and without a `*` byte in the name: the loop compares a byte
-- of the name with the pattern's star before it reads the star as a wildcard.
use agent_dispatch.Base.{
  ℕ, zero, suc, Str, length, ◌==◌, Bool, true, false, ◌≡◌, ◌↔◌, ◌≤◌, ◌<◌, inl, inr, refl, Option,
  none, some, [], ◌∷◌, Bool-cases, arith, not, all,
}
use agent_dispatch.Policy.Glob.{
  star, Back, takes, go_back, segment_loop, segment_fuel, match_segment,
}
use agent_dispatch.Policy.Glob.Meaning.{
  Matches, empty, skip, eat, byte_inv, at_end, must_eat, one_star, after_byte, Matches→only_stars,
}
use agent_dispatch.Policy.Glob.Sound.{match_segment-total, match_segment_sound}

-- No byte of the name is a star.

abbrev pub star_free : Str → Bool
star_free s = all (λ c. not (c == star)) s

-- What the saved position means for the question `G` that was asked at the start.
abbrev Saved : Type 0 → Str → Str → Back → Type 0
Saved G p s none = G → Matches p s
Saved G p s (some (bp, bs)) =
    (G → Matches (star ∷ bp) bs)
    × (Matches bp bs → Matches p s)
    × (star_free bs ≡ true)
    × (length s ≤ length bs)

record Pending (G : Type 0) (p s : Str) (back : Back) : Type 0 where
  later : G → Matches (star ∷ p) s
  saved : Saved G p s back
  free : star_free s ≡ true

takes_inv :
    {a c : ℕ} {p s : Str}
    → takes a c ≡ true
    → (c == star) ≡ false
    → Matches (a ∷ p) (c ∷ s)
    → Matches p s
takes_inv h n d = (byte_inv d (ground arith)).1

Saved-byte :
    (G : Type 0) (a c : ℕ) (p s : Str) (back : Back)
    → takes a c ≡ true
    → (c == star) ≡ false
    → Saved G (a ∷ p) (c ∷ s) back
    → Saved G p s back
Saved-byte G a c p s none h n k = λ g. takes_inv h n (k g)
Saved-byte G a c p s (some (bp, bs)) h n k = (k.0, λ d. takes_inv h n (k.1 d), k.2, omega arith)

go_back_complete :
    (G : Type 0) {p s : Str} {c : ℕ} (back : Back) (next : Str → Str → Back → Option Bool)
    → Pending G p (c ∷ s) back
    → ¬ Matches p (c ∷ s)
    → ((q t : Str) (b : Back) → Pending G q t b → next q t b ≡ some false → ¬ G)
    → go_back back next ≡ some false
    → ¬ G
unfolding go_back
go_back_complete G none next i stuck ih h = λ g. stuck (i.saved g)
go_back_complete G (some (bp, [])) next i stuck ih h = absurd (omega arith)
go_back_complete G (some (bp, x ∷ bs)) next i stuck ih h =
    let (start, down, free, shorter) = i.saved in
    let again : G → Matches (star ∷ bp) bs = λ g. must_eat refl (start g) (λ d. stuck (down d)) in
    ih bp bs (some (bp, bs))
      (record {
        later = again;
        saved = (again, λ d. d, ground arith, omega arith);
        free = ground arith;
      })
      h

no_byte :
    {a c : ℕ} {p s : Str} → takes a c ≡ false → (a == star) ≡ false → ¬ Matches (a ∷ p) (c ∷ s)
no_byte {a} h n d = elim ((byte_inv d (ground arith)).0) [
  | inl e ↦ ground arith
  | inr e ↦ ground arith
]

segment_loop_complete :
    (G : Type 0) (f : ℕ) (p s : Str) (back : Back)
    → Pending G p s back
    → segment_loop f p s back ≡ some false
    → ¬ G
unfolding segment_loop
segment_loop_complete G zero p s back i h = absurd (cc)
segment_loop_complete G (suc f) p [] back i h =
    λ g. ground (arith, Matches→only_stars (at_end refl (i.later g)))
segment_loop_complete G (suc f) [] (c ∷ s) back i h =
    go_back_complete G back (segment_loop f) i (λ d. elim d [ ]) (segment_loop_complete G f) h
segment_loop_complete G (suc f) (a ∷ p) (c ∷ s) back i h = elim (Bool-cases (takes a c)) [
  | inl e ↦
      segment_loop_complete G f p s back
        (record {
          later = λ g. after_byte s refl (ground arith) (i.later g);
          saved = Saved-byte G a c p s back e (ground arith) i.saved;
          free = ground arith;
        })
        (ground arith)
  | inr e ↦ elim (Bool-cases (a == star)) [
    | inl q ↦
        let starred : a ≡ star = ground arith in
        let now : G → Matches (star ∷ p) (c ∷ s) =
          λ g. rw starred at (one_star refl starred (i.later g)) in
        segment_loop_complete G f p (c ∷ s) (some (p, c ∷ s))
          (record { later = now; saved = (now, λ d. d, i.free, omega arith); free = i.free })
          (ground arith)
    | inr q ↦
        go_back_complete G back (segment_loop f) i (no_byte e q) (segment_loop_complete G f)
          (ground arith)
  ]
]

-- On every name with no `*` byte, `match_segment` answers true exactly when the name matches the
-- pattern.
pub match_segment_iff : (p s : Str) → star_free s ≡ true → (match_segment p s ≡ true) ↔ Matches p s
match_segment_iff p s free = (
  match_segment_sound p s,
  λ d. elim (Bool-cases (match_segment p s)) [
    | inl e ↦ e
    | inr e ↦ absurd (
        segment_loop_complete (Matches p s) (segment_fuel p s) p s none
          (record { later = λ g. skip refl g; saved = λ g. g; free = free })
          (rw (match_segment-total p s, e)) d)
  ],
)

any_run : (t : Str) → Matches (star ∷ []) t
any_run [] = skip refl empty
any_run (x ∷ t) = eat refl (any_run t)

stuck_at : (n c : ℕ) (s : Str) → 1 < n → segment_loop n (star ∷ []) (star ∷ c ∷ s) none ≡ some false
unfolding segment_loop
stuck_at zero c s h = elim h [ ]
stuck_at (suc zero) c s h = absurd (omega arith)
stuck_at (suc (suc n)) c s h = refl

-- A pattern that is one star rejects every name of two bytes or more that begins with the byte `*`,
-- though any name matches such a pattern.
pub star_pattern_rejects :
    (c : ℕ) (s : Str)
    → (match_segment (star ∷ []) (star ∷ c ∷ s) ≡ false) × Matches (star ∷ []) (star ∷ c ∷ s)
star_pattern_rejects c s =
    let e = match_segment-total (star ∷ []) (star ∷ c ∷ s) in
    let r = stuck_at (segment_fuel (star ∷ []) (star ∷ c ∷ s)) c s (omega arith) in
    (ground arith, any_run (star ∷ c ∷ s))
