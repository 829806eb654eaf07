-- ===== src/Policy/Compile/Shape.antt =====
-- What `compile` returns: which patterns it accepts, and what segments it makes of them.
use agent_dispatch.Base.{
  Str, codes, length, str_eq, str_eq_iff, is_empty, Bool, true, false, ◌||◌, not, ◌&&◌, ◌≡◌, ◌≢◌,
  ◌⊎◌, ◌↔◌, inl, inr, refl, ap, ◌∙◌, List, [], ◌∷◌, ok, err, Result-cases, arith,
}
use agent_dispatch.Records.Paths.{
  split, is_dot, is_dot_dot, contains_byte, starts_with_slash, backslash,
}
use agent_dispatch.Policy.Rows.{Segment}
use agent_dispatch.Policy.Compile.{
  panic, star_star, contains_stars, starts_with_dot_slash, ends_with_slash_dot, segment_of,
  compile_loop, compile,
}

-- A part of a pattern that may stand between two slashes.
abbrev pub Admissible : Str → Type 0
Admissible raw =
    (raw ≢ [])
    × (raw ≢ codes ".")
    × (raw ≢ codes "..")
    × ((raw ≡ star_star) ⊎ (contains_stars raw ≡ false))

abbrev pub AllAdmissible : List Str → Type 0
AllAdmissible [] = Unit {0}
AllAdmissible (raw ∷ parts) = Admissible raw × AllAdmissible parts

-- The segments made of normalized parts and of the operator's own texts.
abbrev pub segments_of : List Str → List Str → List Segment
segments_of (raw ∷ parts) (text ∷ texts) = segment_of raw text ∷ segments_of parts texts
segments_of _ _ = []

Admissible-part :
    (raw : Str)
    → is_empty raw ≡ false
    → is_dot_dot raw ≡ false
    → is_dot raw ≡ false
    → (str_eq raw star_star ≡ true) ⊎ (contains_stars raw ≡ false)
    → Admissible raw
Admissible-part raw a b c d = (
  ground arith,
  ground (arith, str_eq_iff raw (codes ".")),
  ground (arith, str_eq_iff raw (codes "..")),
  elim d [ inl e ↦ inl ((str_eq_iff raw star_star).0 e) | inr e ↦ inr e ],
)

-- the tests that a part has to pass, as one
passes : Str → Bool
passes raw =
    not (is_empty raw)
    && not (is_dot_dot raw)
    && not (is_dot raw)
    && (str_eq raw star_star || not (contains_stars raw))

passes_iff : (raw : Str) → (passes raw ≡ true) ↔ Admissible raw
unfolding passes
passes_iff raw = (
  λ h. Admissible-part raw (ground arith) (ground arith) (ground arith) (ground arith),
  λ (a, b, c, d).
      ground
        (arith, str_eq_iff raw (codes "."), str_eq_iff raw (codes ".."), str_eq_iff raw star_star),
)

loop-cons :
    (raw text : Str) (parts texts : List Str) (segs : List Segment)
    → (compile_loop (raw ∷ parts) (text ∷ texts) ≡ ok segs) ↔ (
        (passes raw ≡ true)
        × ((more : List Segment) × (compile_loop parts texts ≡ ok more)
            × (segs ≡ segment_of raw text ∷ more)))
unfolding compile_loop passes
loop-cons raw text parts texts segs = (
  λ h. elim (Result-cases (compile_loop parts texts)) [
    | inl (more, r) ↦ (ground arith, (more, r, ground arith))
    | inr (x, r) ↦ absurd (ground arith)
  ],
  λ (p, (more, r, e)). ground arith,
)

compile_loop_iff :
    (parts texts : List Str) (segs : List Segment)
    → length parts ≡ length texts
    → (compile_loop parts texts ≡ ok segs)
      ↔ (AllAdmissible parts × (segs ≡ segments_of parts texts))
unfolding compile_loop
compile_loop_iff [] [] segs l = (λ h. (tt, ground arith), λ (_, e). ground arith)
compile_loop_iff [] (t ∷ texts) segs l = absurd (cc)
compile_loop_iff (raw ∷ parts) [] segs l = absurd (cc)
compile_loop_iff (raw ∷ parts) (text ∷ texts) segs l =
    let step = loop-cons raw text parts texts segs in
    let shorter : length parts ≡ length texts = omega arith in
    (
      λ h.
          let (p, (later, r, e)) = step.0 h in
          let (a, m) = (compile_loop_iff parts texts later shorter).0 r in
          (((passes_iff raw).0 p, a), e ∙ ap (λ (l : List Segment). segment_of raw text ∷ l) m),
      λ ((a, others), e). step.1 (
        (passes_iff raw).1 a,
        (segments_of parts texts, (compile_loop_iff parts texts _ shorter).1 (others, refl), e),
      ),
    )

no_panic :
    (parts texts : List Str) → length parts ≡ length texts → compile_loop parts texts ≢ err panic
unfolding compile_loop
no_panic [] [] l h = cc
no_panic [] (t ∷ texts) l h = cc
no_panic (raw ∷ parts) [] l h = cc
no_panic (raw ∷ parts) (text ∷ texts) l h = ground (arith, no_panic parts texts (ground arith))

-- A pattern text that is worth splitting.
abbrev pub Plain : (Str → Bool) → Str → Type 0
Plain valid_utf8 p =
    (p ≢ [])
    × (valid_utf8 p ≡ true)
    × (contains_byte 0 p ≡ false)
    × (starts_with_slash p ≡ false)
    × (contains_byte backslash p ≡ false)
    × (starts_with_dot_slash p ≡ false)
    × (ends_with_slash_dot p ≡ false)

module _ (valid_utf8 : Str → Bool) (nfc : Str → Str) where
  -- For a normalizer that keeps the number of slashes of the pattern, `compile` does not panic, and
  -- it accepts a pattern exactly when its text is plain and each part of the normalized pattern is
  -- a name without `**` inside, or `**` itself. The segments are then the parts in order, marked as
  -- recursive where they are `**`, with the operator's own texts beside them.
  pub compile_iff :
      (p : Str) (segs : List Segment)
      → length (split (nfc p)) ≡ length (split p)
      → (compile valid_utf8 nfc p ≢ err panic)
        × ((compile valid_utf8 nfc p ≡ ok segs) ↔ (
            Plain valid_utf8 p
            × AllAdmissible (split (nfc p))
            × (segs ≡ segments_of (split (nfc p)) (split p))))
  unfolding compile
  compile_iff p segs l =
      let loop = compile_loop_iff (split (nfc p)) (split p) segs l in
      (
        ground (arith, no_panic (split (nfc p)) (split p) l),
        (
          λ h.
              let inner : compile_loop (split (nfc p)) (split p) ≡ ok segs = ground arith in
              let (a, e) = loop.0 inner in
              (
                (
                  ground arith,
                  ground arith,
                  ground arith,
                  ground arith,
                  ground arith,
                  ground arith,
                  ground arith,
                ),
                a,
                e,
              ),
          λ (plain, a, e). let inner = loop.1 (a, e) in ground arith,
        ),
      )
