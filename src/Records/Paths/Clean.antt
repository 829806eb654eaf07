-- ===== src/Records/Paths/Clean.antt =====
-- What `normalize_path` accepts.
use agent_dispatch.Base.{
  ℕ, Str, is_empty, ◌==◌, Bool, true, false, List, [], ◌∷◌, ◌++◌, none, ok, ◌≡◌, ◌≢◌, ◌↔◌, refl,
  arith, str_eq_iff, Bool-cases, inl, inr, codes, In, here, there,
}
use agent_dispatch.Records.Paths.{
  slash, backslash, contains_byte, starts_with_slash, split_from, split, check_segments,
  normalize_path,
}

-- `strings.Join(segs, "/")`

abbrev pub join : List Str → Str
join [] = []
join (seg ∷ []) = seg
join (seg ∷ more ∷ segs) = seg ++ slash ∷ join (more ∷ segs)

abbrev pub CleanSegment : Str → Type 0
CleanSegment seg =
    (seg ≢ []) × (seg ≢ codes ".") × (seg ≢ codes "..") × (contains_byte slash seg ≡ false)

abbrev pub AllClean : List Str → Type 0
AllClean segs = (seg : Str) → In seg segs → CleanSegment seg

join-cons :
    (c : ℕ) (first : Str) (rest : List Str) → join ((c ∷ first) ∷ rest) ≡ c ∷ join (first ∷ rest)
join-cons c first [] = refl
join-cons c first (seg ∷ rest) = refl

-- Joining what `split` cuts gives the path back.
join-split : (s : Str) → join (split s) ≡ s
join-split [] = refl
join-split (c ∷ s) = elim (Bool-cases (c == slash)) [
  | inl e ↦ rw e (let q : c ≡ slash = ground arith in rw (q, join-split s))
  | inr e ↦ rw e (rw (join-cons c (split_from s).0 (split_from s).1, join-split s))
]

no_slash-first : (s : Str) → contains_byte slash (split_from s).0 ≡ false
no_slash-first [] = refl
no_slash-first (c ∷ s) = ground (arith, no_slash-first s)

first_or_rest :
    (s seg : Str)
    → (In seg (split_from s).1 → contains_byte slash seg ≡ false)
    → In seg (split s)
    → contains_byte slash seg ≡ false
first_or_rest s seg rest (here q) = rw q (no_slash-first s)
first_or_rest s seg rest (there k) = rest k

no_slash-rest : (s seg : Str) → In seg (split_from s).1 → contains_byte slash seg ≡ false
no_slash-rest [] seg m = elim m [ ]
no_slash-rest (c ∷ s) seg m = elim (Bool-cases (c == slash)) [
  | inl e ↦ first_or_rest s seg (no_slash-rest s seg) (rw e at m)
  | inr e ↦ no_slash-rest s seg (rw e at m)
]

check→clean :
    (segs : List Str)
    → check_segments segs ≡ none
    → (seg : Str) → In seg segs
    → (seg ≢ []) × (seg ≢ codes ".") × (seg ≢ codes "..")
unfolding check_segments
check→clean [] h seg m = elim m [ ]
check→clean (x ∷ segs) h seg (here e) =
    rw e (ground (arith, str_eq_iff x (codes "."), str_eq_iff x (codes "..")))
check→clean (x ∷ segs) h seg (there m) = check→clean segs (ground arith) seg m

clean→check :
    (segs : List Str)
    → ((seg : Str) → In seg segs → (seg ≢ []) × (seg ≢ codes ".") × (seg ≢ codes ".."))
    → check_segments segs ≡ none
unfolding check_segments
clean→check [] h = refl
clean→check (x ∷ segs) h = ground (
  arith,
  h x (here refl),
  str_eq_iff x (codes "."),
  str_eq_iff x (codes ".."),
  clean→check segs (λ seg m. h seg (there m)),
)

split-no_slash : (s seg : Str) → In seg (split s) → contains_byte slash seg ≡ false
split-no_slash s seg m = first_or_rest s seg (no_slash-rest s seg) m

first_nonempty :
    (p : Str) → (split_from p).0 ≢ [] → (is_empty p ≡ false) × (starts_with_slash p ≡ false)
first_nonempty [] h = absurd (h refl)
first_nonempty (c ∷ p) h = ground arith

module _ (valid_utf8 : Str → Bool) where
  -- A path is accepted exactly when it is valid UTF-8 without NUL and backslash and each of the
  -- parts between its slashes is a name: not empty, not `.` and not `..`. It comes back unchanged.
  pub normalize_path_iff :
      (p q : Str)
      → (normalize_path valid_utf8 p ≡ ok q) ↔ (
          (q ≡ p)
          × (valid_utf8 p ≡ true)
          × (contains_byte 0 p ≡ false)
          × (contains_byte backslash p ≡ false)
          × AllClean (split p))
  unfolding normalize_path
  normalize_path_iff p q = (forth, back)
    where
      forth :
          normalize_path valid_utf8 p ≡ ok q
          → (q ≡ p)
            × (valid_utf8 p ≡ true)
            × (contains_byte 0 p ≡ false)
            × (contains_byte backslash p ≡ false)
            × AllClean (split p)
      forth h =
          let ok_segments : check_segments (split p) ≡ none = ground arith in
          (
            ground arith,
            ground arith,
            ground arith,
            ground arith,
            λ seg m.
                let (a, b, c) = check→clean (split p) ok_segments seg m in
                (a, b, c, split-no_slash p seg m),
          )

      back :
          (q ≡ p)
            × (valid_utf8 p ≡ true)
            × (contains_byte 0 p ≡ false)
            × (contains_byte backslash p ≡ false)
            × AllClean (split p)
          → normalize_path valid_utf8 p ≡ ok q
      back (e, v, z, b, clean) =
          let ok_segments : check_segments (split p) ≡ none =
            clean→check (split p) (λ seg m. let (a, b, c, d) = clean seg m in (a, b, c)) in
          let head = first_nonempty p (clean (split_from p).0 (here refl)).0 in ground arith
