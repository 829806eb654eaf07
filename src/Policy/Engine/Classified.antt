-- ===== src/Policy/Engine/Classified.antt =====
-- What a classification means, in terms of the relation between patterns and paths.
use agent_dispatch.Base.{
  ◌≤◌, Str, length, Result-cases, subst, ap, ◌∙◌, any-In, In-any, In, Bool, true, false, ◌||◌, not,
  ◌≡◌, ◌⊎◌, ◌↔◌, inl, inr, refl, List, ok, Bool-cases, arith,
}
use agent_dispatch.Records.Paths.{normalize_path}
use agent_dispatch.Records.Paths.Clean.{normalize_path_iff}
use agent_dispatch.Policy.Rows.{
  Segment, match_segments, match_segments_dir_aware, match_any, match_any_dir_aware,
}
use agent_dispatch.Policy.Rows.Meaning.{PathMatches}
use agent_dispatch.Policy.Rows.Paths.{
  MatchesWithin, match_segments_iff, match_segments_dir_aware_iff,
}
use agent_dispatch.Policy.Engine.{
  Engine, Status, excluded, protected, immutable, normal, names_of, status_of, classify,
}

-- Some pattern of the set matches the path, or the path or a directory above it.
abbrev pub Hits : List (List Segment) → List Str → Type 0
Hits set names = (pat : List Segment) × In pat set × PathMatches pat names

abbrev pub HitsWithin : List (List Segment) → List Str → Type 0
HitsWithin set names = (pat : List Segment) × In pat set × MatchesWithin pat names

pub match_any_iff :
    (set : List (List Segment)) (names : List Str) → (match_any set names ≡ true) ↔ Hits set names
unfolding match_any
match_any_iff set names = (
  λ h.
      let (pat, m, e) = any-In (λ pat. match_segments pat names) set h in
      (pat, m, (match_segments_iff pat names).0 e),
  λ (pat, m, d).
      In-any (λ pat. match_segments pat names) pat set m ((match_segments_iff pat names).1 d),
)

pub match_any_dir_aware_iff :
    (set : List (List Segment)) (names : List Str)
    → (match_any_dir_aware set names ≡ true) ↔ HitsWithin set names
unfolding match_any_dir_aware
match_any_dir_aware_iff set names = (
  λ h.
      let (pat, m, e) = any-In (λ pat. match_segments_dir_aware pat names) set h in
      (pat, m, (match_segments_dir_aware_iff pat names).0 e),
  λ (pat, m, d).
      In-any (λ pat. match_segments_dir_aware pat names) pat set m
        ((match_segments_dir_aware_iff pat names).1 d),
)

-- Out of scope: hit by an exclusion, or by no inclusion.
abbrev pub OutOfScope : Engine → List Str → Type 0
OutOfScope e names = HitsWithin e.exclude_set names ⊎ (¬ Hits e.include_set names)

-- The order of the classes: exclusion before protection before immutability.
abbrev pub HasStatus : Engine → List Str → Status → Type 0
HasStatus e names excluded = OutOfScope e names
HasStatus e names protected = (¬ OutOfScope e names) × Hits e.protected_set names
HasStatus e names immutable =
    (¬ OutOfScope e names) × (¬ Hits e.protected_set names) × Hits e.immutable_set names
HasStatus e names normal =
    (¬ OutOfScope e names) × (¬ Hits e.protected_set names) × (¬ Hits e.immutable_set names)

missed : {A : Type 0} (b : Bool) → (b ≡ true) ↔ A → b ≡ false → ¬ A
missed b f e a = let x = f.1 a in cc

OutOfScope-iff :
    (e : Engine) (names : List Str)
    → ((match_any_dir_aware e.exclude_set names || not (match_any e.include_set names)) ≡ true)
      ↔ OutOfScope e names
OutOfScope-iff e names =
    let x = match_any_dir_aware_iff e.exclude_set names in
    let i = match_any_iff e.include_set names in
    (
      λ h. elim (Bool-cases (match_any_dir_aware e.exclude_set names)) [
        | inl y ↦ inl (x.0 y)
        | inr n ↦ inr (missed (match_any e.include_set names) i (ground arith))
      ],
      λ o. elim o [
        | inl y ↦ let q = x.1 y in ground arith
        | inr n ↦ elim (Bool-cases (match_any e.include_set names)) [
          | inl y ↦ absurd (n (i.0 y))
          | inr z ↦ ground arith
        ]
      ],
    )

module _ (valid_utf8 : Str → Bool) (nfc fold : Str → Str) where
  status_of-HasStatus :
      (e : Engine) (names : List Str) → HasStatus e names (status_of valid_utf8 nfc fold e names)
  unfolding status_of
  status_of-HasStatus e names =
      let o = OutOfScope-iff e names in
      let p = match_any_iff e.protected_set names in
      let m = match_any_iff e.immutable_set names in
      elim (Bool-cases
        (match_any_dir_aware e.exclude_set names || not (match_any e.include_set names))) [
          | inl a ↦ rw a (o.0 a)
          | inr a ↦ elim (Bool-cases (match_any e.protected_set names)) [
            | inl b ↦ rw (a, b) (missed _ o a, p.0 b)
            | inr b ↦ elim (Bool-cases (match_any e.immutable_set names)) [
              | inl c ↦ rw (a, b, c) (missed _ o a, missed _ p b, m.0 c)
              | inr c ↦ rw (a, b, c) (missed _ o a, missed _ p b, missed _ m c)
            ]
          ]
        ]

  HasStatus-unique :
      (e : Engine) (names : List Str) (s t : Status)
      → HasStatus e names s
      → HasStatus e names t
      → s ≡ t
  HasStatus-unique e names excluded excluded h k = refl
  HasStatus-unique e names protected protected h k = refl
  HasStatus-unique e names immutable immutable h k = refl
  HasStatus-unique e names normal normal h k = refl
  HasStatus-unique e names excluded protected h k = absurd (k.0 h)
  HasStatus-unique e names excluded immutable h k = absurd (k.0 h)
  HasStatus-unique e names excluded normal h k = absurd (k.0 h)
  HasStatus-unique e names protected excluded h k = absurd (h.0 k)
  HasStatus-unique e names protected immutable h k = absurd (k.1 h.1)
  HasStatus-unique e names protected normal h k = absurd (k.1 h.1)
  HasStatus-unique e names immutable excluded h k = absurd (h.0 k)
  HasStatus-unique e names immutable protected h k = absurd (h.1 k.1)
  HasStatus-unique e names immutable normal h k = absurd (k.2 h.2)
  HasStatus-unique e names normal excluded h k = absurd (h.0 k)
  HasStatus-unique e names normal protected h k = absurd (h.1 k.1)
  HasStatus-unique e names normal immutable h k = absurd (h.2 k.2)

  -- A path is classified with a status exactly when it is within the length limit, `normalize_path`
  -- accepts it, and its segments have that status.
  pub classify_iff :
      (e : Engine) (path : Str) (st : Status)
      → (classify valid_utf8 nfc fold e path ≡ ok st) ↔ (
          (length path ≤ e.max_path_bytes)
          × (normalize_path valid_utf8 path ≡ ok path)
          × HasStatus e (names_of valid_utf8 nfc fold e path) st)
  unfolding classify
  classify_iff e path st = (forth, back)
    where
      forth :
          classify valid_utf8 nfc fold e path ≡ ok st
          → (length path ≤ e.max_path_bytes)
            × (normalize_path valid_utf8 path ≡ ok path)
            × HasStatus e (names_of valid_utf8 nfc fold e path) st
      forth h = elim (Result-cases (normalize_path valid_utf8 path)) [
        | inl (q, n) ↦
            let same : q ≡ path = ((normalize_path_iff valid_utf8 path q).0 n).0 in
            let now : status_of valid_utf8 nfc fold e (names_of valid_utf8 nfc fold e path) ≡ st =
              ground arith in
            (
              ground arith,
              n ∙ ap ok same,
              subst (HasStatus e (names_of valid_utf8 nfc fold e path)) now
                  (status_of-HasStatus e (names_of valid_utf8 nfc fold e path)),
            )
        | inr (x, n) ↦ absurd (ground arith)
      ]

      back :
          (length path ≤ e.max_path_bytes)
            × (normalize_path valid_utf8 path ≡ ok path)
            × HasStatus e (names_of valid_utf8 nfc fold e path) st
          → classify valid_utf8 nfc fold e path ≡ ok st
      back (l, n, h) =
          let same =
            HasStatus-unique e (names_of valid_utf8 nfc fold e path) _ st
              (status_of-HasStatus e (names_of valid_utf8 nfc fold e path)) h in
          ground arith
