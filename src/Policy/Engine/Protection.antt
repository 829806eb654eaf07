-- ===== src/Policy/Engine/Protection.antt =====
-- The structural exclusions of an ordinary engine, and the scope of an engine for protection.
use agent_dispatch.Base.{
  Str, codes, here, there, Bool, true, false, ◌≡◌, ◌≢◌, ◌↔◌, inl, inr, refl, sym, ◌∙◌, List, [],
  ◌∷◌, ◌++◌, append-nil, map, ok, ok_injective, In-append_right, In-map, Bool-cases,
}
use agent_dispatch.Policy.Glob.{match_segment}
use agent_dispatch.Policy.Rows.{Segment}
use agent_dispatch.Policy.Rows.Meaning.{PathMatches, name, skip, more, done}
use agent_dispatch.Policy.Compile.{star_star, compile, compile_loop, compile_all}
use agent_dispatch.Policy.Engine.{
  immutable, normal, Engine, CaseMode, Status, excluded, protected, fold_engine, fold_segment,
  default_set, default_exclusions, default_patterns, new_engine, new_protection_engine, names_of,
  classify,
}
use agent_dispatch.Policy.Engine.Classified.{Hits, HitsWithin, OutOfScope, HasStatus, classify_iff}
use agent_dispatch.Policy.Engine.Built.{in_set-eq-ok, compile_all-In, Built, build_engine-Built}
use agent_dispatch.Policy.Engine.Protects.{Protects, Built-Protects}

more_all :
    {seg : Segment} {pat : List Segment} {ns : List Str} (pre : List Str)
    → seg.recursive ≡ true
    → PathMatches (seg ∷ pat) ns
    → PathMatches (seg ∷ pat) (pre ++ ns)
more_all [] r d = d
more_all (x ∷ pre) r d = more r (more_all pre r d)

any_rest : {seg : Segment} (rest : List Str) → seg.recursive ≡ true → PathMatches (seg ∷ []) rest
any_rest [] r = skip r done
any_rest (x ∷ rest) r = more r (any_rest rest r)

-- A pattern of `**`, one name and `**` matches every path with that name in it.
anywhere :
    {a b c : Segment} (pre rest : List Str) (n : Str)
    → a.recursive ≡ true
    → b.recursive ≡ false
    → match_segment b.match_text n ≡ true
    → c.recursive ≡ true
    → PathMatches (a ∷ b ∷ c ∷ []) (pre ++ n ∷ rest)
anywhere pre rest n r o m r' = more_all pre r (skip r (name o m (any_rest rest r')))

abbrev git_text : Str
git_text = codes "**/.git/**"

abbrev git_name : Str
git_name = codes ".git"

abbrev pub any_depth : Segment
any_depth = record { text = star_star; match_text = star_star; recursive = true }

abbrev git_segment : Segment
git_segment = record { text = git_name; match_text = git_name; recursive = false }

abbrev git_segments : List Segment
git_segments = any_depth ∷ git_segment ∷ any_depth ∷ []

module _ (valid_utf8 : Str → Bool) (nfc : Str → Str) where
  compile-git :
      (segs : List Segment)
      → nfc git_text ≡ git_text
      → compile valid_utf8 nfc git_text ≡ ok segs
      → git_segments ≡ segs
  unfolding compile compile_loop
  compile-git segs n h = elim (Bool-cases (valid_utf8 git_text)) [
    | inl v ↦ ok_injective (rw (v, n) at h)
    | inr v ↦ absurd (let k = rw v at h in cc)
  ]

  compile-any_depth :
      (segs : List Segment)
      → nfc star_star ≡ star_star
      → compile valid_utf8 nfc star_star ≡ ok segs
      → any_depth ∷ [] ≡ segs
  unfolding compile compile_loop
  compile-any_depth segs n h = elim (Bool-cases (valid_utf8 star_star)) [
    | inl v ↦ ok_injective (rw (v, n) at h)
    | inr v ↦ absurd (let k = rw v at h in cc)
  ]

git_self : match_segment git_name git_name ≡ true
unfolding match_segment
git_self = refl

in_scope_status :
    (e : Engine) (names : List Str) (st : Status)
    → HasStatus e names st
    → ¬ OutOfScope e names
    → (st ≢ excluded) × ((st ≡ protected) ↔ Hits e.protected_set names)
in_scope_status e names excluded h o = absurd (o h)
in_scope_status e names protected h o = (λ q. cc, (λ _. h.1, λ _. refl))
in_scope_status e names immutable h o = (λ q. cc, (λ q. cc, λ x. absurd (h.1 x)))
in_scope_status e names normal h o = (λ q. cc, (λ q. cc, λ x. absurd (h.1 x)))

module _ (valid_utf8 : Str → Bool) (nfc fold : Str → Str) where
  -- The pattern for `.git` at any depth is in every engine for ordinary classification.
  git_excludes :
      (include exclude protect : List Str) (mode : CaseMode) (e : Engine) (pre rest : List Str)
      → Built valid_utf8 nfc fold true include exclude protect mode e
      → nfc git_text ≡ git_text
      → fold git_name ≡ git_name
      → HitsWithin e.exclude_set (pre ++ git_name ∷ rest)
  unfolding fold_engine default_set
  git_excludes include exclude protect mode e pre rest b n f =
      let (segs, c, i) =
        compile_all-In valid_utf8 nfc fold default_exclusions b.defaults git_text
          (in_set-eq-ok default_patterns _ b.default_compiled) (there (here refl)) in
      let same = compile-git valid_utf8 nfc segs n c in
      let inside = In-append_right b.excludes b.defaults (rw (← same) at i) in
      rw b.result (elim (Bool-cases b.folds) [
        | inl y ↦ rw y (
          map (fold_segment valid_utf8 nfc fold) git_segments,
          In-map (map (fold_segment valid_utf8 nfc fold)) inside,
          (
            pre ++ git_name ∷ rest,
            [],
            sym (append-nil _),
            nonempty pre,
            anywhere pre rest git_name refl refl (rw (f, git_self)) refl,
          ),
        )
        | inr z ↦ rw z (
          git_segments,
          inside,
          (
            pre ++ git_name ∷ rest,
            [],
            sym (append-nil _),
            nonempty pre,
            anywhere pre rest git_name refl refl git_self refl,
          ),
        )
      ])
    where
      nonempty : (xs : List Str) → (xs ++ git_name ∷ rest) ≢ []
      nonempty [] h = cc
      nonempty (x ∷ xs) h = cc

  -- An engine for ordinary classification excludes every path with a directory or file `.git` in
  -- it, whatever the operator's patterns are: no pattern of theirs can bring it back into scope. The
  -- normalizer is assumed to leave the built-in pattern `**/.git/**` alone, and the case folding to
  -- leave `.git` alone.
  pub new_engine-excludes_git :
      (include exclude protect immute : List Str) (mode : CaseMode) (e : Engine) (path : Str)
      (pre rest : List Str) (st : Status)
      → nfc git_text ≡ git_text
      → fold git_name ≡ git_name
      → new_engine valid_utf8 nfc fold include exclude protect immute mode ≡ ok e
      → names_of valid_utf8 nfc fold e path ≡ pre ++ git_name ∷ rest
      → classify valid_utf8 nfc fold e path ≡ ok st
      → st ≡ excluded
  unfolding new_engine
  new_engine-excludes_git include exclude protect immute mode e path pre rest st n f built names c =
      let b =
        build_engine-Built valid_utf8 nfc fold include exclude protect immute mode true e built in
      let hit = git_excludes include exclude protect mode e pre rest b n f in
      let (l, ok_path, _) = (classify_iff valid_utf8 nfc fold e path st).0 c in
      let out =
        (classify_iff valid_utf8 nfc fold e path excluded).1 (l, ok_path, inl (rw names hit)) in
      ok_injective (sym c ∙ out)

  all_in_scope :
      (protect : List Str) (mode : CaseMode) (e : Engine) (names : List Str)
      → Built valid_utf8 nfc fold false (star_star ∷ []) [] protect mode e
      → nfc star_star ≡ star_star
      → ¬ OutOfScope e names
  unfolding fold_engine default_set compile_all
  all_in_scope protect mode e names b n o =
      let (segs, c, i) =
        compile_all-In valid_utf8 nfc fold (star_star ∷ []) b.includes star_star b.include_compiled
          (here refl) in
      let same = compile-any_depth valid_utf8 nfc segs n c in
      let inside = rw (← same) at i in
      let no_excludes : [] ≡ b.excludes = ok_injective b.exclude_compiled in
      let no_defaults : [] ≡ b.defaults = ok_injective b.default_compiled in
      elim (Bool-cases b.folds) [
        | inl y ↦ elim (rw (b.result, y, ← no_excludes, ← no_defaults) at o) [
          | inl (pat, m, _) ↦ elim m [ ]
          | inr miss ↦ miss (
            map (fold_segment valid_utf8 nfc fold) (any_depth ∷ []),
            In-map (map (fold_segment valid_utf8 nfc fold)) inside,
            any_rest names refl,
          )
        ]
        | inr z ↦ elim (rw (b.result, z, ← no_excludes, ← no_defaults) at o) [
          | inl (pat, m, _) ↦ elim m [ ]
          | inr miss ↦ miss (any_depth ∷ [], inside, any_rest names refl)
        ]
      ]

  -- An engine for protection classifies no path as excluded, and a path as protected exactly when one
  -- of the protected patterns it was made from matches the path, both folded where the mode ignores
  -- case, whatever the patterns are. The normalizer is assumed to leave the built-in pattern `**`
  -- alone.
  pub new_protection_engine-hides_nothing :
      (protect immute : List Str) (mode : CaseMode) (e : Engine) (path : Str) (st : Status)
      → nfc star_star ≡ star_star
      → new_protection_engine valid_utf8 nfc fold protect immute mode ≡ ok e
      → classify valid_utf8 nfc fold e path ≡ ok st
      → (st ≢ excluded) × ((st ≡ protected) ↔ Protects valid_utf8 nfc fold protect path mode)
  unfolding new_protection_engine
  new_protection_engine-hides_nothing protect immute mode e path st n built c =
      let b =
        build_engine-Built valid_utf8 nfc fold (star_star ∷ []) [] protect immute mode false e
          built in
      let (_, _, h) = (classify_iff valid_utf8 nfc fold e path st).0 c in
      let (apart, there_and_back) =
        in_scope_status e (names_of valid_utf8 nfc fold e path) st h
          (all_in_scope protect mode e (names_of valid_utf8 nfc fold e path) b n) in
      let (f, g) = Built-Protects valid_utf8 nfc fold (star_star ∷ []) [] protect mode e path b in
      (apart, (λ p. f (there_and_back.0 p), λ p. there_and_back.1 (g p)))
