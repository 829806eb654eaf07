-- ===== src/Policy/Engine/Built.antt =====
-- What the engine's constructors put together when they return no error.
use agent_dispatch.Base.{
  Str, In, here, there, Bool, ◌≡◌, inl, inr, refl, sym, subst, List, [], ◌∷◌, ◌++◌, Result, ok, err,
  >>=-eq-ok, ok_injective, Result-cases, arith,
}
use agent_dispatch.Policy.Rows.{Segment}
use agent_dispatch.Policy.Compile.{CompileError, compile, compile_all}
use agent_dispatch.Policy.Engine.{
  Engine, CaseMode, resolved, PatternSet, in_set, fold_engine, default_set, default_max_path_bytes,
  include_patterns, exclude_patterns, protected_patterns, immutable_patterns, build_engine,
}

pub in_set-eq-ok :
    {A : Type 0} (set : PatternSet) (r : Result (Str × CompileError) A) {a : A}
    → in_set set r ≡ ok a
    → r ≡ ok a
in_set-eq-ok set (ok a) h = ground arith
in_set-eq-ok set (err (p, e)) h = cc

module _ (valid_utf8 : Str → Bool) (nfc fold : Str → Str) where
  In-first :
      {p q : Str} {ps : List Str} {sets more_sets : List (List Segment)}
      → In p (q ∷ ps)
      → (segs : List Segment) → compile valid_utf8 nfc q ≡ ok segs
      → segs ∷ more_sets ≡ sets
      → (In p ps
          → (found : List Segment) × (compile valid_utf8 nfc p ≡ ok found) × In found more_sets)
      → (found : List Segment) × (compile valid_utf8 nfc p ≡ ok found) × In found sets
  In-first (here e) segs c w rest = (segs, rw e c, rw (← w) (here refl))
  In-first (there m) segs c w rest = let (found, f, i) = rest m in (found, f, rw (← w) (there i))

  pub compile_all-In :
      (ps : List Str) (sets : List (List Segment)) (p : Str)
      → compile_all valid_utf8 nfc ps ≡ ok sets
      → In p ps
      → (segs : List Segment) × (compile valid_utf8 nfc p ≡ ok segs) × In segs sets
  unfolding compile_all
  compile_all-In [] sets p h m = elim m [ ]
  compile_all-In (q ∷ ps) sets p h m = elim (Result-cases (compile valid_utf8 nfc q)) [
    | inl (segs, c) ↦ elim (Result-cases (compile_all valid_utf8 nfc ps)) [
      | inl (more_sets, r) ↦
          let whole : segs ∷ more_sets ≡ sets = ground arith in
          In-first m segs c whole (compile_all-In ps more_sets p r)
      | inr (x, r) ↦ absurd (ground arith)
    ]
    | inr (x, c) ↦ absurd (ground arith)
  ]

  In-split :
      {segs found : List Segment} {q : Str} {ps : List Str} {sets more_sets : List (List Segment)}
      → compile valid_utf8 nfc q ≡ ok found
      → found ∷ more_sets ≡ sets
      → (In segs more_sets → (p : Str) × In p ps × (compile valid_utf8 nfc p ≡ ok segs))
      → In segs (found ∷ more_sets)
      → (p : Str) × In p (q ∷ ps) × (compile valid_utf8 nfc p ≡ ok segs)
  In-split {q = q} c w rest (here e) = (q, here refl, rw e c)
  In-split c w rest (there m) = let (p, i, k) = rest m in (p, there i, k)

  pub compile_all-from :
      (ps : List Str) (sets : List (List Segment)) (segs : List Segment)
      → compile_all valid_utf8 nfc ps ≡ ok sets
      → In segs sets
      → (p : Str) × In p ps × (compile valid_utf8 nfc p ≡ ok segs)
  unfolding compile_all
  compile_all-from [] sets segs h m =
      let none_left : [] ≡ sets = ok_injective h in
      let m₀ : In segs [] = subst (λ xs. In segs xs) (sym none_left) m in elim m₀ [ ]
  compile_all-from (q ∷ ps) sets segs h m = elim (Result-cases (compile valid_utf8 nfc q)) [
    | inl (found, c) ↦ elim (Result-cases (compile_all valid_utf8 nfc ps)) [
      | inl (more_sets, r) ↦
          let whole : found ∷ more_sets ≡ sets = ground arith in
          In-split c whole (compile_all-from ps more_sets segs r)
            (subst (λ xs. In segs xs) (sym whole) m)
      | inr (x, r) ↦ absurd (ground arith)
    ]
    | inr (x, c) ↦ absurd (ground arith)
  ]

  -- What a built engine is made of.
  pub record Built (with_defaults : Bool) (include exclude protect : List Str) (mode : CaseMode)
      (e : Engine) : Type 0 where
    pub includes : List (List Segment)
    pub excludes : List (List Segment)
    pub protects : List (List Segment)
    pub immutes : List (List Segment)
    pub defaults : List (List Segment)
    pub folds : Bool
    pub include_compiled : compile_all valid_utf8 nfc include ≡ ok includes
    pub mode_resolved : resolved mode ≡ ok folds
    pub protect_compiled : compile_all valid_utf8 nfc protect ≡ ok protects
    pub exclude_compiled : compile_all valid_utf8 nfc exclude ≡ ok excludes
    pub default_compiled : default_set valid_utf8 nfc fold with_defaults ≡ ok defaults
    pub result :
        e
        ≡ fold_engine valid_utf8 nfc fold (record {
          include_set = includes;
          exclude_set = excludes ++ defaults;
          protected_set = protects;
          immutable_set = immutes;
          folds = folds;
          max_path_bytes = default_max_path_bytes;
        })

  pub build_engine-Built :
      (include exclude protect immute : List Str) (mode : CaseMode) (with_defaults : Bool)
      (e : Engine)
      → build_engine valid_utf8 nfc fold include exclude protect immute mode with_defaults ≡ ok e
      → Built with_defaults include exclude protect mode e
  unfolding build_engine
  build_engine-Built include exclude protect immute mode with_defaults e h =
      let (folds, h0, k0) = >>=-eq-ok (resolved mode) _ h in
      let (includes, h1, k1) =
        >>=-eq-ok (in_set include_patterns (compile_all valid_utf8 nfc include)) _ k0 in
      let (excludes, h2, k2) =
        >>=-eq-ok (in_set exclude_patterns (compile_all valid_utf8 nfc exclude)) _ k1 in
      let (protects, h3, k3) =
        >>=-eq-ok (in_set protected_patterns (compile_all valid_utf8 nfc protect)) _ k2 in
      let (immutes, h4, k4) =
        >>=-eq-ok (in_set immutable_patterns (compile_all valid_utf8 nfc immute)) _ k3 in
      let (defaults, h5, k5) = >>=-eq-ok (default_set valid_utf8 nfc fold with_defaults) _ k4 in
      record {
        includes = includes;
        excludes = excludes;
        protects = protects;
        immutes = immutes;
        defaults = defaults;
        folds = folds;
        mode_resolved = h0;
        protect_compiled = in_set-eq-ok protected_patterns _ h3;
        include_compiled = in_set-eq-ok include_patterns _ h1;
        exclude_compiled = in_set-eq-ok exclude_patterns _ h2;
        default_compiled = h5;
        result = sym (ok_injective k5);
      }
