-- ===== src/Policy/Engine.antt =====
-- internal/domain/policy/pattern.go, the engine: four compiled pattern sets, and the classification
-- of one path. `cases.Fold().String` belongs to golang.org/x/text: `fold`.
pub mod Built
pub mod Classified
pub mod Protects
pub mod Protection
use agent_dispatch.Base.{
  ℕ, suc, Str, codes, length, ltb, is_empty, if◌then◌else◌, Bool, true, false, ◌||◌, not, List, [],
  ◌∷◌, ◌++◌, map, Result, ok, err, ◌>>=◌,
}
use agent_dispatch.Base.Int.{ℤ, pos, negsuc}
use agent_dispatch.Records.Paths.{PathError, split, normalize_path}
use agent_dispatch.Policy.Rows.{Segment, match_any, match_any_dir_aware}
use agent_dispatch.Policy.Compile.{CompileError, compile_all}

pub data CaseMode : Type 0 where
  case_filesystem case_sensitive case_insensitive : CaseMode

pub data Status : Type 0 where
  excluded protected immutable normal : Status

abbrev pub default_exclusions : List Str
default_exclusions =
    codes ".git/**"
    ∷ codes "**/.git/**"
    ∷ codes ".watchman-cookie-*"
    ∷ codes "**/.watchman-cookie-*"
    ∷ codes ".watchman-state*"
    ∷ codes "**/.watchman-state*"
    ∷ codes ".DS_Store"
    ∷ codes "**/.DS_Store"
    ∷ []

abbrev pub default_max_path_bytes : ℕ
default_max_path_bytes = 4096

pub record Engine : Type 0 where
  pub include_set : List (List Segment)
  pub exclude_set : List (List Segment)
  pub protected_set : List (List Segment)
  pub immutable_set : List (List Segment)
  pub folds : Bool
  pub max_path_bytes : ℕ

pub data PatternSet : Type 0 where
  include_patterns exclude_patterns protected_patterns immutable_patterns : PatternSet
  default_patterns : PatternSet

pub data EngineError : Type 0 where
  unresolved_mode : CaseMode → EngineError
  bad_pattern : PatternSet → Str → CompileError → EngineError

-- `%s %q: %v`: which set a compile error came from
abbrev in_set {ℓ} : {A : Type ℓ} → PatternSet → Result (Str × CompileError) A → Result EngineError A
in_set set (ok a) = ok a
in_set set (err (p, e)) = err (bad_pattern set p e)

abbrev resolved : CaseMode → Result EngineError Bool
resolved case_sensitive = ok false
resolved case_insensitive = ok true
resolved case_filesystem = err (unresolved_mode case_filesystem)

pub data ClassifyError : Type 0 where
  path_too_long : ℕ → ClassifyError
  unusable_path : PathError → ClassifyError

-- zero or negative restores the default
pub set_max_path_bytes : ℤ → Engine → Engine
set_max_path_bytes (pos (suc n)) e = record e { max_path_bytes = suc n }
set_max_path_bytes (pos ℕ.zero) e = record e { max_path_bytes = default_max_path_bytes }
set_max_path_bytes (negsuc n) e = record e { max_path_bytes = default_max_path_bytes }

module _ (valid_utf8 : Str → Bool) (nfc fold : Str → Str) where
  abbrev pub fold_segment : Segment → Segment
  fold_segment seg = record seg { match_text = fold seg.match_text }

  abbrev pub fold_set : List (List Segment) → List (List Segment)
  fold_set set = map (λ pat. map fold_segment pat) set

  pub fold_engine : Engine → Engine
  fold_engine e =
      if e.folds
      then record e {
        include_set = fold_set e.include_set;
        exclude_set = fold_set e.exclude_set;
        protected_set = fold_set e.protected_set;
        immutable_set = fold_set e.immutable_set;
      }
      else e

  pub default_set : Bool → Result EngineError (List (List Segment))
  default_set true = in_set default_patterns (compile_all valid_utf8 nfc default_exclusions)
  default_set false = ok []

  unfoldable pub build_engine :
      List Str → List Str → List Str → List Str → CaseMode → Bool → Result EngineError Engine
  unfolding fold_engine default_set
  build_engine include exclude protect immute mode with_defaults = do
    folds ← resolved mode
    includes ← in_set include_patterns (compile_all valid_utf8 nfc include)
    excludes ← in_set exclude_patterns (compile_all valid_utf8 nfc exclude)
    protects ← in_set protected_patterns (compile_all valid_utf8 nfc protect)
    immutes ← in_set immutable_patterns (compile_all valid_utf8 nfc immute)
    defaults ← default_set with_defaults
    ok (
        fold_engine (record {
          include_set = includes;
          exclude_set = excludes ++ defaults;
          protected_set = protects;
          immutable_set = immutes;
          folds = folds;
          max_path_bytes = default_max_path_bytes;
        }))

  unfoldable pub new_engine :
      List Str → List Str → List Str → List Str → CaseMode → Result EngineError Engine
  unfolding build_engine
  new_engine include exclude protect immute mode =
      build_engine include exclude protect immute mode true

  unfoldable pub new_protection_engine : List Str → List Str → CaseMode → Result EngineError Engine
  unfolding build_engine
  new_protection_engine protect immute mode =
      build_engine (codes "**" ∷ []) [] protect immute mode false

  -- the path's segments, as they are matched
  abbrev pub names_of : Engine → Str → List Str
  names_of e path = if e.folds then map fold (split (nfc path)) else split (nfc path)

  unfoldable pub status_of : Engine → List Str → Status
  status_of e names =
      if match_any_dir_aware e.exclude_set names || not (match_any e.include_set names)
      then excluded
      else if match_any e.protected_set names
      then protected
      else if match_any e.immutable_set names
      then immutable
      else normal

  unfoldable pub classify : Engine → Str → Result ClassifyError Status
  classify e path =
      if ltb e.max_path_bytes (length path)
      then err (path_too_long e.max_path_bytes)
      else elim (normalize_path valid_utf8 path) [
        | err x ↦ err (unusable_path x)
        | ok _ ↦ ok (status_of e (names_of e path))
      ]

  -- The error carries the index of the path that it is about.
  classify_from : ℕ → Engine → List Str → Result (ℕ × ClassifyError) (List Status)
  unfolding classify
  classify_from i e [] = ok []
  classify_from i e (p ∷ paths) =
      let rest = classify_from (suc i) e paths in
      elim (classify e p) [
        | err x ↦ err (i, x)
        | ok st ↦ elim rest [ ok sts ↦ ok (st ∷ sts) | err x ↦ err x ]
      ]

  unfoldable pub classify_many : Engine → List Str → Result (ℕ × ClassifyError) (List Status)
  unfolding classify_from
  classify_many e paths = classify_from 0 e paths
