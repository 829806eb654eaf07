-- ===== src/Tests/Engines.antt =====
-- The pattern engine.
use agent_dispatch.Base.{
  str_eq, Str, codes, Bool, true, false, ◌≡◌, ◌≢◌, ◌↔◌, ◌≤◌, refl, [], ◌∷◌, ok, err, Result, length,
}
use agent_dispatch.Policy.Engine.Classified.{classify_iff, HasStatus}
use agent_dispatch.Policy.Engine.Protects.{Protects}
use agent_dispatch.Policy.Engine.Protection.{
  new_engine-excludes_git, new_protection_engine-hides_nothing,
}
use agent_dispatch.Records.Paths.{normalize_path, check_segments}
use agent_dispatch.Policy.Rows.{
  match_any, match_any_dir_aware, match_segments, match_segments_dir_aware, prefix_loop, match_row,
  row_loop, row_step, recursive_loop, ordinary_loop,
}
use agent_dispatch.Policy.Glob.{match_segment}
use agent_dispatch.Policy.Compile.{compile_all, compile, compile_loop}
use agent_dispatch.Policy.Engine.{status_of, classify}
use agent_dispatch.Policy.Engine.{
  names_of, protected, case_sensitive, excluded, Engine, EngineError, new_protection_engine,
  new_engine, classify,
}

abbrev always : Str → Bool
always s = true

abbrev same : Str → Str
same s = s

abbrev no_engine : Engine
no_engine = record {
  include_set = [];
  exclude_set = [];
  protected_set = [];
  immutable_set = [];
  folds = false;
  max_path_bytes = 0;
}

abbrev or_none : Result EngineError Engine → Engine
or_none (ok e) = e
or_none (err _) = no_engine

abbrev vault : Result EngineError Engine
vault = new_engine always same same (codes "**" ∷ []) [] (codes "keys/**" ∷ []) [] case_sensitive

classify_iff_example :
    (classify always same same (or_none vault) (codes "keys/a") ≡ ok protected) ↔ (
      (length (codes "keys/a") ≤ (or_none vault).max_path_bytes)
      × (normalize_path always (codes "keys/a") ≡ ok (codes "keys/a"))
      × HasStatus
          (or_none vault)
          (names_of always same same (or_none vault) (codes "keys/a"))
          protected)
classify_iff_example = classify_iff always same same (or_none vault) (codes "keys/a") protected

new_engine-excludes_git_example : excluded ≡ excluded
unfolding new_engine classify compile_all compile str_eq compile_loop normalize_path check_segments
    status_of match_any_dir_aware match_segments_dir_aware prefix_loop match_row row_loop row_step
    recursive_loop ordinary_loop match_segment
new_engine-excludes_git_example =
    new_engine-excludes_git always same same (codes "**" ∷ []) [] (codes "keys/**" ∷ []) []
      case_sensitive (or_none vault) (codes "a/.git/config") (codes "a" ∷ []) (codes "config" ∷ [])
      excluded refl refl refl refl refl

abbrev guard : Result EngineError Engine
guard = new_protection_engine always same same (codes "keys/**" ∷ []) [] case_sensitive

new_protection_engine-hides_nothing_example :
    (protected ≢ excluded)
    × ((protected ≡ protected)
        ↔ Protects always same same (codes "keys/**" ∷ []) (codes "keys/a") case_sensitive)
unfolding new_protection_engine classify compile_all compile str_eq compile_loop normalize_path
    check_segments status_of match_any_dir_aware match_segments_dir_aware prefix_loop match_segments
    match_any match_row row_loop row_step recursive_loop ordinary_loop match_segment
new_protection_engine-hides_nothing_example =
    new_protection_engine-hides_nothing always same same (codes "keys/**" ∷ []) [] case_sensitive
      (or_none guard) (codes "keys/a") protected refl refl refl
