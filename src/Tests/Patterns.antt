-- ===== src/Tests/Patterns.antt =====
-- Patterns and paths.
use agent_dispatch.Base.{
  Str, codes, Bool, true, false, ◌≡◌, ◌≢◌, ◌↔◌, refl, none, some, List, [], ◌∷◌, ok, err,
}
use agent_dispatch.Policy.Glob.{match_segment, segment_loop, segment_fuel, star}
use agent_dispatch.Policy.Glob.Meaning.{Matches}
use agent_dispatch.Policy.Glob.Sound.{match_segment-total}
use agent_dispatch.Policy.Glob.Complete.{match_segment_iff, star_pattern_rejects}
use agent_dispatch.Policy.Rows.{Segment, match_segments, match_segments_dir_aware}
use agent_dispatch.Policy.Rows.Meaning.{PathMatches}
use agent_dispatch.Policy.Rows.Paths.{
  match_segments_iff, match_segments_dir_aware_iff, MatchesWithin,
}
use agent_dispatch.Policy.Compile.Shape.{compile_iff, Plain, AllAdmissible, segments_of}
use agent_dispatch.Records.Paths.{normalize_path, contains_byte, backslash, split}
use agent_dispatch.Records.Paths.Clean.{AllClean, normalize_path_iff}
-- `match_segment` runs: the backtracking finds the second `a`.
use agent_dispatch.Policy.Compile.{panic, compile}

match_segment_run : match_segment (codes "*a?") (codes "bab-ac") ≡ true
unfolding match_segment segment_loop
match_segment_run = refl

match_segment_iff_example :
    (match_segment (codes "*.md") (codes "note.md") ≡ true)
    ↔ Matches (codes "*.md") (codes "note.md")
match_segment_iff_example = match_segment_iff (codes "*.md") (codes "note.md") refl

match_segment-total_example :
    segment_loop (segment_fuel (codes "*a?") (codes "bab-ac")) (codes "*a?") (codes "bab-ac") none
    ≡ some (match_segment (codes "*a?") (codes "bab-ac"))
match_segment-total_example = match_segment-total (codes "*a?") (codes "bab-ac")

star_pattern_rejects_example :
    (match_segment (star ∷ []) (codes "*a") ≡ false) × Matches (star ∷ []) (codes "*a")
star_pattern_rejects_example = star_pattern_rejects b'a' []

abbrev any_depth_md : List Segment
any_depth_md =
    record { text = codes "**"; match_text = codes "**"; recursive = true }
    ∷ record { text = codes "*.md"; match_text = codes "*.md"; recursive = false }
    ∷ []

match_segments_iff_example :
    (match_segments any_depth_md (codes "a" ∷ codes "b.md" ∷ []) ≡ true)
    ↔ PathMatches any_depth_md (codes "a" ∷ codes "b.md" ∷ [])
match_segments_iff_example = match_segments_iff any_depth_md (codes "a" ∷ codes "b.md" ∷ [])

match_segments_dir_aware_iff_example :
    (match_segments_dir_aware any_depth_md (codes "b.md" ∷ codes "c" ∷ []) ≡ true)
    ↔ MatchesWithin any_depth_md (codes "b.md" ∷ codes "c" ∷ [])
match_segments_dir_aware_iff_example =
    match_segments_dir_aware_iff any_depth_md (codes "b.md" ∷ codes "c" ∷ [])

abbrev always : Str → Bool
always s = true

abbrev same : Str → Str
same s = s

compile_iff_example :
    (compile always same (codes "**/*.md") ≢ err panic)
    × ((compile always same (codes "**/*.md") ≡ ok any_depth_md) ↔ (
        Plain always (codes "**/*.md")
        × AllAdmissible (split (codes "**/*.md"))
        × (any_depth_md ≡ segments_of (split (codes "**/*.md")) (split (codes "**/*.md")))))
compile_iff_example = compile_iff always same (codes "**/*.md") any_depth_md refl

normalize_path_iff_example : (normalize_path always (codes "a/b.md") ≡ ok (codes "a/b.md")) ↔ (
    (codes "a/b.md" ≡ codes "a/b.md")
    × (always (codes "a/b.md") ≡ true)
    × (contains_byte 0 (codes "a/b.md") ≡ false)
    × (contains_byte backslash (codes "a/b.md") ≡ false)
    × AllClean (split (codes "a/b.md")))
normalize_path_iff_example = normalize_path_iff always (codes "a/b.md") (codes "a/b.md")
