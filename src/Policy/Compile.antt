-- ===== src/Policy/Compile.antt =====
-- internal/domain/policy/pattern.go, `compile` and `compileAll`: pattern texts to segments.
-- `utf8.ValidString` and `norm.NFC.String` belong to Go and to golang.org/x/text: `valid_utf8` and
-- `nfc`. An index out of range is the error `panic`.
pub mod Shape
use agent_dispatch.Base.{
  Str, codes, str_eq, is_empty, if◌then◌else◌, ◌==◌, Bool, true, false, ◌&&◌, ◌||◌, not, List, [],
  ◌∷◌, ◌++◌, map, Result, ok, err, ◌>>=◌,
}
use agent_dispatch.Records.Paths.{
  slash, dot, backslash, contains_byte, starts_with_slash, split, is_dot, is_dot_dot,
}
use agent_dispatch.Policy.Glob.{star}
use agent_dispatch.Policy.Rows.{Segment}

pub data CompileError : Type 0 where
  empty_pattern not_utf8 has_nul must_be_relative must_use_slash dot_segments : CompileError
  dot_dot_segments empty_segment star_star_inside panic : CompileError

-- `strings.HasPrefix(s, "./")`
abbrev pub starts_with_dot_slash : Str → Bool
starts_with_dot_slash (a ∷ b ∷ s) = a == dot && b == slash
starts_with_dot_slash _ = false

-- `strings.HasSuffix(s, "/.")`
abbrev pub ends_with_slash_dot : Str → Bool
ends_with_slash_dot [] = false
ends_with_slash_dot (a ∷ s) = str_eq (a ∷ s) (slash ∷ dot ∷ []) || ends_with_slash_dot s

abbrev pub star_star : Str
star_star = star ∷ star ∷ []

abbrev pub starts_with_stars : Str → Bool
starts_with_stars (a ∷ b ∷ s) = a == star && b == star
starts_with_stars _ = false

-- `strings.Contains(s, "**")`
abbrev pub contains_stars : Str → Bool
contains_stars [] = false
contains_stars (a ∷ s) = starts_with_stars (a ∷ s) || contains_stars s

-- `original[index]`, and the parts after it
abbrev pub next_text : List Str → Result CompileError (Str × List Str)
next_text [] = err panic
next_text (t ∷ ts) = ok (t, ts)

abbrev segment_of : Str → Str → Segment
segment_of raw text = record { text = text; match_text = raw; recursive = str_eq raw star_star }

-- the loop over the normalized parts
unfoldable pub compile_loop : List Str → List Str → Result CompileError (List Segment)
unfolding str_eq
compile_loop [] originals = ok []
compile_loop (raw ∷ parts) originals =
    let go_on = (do
      (text, later) ← next_text originals
      segs ← compile_loop parts later
      ok (segment_of raw text ∷ segs)) in
    if is_empty raw
    then err empty_segment
    else if is_dot_dot raw
    then err dot_dot_segments
    else if is_dot raw
    then err dot_segments
    else if str_eq raw star_star
    then go_on
    else if contains_stars raw
    then err star_star_inside
    else go_on

module _ (valid_utf8 : Str → Bool) (nfc : Str → Str) where
  unfoldable pub compile : Str → Result CompileError (List Segment)
  compile pattern =
      if is_empty pattern
      then err empty_pattern
      else if not (valid_utf8 pattern)
      then err not_utf8
      else if contains_byte 0 pattern
      then err has_nul
      else if starts_with_slash pattern
      then err must_be_relative
      else if contains_byte backslash pattern
      then err must_use_slash
      else if starts_with_dot_slash pattern || ends_with_slash_dot pattern
      then err dot_segments
      else compile_loop (split (nfc pattern)) (split pattern)

  -- The error names the pattern; the caller adds which set it belongs to.
  unfoldable pub compile_all : List Str → Result (Str × CompileError) (List (List Segment))
  compile_all [] = ok []
  compile_all (p ∷ patterns) =
      let rest = compile_all patterns in
      elim (compile p) [
        | ok segs ↦ elim rest [ ok more ↦ ok (segs ∷ more) | err e ↦ err e ]
        | err e ↦ err (p, e)
      ]
