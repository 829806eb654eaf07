-- ===== src/Records/Paths.antt =====
-- internal/domain/records/digest.go, `NormalizePath`, with the functions of Go's `strings` that it
-- and the pattern compiler use on bytes. `utf8.ValidString` belongs to Go's library: `valid_utf8`.
pub mod Clean
use agent_dispatch.Base.{
  ℕ, Str, is_empty, any, if◌then◌else◌, ◌==◌, Bool, true, false, ◌&&◌, ◌||◌, not, List, [], ◌∷◌,
  Option, none, some, Result, ok, err, str_eq,
}

abbrev pub slash : ℕ
slash = b'/'

abbrev pub dot : ℕ
dot = b'.'

abbrev pub backslash : ℕ
backslash = 92

-- `strings.ContainsRune(s, r)` for an ASCII `r`
abbrev pub contains_byte : ℕ → Str → Bool
contains_byte b s = any (λ c. c == b) s

-- `strings.HasPrefix(s, "/")`
abbrev pub starts_with_slash : Str → Bool
starts_with_slash [] = false
starts_with_slash (c ∷ s) = c == slash

-- `strings.Split(s, "/")`: what stands before the first slash, and the other parts
abbrev pub split_from : Str → Str × List Str
split_from [] = ([], [])
split_from (c ∷ s) =
    let (first, rest) = split_from s in if c == slash then ([], first ∷ rest) else (c ∷ first, rest)

abbrev pub split : Str → List Str
split s = (split_from s).0 ∷ (split_from s).1

pub data PathError : Type 0 where
  empty_path invalid_utf8 contains_nul not_relative wrong_separator empty_segment : PathError
  dot_segment : Str → PathError

-- `seg == "."`, `seg == ".."`
abbrev pub is_dot : Str → Bool
is_dot s = str_eq s (dot ∷ [])

abbrev pub is_dot_dot : Str → Bool
is_dot_dot s = str_eq s (dot ∷ dot ∷ [])

-- the loop over the segments
unfoldable pub check_segments : List Str → Option PathError
unfolding str_eq
check_segments [] = none
check_segments (seg ∷ segs) =
    if is_empty seg
    then some empty_segment
    else if is_dot seg || is_dot_dot seg
    then some (dot_segment seg)
    else check_segments segs

abbrev checked : Str → Option PathError → Result PathError Str
checked p (some e) = err e
checked p none = ok p

module _ (valid_utf8 : Str → Bool) where
  unfoldable pub normalize_path : Str → Result PathError Str
  normalize_path p =
      if is_empty p
      then err empty_path
      else if not (valid_utf8 p)
      then err invalid_utf8
      else if contains_byte 0 p
      then err contains_nul
      else if starts_with_slash p
      then err not_relative
      else if contains_byte backslash p
      then err wrong_separator
      else checked p (check_segments (split p))
