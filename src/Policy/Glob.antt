-- ===== src/Policy/Glob.antt =====
-- internal/domain/policy/pattern.go, `matchSegment`: one segment's glob, with `*` and `?`, matched
-- by two pointers that go back to the last star. The indices `pi` and `ni` are kept as the suffixes
-- that begin there; `starP` and `starN` are one `Option`, of the pattern after the star and the name
-- from `starN` on. The loop runs on fuel, and `none` means that the fuel ran out.
pub mod Meaning
pub mod Sound
pub mod Complete
use agent_dispatch.Base.{
  ℕ, zero, suc, ◌+◌, ◌*◌, Str, length, ◌==◌, if◌then◌else◌, Bool, true, false, ◌||◌, ◌&&◌, Option,
  none, some, [], ◌∷◌,
}

abbrev pub star : ℕ
star = b'*'

abbrev pub question : ℕ
question = b'?'

abbrev pub Back : Type 0
Back = Option (Str × Str)

-- `pattern[pi] == '?' || pattern[pi] == name[ni]`
abbrev pub takes : ℕ → ℕ → Bool
takes a c = a == question || a == c

-- the loop after the `for`, and its final test
unfoldable pub only_stars : Str → Bool
only_stars [] = true
only_stars (a ∷ p) = a == star && only_stars p

-- `case starP >= 0` and `default`: the name is taken up one byte further on.
unfoldable pub go_back : Back → (Str → Str → Back → Option Bool) → Option Bool
go_back none next = some false
go_back (some (p, [])) next = next p [] (some (p, []))
go_back (some (p, c ∷ s)) next = next p s (some (p, s))

unfoldable pub segment_loop : ℕ → Str → Str → Back → Option Bool
unfolding only_stars go_back
segment_loop zero p s back = none
segment_loop (suc f) p [] back = some (only_stars p)
segment_loop (suc f) [] (c ∷ s) back = go_back back (segment_loop f)
segment_loop (suc f) (a ∷ p) (c ∷ s) back =
    let onward = segment_loop f p s back in
    let starred = segment_loop f p (c ∷ s) (some (p, c ∷ s)) in
    let again = go_back back (segment_loop f) in
    if takes a c then onward else if a == star then starred else again

abbrev pub segment_fuel : Str → Str → ℕ
segment_fuel p s = suc (length s * suc (length p) + length p)

-- `false` stands for a run out of fuel.
unfoldable pub match_segment : Str → Str → Bool
unfolding segment_loop
match_segment p s = elim (segment_loop (segment_fuel p s) p s none) [ some b ↦ b | none ↦ false ]
