-- ===== src/Retention/Durations.antt =====
-- internal/config/semantic.go, `ParseDuration`: the regular expression as a split of the text into its
-- digits and its unit.
use agent_dispatch.Base.{
  ℕ, ◌+◌, ◌-◌, ◌*◌, ◌/◌, Str, codes, str_eq, leb, ltb, if◌then◌else◌, Bool, false, ◌&&◌, Option,
  none, some, [], ◌∷◌, ok, err, Result,
}

pub record Duration : Type 0 where
  pub nanos : ℕ
  pub unit : Str
  pub text : Str

pub data DurationError : Type 0 where
  duration_form duration_number duration_nanos : DurationError

abbrev pub is_numeral : ℕ → Bool
is_numeral c = leb b'0' c && leb c b'9'

-- the digits that the text begins with, and the rest
abbrev pub split_digits : Str → Str × Str
split_digits [] = ([], [])
split_digits (c ∷ s) =
    let rest : Str × Str = split_digits s in
    if is_numeral c then (c ∷ rest.0, rest.1) else ([], c ∷ s)

-- `unitNanos`
unfoldable pub unit_nanos : Str → Option ℕ
unit_nanos u =
    if str_eq u (codes "ms")
    then some 1000000
    else if str_eq u (codes "s")
    then some 1000000000
    else if str_eq u (codes "m")
    then some 60000000000
    else if str_eq u (codes "h")
    then some 3600000000000
    else if str_eq u (codes "d")
    then some 86400000000000
    else none

-- `strconv.ParseInt` on digits, before its test of the range
unfoldable pub number_from : ℕ → Str → ℕ
number_from n [] = n
number_from n (c ∷ s) = number_from (n * 10 + (c - b'0')) s

abbrev pub starts_positive : Str → Bool
starts_positive [] = false
starts_positive (c ∷ s) = leb b'1' c

abbrev pub max_int64 : ℕ
max_int64 = 9223372036854775807

-- the number and the unit's nanoseconds, checked and multiplied
unfoldable pub scaled : Str → Str → ℕ → ℕ → Result DurationError Duration
scaled text unit n k =
    if ltb max_int64 n
    then err duration_number
    else if ltb (max_int64 / k) n
    then err duration_nanos
    else ok (record { nanos = n * k; unit = unit; text = text })

abbrev pub from_parts : Str → Str × Str → Result DurationError Duration
from_parts text parts = elim (unit_nanos parts.1) [
  | none ↦ err duration_form
  | some k ↦
      if starts_positive parts.0
      then scaled text parts.1 (number_from 0 parts.0) k
      else err duration_form
]

unfoldable pub parse_duration : Str → Result DurationError Duration
parse_duration text = from_parts text (split_digits text)
