-- ===== src/Sync/Patterns.antt =====
-- internal/domain/syncrecords/membership.go and endpoint.go: the regular expressions, each as a test
-- on the bytes, and `validContentRef`.
use agent_dispatch.Base.{
  ℕ, Str, codes, is_empty, any, all, length, ltb, leb, ◌==◌, if◌then◌else◌, Bool, true, false, ◌&&◌,
  ◌||◌, not, Option, none, some, [], ◌∷◌,
}
use agent_dispatch.Records.Paths.{split}
use mathlib.Core.List.{reverse}

abbrev in_range : ℕ → ℕ → ℕ → Bool
in_range lo hi c = leb lo c && leb c hi

abbrev is_lower : ℕ → Bool
is_lower c = in_range b'a' b'z' c

abbrev is_digit : ℕ → Bool
is_digit c = in_range b'0' b'9' c

abbrev is_letter : ℕ → Bool
is_letter c = is_lower c || in_range b'A' b'Z' c

abbrev is_hyphen : ℕ → Bool
is_hyphen c = c == b'-'

abbrev is_hex : ℕ → Bool
is_hex c = is_digit c || in_range b'a' b'f' c

abbrev is_one_of : Str → ℕ → Bool
is_one_of set c = any (λ d. c == d) set

-- `strings.HasPrefix`, with what follows the prefix
abbrev pub after : Str → Str → Option Str
after [] s = some s
after (a ∷ p) [] = none
after (a ∷ p) (c ∷ s) = if a == c then after p s else none

abbrev pub has_prefix : Str → Str → Bool
has_prefix p s = elim (after p s) [ none ↦ false | some _ ↦ true ]

abbrev pub has_suffix : Str → Str → Bool
has_suffix p s = has_prefix (reverse p) (reverse s)

-- `strings.Contains`
abbrev contains_text : Str → Str → Bool
contains_text p [] = is_empty p
contains_text p (c ∷ s) = has_prefix p (c ∷ s) || contains_text p s

-- `^[a-z][a-z0-9-]{0,62}$`
unfoldable pub is_identity : Str → Bool
is_identity [] = false
is_identity (c ∷ s) =
    is_lower c && leb (length s) 62 && all (λ d. is_lower d || is_digit d || is_hyphen d) s

-- `^[a-z0-9][a-z0-9-]{7,127}$`
unfoldable pub is_incarnation : Str → Bool
is_incarnation [] = false
is_incarnation (c ∷ s) =
    (is_lower c || is_digit c)
    && in_range 7 127 (length s)
    && all (λ d. is_lower d || is_digit d || is_hyphen d) s

-- `^(?:[0-9a-f]{40}|[0-9a-f]{64})$`
unfoldable pub is_oid : Str → Bool
is_oid s = (length s == 40 || length s == 64) && all is_hex s

-- `^sha256:[0-9a-f]{64}$`
unfoldable pub is_digest : Str → Bool
is_digest s = elim (after (codes "sha256:") s) [
  | none ↦ false
  | some rest ↦ length rest == 64 && all is_hex rest
]

abbrev is_base64 : ℕ → Bool
is_base64 c = is_letter c || is_digit c || is_one_of (codes "+/") c

abbrev ends_fingerprint : Str → Bool
ends_fingerprint [] = false
ends_fingerprint (c ∷ s) =
    is_one_of (codes "AEIMQUYcgkosw048") c && length s == 42 && all is_base64 s

-- `^SHA256:[A-Za-z0-9+/]{42}[AEIMQUYcgkosw048]$`
unfoldable pub is_fingerprint : Str → Bool
is_fingerprint s = elim (after (codes "SHA256:") s) [
  | none ↦ false
  | some rest ↦ ends_fingerprint (reverse rest)
]

abbrev is_host_byte : ℕ → Bool
is_host_byte c = is_letter c || is_digit c || is_one_of (codes ".-") c

abbrev starts_alnum : Str → Bool
starts_alnum [] = false
starts_alnum (c ∷ s) = is_letter c || is_digit c

-- the host without `.ts.net`, reversed
abbrev is_tailnet_name : Str → Bool
is_tailnet_name name = all is_host_byte name && starts_alnum name && starts_alnum (reverse name)

-- `^[A-Za-z0-9](?:[A-Za-z0-9.-]*[A-Za-z0-9])?\.ts\.net$`
unfoldable pub is_endpoint_host : Str → Bool
is_endpoint_host s = elim (after (reverse (codes ".ts.net")) (reverse s)) [
  | none ↦ false
  | some name ↦ is_tailnet_name name
]

-- `^[1-9][0-9]*$`
unfoldable pub is_port_text : Str → Bool
is_port_text [] = false
is_port_text (c ∷ s) = in_range b'1' b'9' c && all is_digit s

abbrev is_control : ℕ → Bool
is_control c = ltb c 0x20 || c == 0x7f

abbrev bad_component : Str → Bool
bad_component part = has_prefix (codes ".") part || has_suffix (codes ".lock") part

unfoldable pub valid_content_ref : Str → Bool
valid_content_ref ref =
    has_prefix (codes "refs/heads/") ref
    && ltb (length (codes "refs/heads/")) (length ref)
    && not (has_suffix (codes "/") ref)
    && not (has_suffix (codes ".") ref)
    && not (contains_text (codes "..") ref)
    && not (contains_text (codes "@{") ref)
    && not (contains_text (codes "//") ref)
    && not (any (λ c. is_one_of (92 ∷ codes " ~^:?*[") c) ref)
    && not (any is_control ref)
    && not (any bad_component (split ref))

abbrev is_record_tail : ℕ → Bool
is_record_tail c = is_lower c || is_digit c || is_hyphen c

-- internal/domain/syncrecords/publication.go, `recordID`
unfoldable pub record_id : Str → Bool
record_id [] = false
record_id (c ∷ s) = leb (length s) 127 && (is_lower c || is_digit c) && all is_record_tail s
