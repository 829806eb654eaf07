-- ===== src/Sync/Endpoint.antt =====
-- internal/domain/syncrecords/endpoint.go, `ParseTailnetEndpoint`. The parser of URLs belongs to Go's
-- library: `parse_url`, with the fields that are read of its answer; `none` is its error.
use agent_dispatch.Base.{
  ℕ, ◌+◌, ◌-◌, ◌*◌, Str, codes, str_eq, is_empty, any, leb, ◌==◌, if◌then◌else◌, Bool, ◌&&◌, ◌||◌,
  not, Option, none, some, ok, err, Result,
}
use agent_dispatch.Sync.Patterns.{is_endpoint_host, is_port_text, has_prefix, has_suffix}
use mathlib.Core.List.{foldl}

pub record Url : Type 0 where
  pub scheme : Str
  pub host : Str
  pub hostname : Str
  pub port : Str
  pub opaque : Str
  pub has_user : Bool
  pub raw_query : Str
  pub force_query : Bool
  pub fragment : Str
  pub raw_path : Str
  pub path : Str

pub data EndpointError : Type 0 where
  endpoint_url endpoint_data endpoint_port endpoint_path endpoint_host : EndpointError

-- `strconv.ParseUint(port, 10, 16)` of a text of digits
abbrev decimal : Str → ℕ
decimal s = foldl (λ n c. n * 10 + (c - b'0')) 0 s

abbrev bad_port : Str → Bool
bad_port port =
    not (is_empty port)
    && (not (is_port_text port) || not (leb (decimal port) 65535) || decimal port == 0)

abbrev check_url : Str → Url → Option EndpointError
check_url raw u =
    if not (str_eq u.scheme (codes "https"))
      || is_empty u.host
      || is_empty u.hostname
      || not (is_empty u.opaque)
    then some endpoint_url
    else if u.has_user
        || not (is_empty u.raw_query)
        || u.force_query
        || not (is_empty u.fragment)
        || any (λ c. c == b'#') raw
    then some endpoint_data
    else if has_suffix (codes ":") u.host
    then some endpoint_port
    else if bad_port u.port
    then some endpoint_port
    else if not (is_empty u.raw_path) || (not (is_empty u.path) && not (str_eq u.path (codes "/")))
    then some endpoint_path
    else if not (is_endpoint_host u.hostname)
    then some endpoint_host
    else none

abbrev checked_url : Str → Url → Result EndpointError Url
checked_url raw u = elim (check_url raw u) [ some e ↦ err e | none ↦ ok u ]

module _ (parse_url : Str → Option Url) where
  unfoldable pub parse_tailnet_endpoint : Str → Result EndpointError Url
  unfolding str_eq is_port_text is_endpoint_host
  parse_tailnet_endpoint raw =
      if not (has_prefix (codes "https://") raw)
      then err endpoint_url
      else elim (parse_url raw) [ none ↦ err endpoint_url | some u ↦ checked_url raw u ]
