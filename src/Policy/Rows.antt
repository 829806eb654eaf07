-- ===== src/Policy/Rows.antt =====
-- internal/domain/policy/pattern.go, `matchRow` and its callers: a path's segments against a
-- compiled pattern, by one row of a table that is updated in place. The loops run as they are
-- written, over a list with the row's values.
pub mod Loops
pub mod Meaning
pub mod Paths
use agent_dispatch.Base.{
  ℕ, zero, suc, Str, length, get_or, set, replicate, any, if◌then◌else◌, Bool, true, false, ◌&&◌,
  ◌||◌, List, [], ◌∷◌,
}
use agent_dispatch.Policy.Glob.{match_segment}

pub record Segment : Type 0 where
  pub text : Str
  pub match_text : Str
  pub recursive : Bool

abbrev pub Row : Type 0
Row = List Bool

-- `for j := 0; j <= len(names); j++ { any = any || dp[j]; dp[j] = any }`: `k` rounds are left.
unfoldable pub recursive_loop : ℕ → ℕ → Bool → Row → Row
recursive_loop zero j seen dp = dp
recursive_loop (suc k) j seen dp =
    recursive_loop k (suc j) (seen || get_or dp j false) (set dp j (seen || get_or dp j false))

-- `for j := len(names); j >= 1; j-- { dp[j] = dp[j-1] && matchSegment(…, names[j-1]) }`
unfoldable pub ordinary_loop : ℕ → Str → List Str → Row → Row
ordinary_loop zero text names dp = dp
ordinary_loop (suc j) text names dp =
    ordinary_loop j text names
      (set dp (suc j) (get_or dp j false && match_segment text (get_or names j [])))

-- one round of the outer loop
unfoldable pub row_step : Segment → List Str → Row → Row
row_step seg names dp =
    if seg.recursive
    then recursive_loop (suc (length names)) 0 false dp
    else set (ordinary_loop (length names) seg.match_text names dp) 0 false

unfoldable pub row_loop : List Segment → List Str → Row → Row
row_loop [] names dp = dp
row_loop (seg ∷ pat) names dp = row_loop pat names (row_step seg names dp)

unfoldable pub match_row : List Segment → List Str → Row
match_row pat names = row_loop pat names (true ∷ replicate (length names) false)

unfoldable pub match_segments : List Segment → List Str → Bool
match_segments pat names = get_or (match_row pat names) (length names) false

-- `for j := 1; j <= len(names); j++ { if dp[j] { return true } }`: `k` rounds are left.
unfoldable pub prefix_loop : ℕ → ℕ → Row → Bool
prefix_loop zero j dp = false
prefix_loop (suc k) j dp = get_or dp j false || prefix_loop k (suc j) dp

unfoldable pub match_segments_dir_aware : List Segment → List Str → Bool
match_segments_dir_aware pat names = prefix_loop (length names) 1 (match_row pat names)

unfoldable pub match_any : List (List Segment) → List Str → Bool
match_any patterns names = any (λ pat. match_segments pat names) patterns

unfoldable pub match_any_dir_aware : List (List Segment) → List Str → Bool
match_any_dir_aware patterns names = any (λ pat. match_segments_dir_aware pat names) patterns
