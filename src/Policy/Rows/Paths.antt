-- ===== src/Policy/Rows/Paths.antt =====
-- From the row's indices to lists of names.
use agent_dispatch.Base.{
  ℕ, zero, suc, ◌+◌, ◌-◌, ◌≤◌, ◌<◌, Str, length, get_or, length-append, true, ◌≡◌, ◌≢◌, ◌↔◌, refl,
  sym, ap, ◌∙◌, subst, List, [], ◌∷◌, ◌++◌, append_assoc, append-nil, arith,
}
use agent_dispatch.Policy.Rows.{Segment, match_row, match_segments, match_segments_dir_aware}
use agent_dispatch.Policy.Rows.Loops.{prefix_loop_iff}
use agent_dispatch.Policy.Rows.Meaning.{
  PathMatches, done, name, skip, more, Covers, end, one, any, match_row_iff,
}

get_or-append : (pre rest : List Str) (n : Str) → get_or (pre ++ n ∷ rest) (length pre) [] ≡ n
get_or-append [] rest n = refl
get_or-append (p ∷ pre) rest n = get_or-append pre rest n

-- The first `d` names, and the others.
split_at :
    (d : ℕ) (rest : List Str)
    → d ≤ length rest
    → (xs : List Str) × (ys : List Str) × (rest ≡ xs ++ ys) × (length xs ≡ d)
split_at zero rest h = ([], rest, refl, refl)
split_at (suc d) [] h = absurd (omega arith)
split_at (suc d) (x ∷ rest) h =
    let (xs, ys, e, n) = split_at d rest (omega arith) in
    (x ∷ xs, ys, ap (λ (l : List Str). x ∷ l) e, omega arith)

more_all :
    {seg : Segment} {pat : List Segment} {ms : List Str} (xs : List Str)
    → seg.recursive ≡ true
    → PathMatches pat ms
    → PathMatches (seg ∷ pat) (xs ++ ms)
more_all [] r d = skip r d
more_all (x ∷ xs) r d = more r (more_all xs r d)

-- The names from `t` on begin with a match of the pattern that ends at `j`.
abbrev Begins : List Segment → List Str → ℕ → ℕ → Type 0
Begins pat rest t j =
    (ms : List Str) × (post : List Str) × (rest ≡ ms ++ post)
    × (j ≡ t + length ms)
    × PathMatches pat ms

length-split :
    {names : List Str} (pre rest : List Str)
    → names ≡ pre ++ rest
    → length names ≡ length pre + length rest
length-split pre rest e = ap length e ∙ length-append pre rest

Covers→Begins :
    {names : List Str} {pat : List Segment} {t j : ℕ} (pre rest : List Str)
    → names ≡ pre ++ rest
    → t ≡ length pre
    → Covers names pat t j
    → Begins pat rest t j
Covers→Begins pre rest e q (end p) = ([], rest, refl, omega arith, done)
Covers→Begins pre [] e q (one r lt m cov) = absurd (omega (arith, length-split pre [] e))
Covers→Begins {names} {t = t} pre (n ∷ rest) e q (one {seg = seg} {pat = pat} r lt m cov) =
    let (ms, post, split, count, d) =
      Covers→Begins (pre ++ n ∷ []) rest (e ∙ sym (append_assoc pre (n ∷ []) rest))
        (rw (length-append pre (n ∷ [])) (omega arith)) cov in
    let here : get_or names t [] ≡ n = rw (e, q) (get_or-append pre rest n) in
    (n ∷ ms, post, ap (λ (l : List Str). n ∷ l) split, omega arith, name r (rw here at m) d)
Covers→Begins {t = t} pre rest e q (any u r tu hu cov) =
    let (xs, ys, cut, n) = split_at (u - t) rest (omega (arith, length-split pre rest e)) in
    let (ms, post, split, count, d) =
      Covers→Begins (pre ++ xs) ys
        (e ∙ ap (λ (l : List Str). pre ++ l) cut ∙ sym (append_assoc pre xs ys))
        (rw (length-append pre xs) (omega arith)) cov in
    (
      xs ++ ms,
      post,
      cut ∙ ap (λ (l : List Str). xs ++ l) split ∙ sym (append_assoc xs ms post),
      rw (length-append xs ms) (omega arith),
      more_all xs r d,
    )

-- Widening to the left over the names that `**` takes.
widen :
    {names : List Str} {seg : Segment} {pat : List Segment} {t j : ℕ}
    → seg.recursive ≡ true
    → Covers names (seg ∷ pat) (suc t) j
    → Covers names (seg ∷ pat) t j
widen r (one o lt m cov) = absurd (ground arith)
widen r (any u o tu hu cov) = any u o (omega arith) hu cov

PathMatches→Covers :
    {names : List Str} {pat : List Segment} {ms : List Str} {t j : ℕ} (pre post : List Str)
    → PathMatches pat ms
    → names ≡ pre ++ (ms ++ post)
    → t ≡ length pre
    → j ≡ t + length ms
    → Covers names pat t j
PathMatches→Covers pre post done e q c = end (omega arith)
PathMatches→Covers {names} {t = t} pre post (name {seg = seg} {n = n} {names = ms} r m d) e q c =
    let here : get_or names t [] ≡ n = rw (e, q) (get_or-append pre (ms ++ post) n) in
    one r (omega (arith, length-split pre (n ∷ ms ++ post) e)) (rw here m) (
      PathMatches→Covers (pre ++ n ∷ []) post d (e ∙ sym (append_assoc pre (n ∷ []) (ms ++ post)))
        (rw (length-append pre (n ∷ [])) (omega arith)) (omega arith))
PathMatches→Covers {t = t} pre post (skip {names = ms} r d) e q c =
    any t r (omega arith) (omega (arith, length-split pre (ms ++ post) e))
      (PathMatches→Covers pre post d e q c)
PathMatches→Covers pre post (more {n = n} {names = ms} r d) e q c = widen r (
    PathMatches→Covers (pre ++ n ∷ []) post d (e ∙ sym (append_assoc pre (n ∷ []) (ms ++ post)))
      (rw (length-append pre (n ∷ [])) (omega arith)) (omega arith))

no_rest : (ms post : List Str) → length (ms ++ post) ≡ length ms → post ≡ []
no_rest ms [] h = refl
no_rest ms (p ∷ post) h = absurd (omega (arith, length-append ms (p ∷ post)))

whole :
    {pat : List Segment} {names : List Str}
    → Begins pat names 0 (length names)
    → PathMatches pat names
whole {pat} (ms, post, split, count, d) =
    let left : post ≡ [] = no_rest ms post (omega (arith, ap length split)) in
    subst (PathMatches pat) (sym (split ∙ ap (λ (l : List Str). ms ++ l) left ∙ append-nil ms)) d

positive : (xs : List Str) → xs ≢ [] → 0 < length xs
positive [] h = absurd (h refl)
positive (x ∷ xs) h = omega arith

-- `match_segments` answers true exactly when the pattern matches the whole path, segment by segment.
pub match_segments_iff :
    (pat : List Segment) (names : List Str)
    → (match_segments pat names ≡ true) ↔ PathMatches pat names
unfolding match_segments
match_segments_iff pat names = (forth, back)
  where
    forth : match_segments pat names ≡ true → PathMatches pat names
    forth h = whole (
        Covers→Begins [] names refl refl
          ((match_row_iff pat names (length names) (omega arith)).0 h))

    back : PathMatches pat names → match_segments pat names ≡ true
    back d =
        (match_row_iff pat names (length names) (omega arith)).1
          (PathMatches→Covers [] [] d (sym (append-nil names)) refl (omega arith))

-- The pattern matches the path or one of the directories that it lies in.
abbrev pub MatchesWithin : List Segment → List Str → Type 0
MatchesWithin pat names =
    (dir : List Str) × (rest : List Str) × (names ≡ dir ++ rest) × (dir ≢ []) × PathMatches pat dir

-- `match_segments_dir_aware` answers true exactly when the pattern matches the whole path or one of
-- its ancestor directories, the empty one left out.
pub match_segments_dir_aware_iff :
    (pat : List Segment) (names : List Str)
    → (match_segments_dir_aware pat names ≡ true) ↔ MatchesWithin pat names
unfolding match_segments_dir_aware
match_segments_dir_aware_iff pat names = (forth, back)
  where
    forth : match_segments_dir_aware pat names ≡ true → MatchesWithin pat names
    forth h =
        let (j, lo, hi, a) = (prefix_loop_iff (length names) 1 (match_row pat names)).0 h in
        let (ms, post, split, count, d) =
          Covers→Begins [] names refl refl ((match_row_iff pat names j (omega arith)).0 a) in
        (ms, post, split, λ e. omega (arith, ap length e), d)

    back : MatchesWithin pat names → match_segments_dir_aware pat names ≡ true
    back (dir, rest, split, nonempty, d) =
        let count : length names ≡ length dir + length rest =
          ap length split ∙ length-append dir rest in
        let some_names : 0 < length dir = positive dir nonempty in
        (prefix_loop_iff (length names) 1 (match_row pat names)).1 (
          length dir,
          omega arith,
          omega arith,
          (match_row_iff pat names (length dir) (omega arith)).1
              (PathMatches→Covers [] rest d split refl (omega arith)),
        )
