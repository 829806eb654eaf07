-- ===== src/Records/Fanout/Canonical.antt =====
-- internal/domain/records/fanout.go: the canonical form of a list of destinations.
use agent_dispatch.Base.{
  Str, str_eq, str_eq→eq, str_eq_refl, str_eq_iff, is_empty, any-In, In-any, In, here, there, true,
  false, ◌||◌, ◌≡◌, ◌≢◌, ◌↔◌, refl, sym, subst, ◌∙◌, List, [], ◌∷◌, arith, Bool-cases, inl, inr, ap,
  ◌⊎◌,
}
use agent_dispatch.Base.Ordering.{str_lt, str_order}
use agent_dispatch.Base.Sorting.{sort-In, In-sort}
use agent_dispatch.Base.Ascending.{
  Distinct, no_values, one_more, Ascending, sort-Ascending, Ascending-unique,
}
use agent_dispatch.Records.Fanout.{was_seen, distinct_loop, canonical_destinations}

was_seen-In : (seen : List Str) (d : Str) → (was_seen seen d ≡ true) ↔ In d seen
was_seen-In seen d = (
  (λ h.
      let (s, m, e) = any-In (λ t. str_eq d t) seen h in
      subst (λ x. In x seen) (sym (str_eq→eq d s e)) m),
  (λ m. In-any (λ t. str_eq d t) d seen m (str_eq_refl d)),
)

-- kept by the loop
abbrev Kept : List Str → List Str → Str → Type 0
Kept seen ds d = In d ds × (d ≢ []) × (In d seen → ⊥)

skipped :
    (seen ds : List Str) (x : Str)
    → (is_empty x || was_seen seen x) ≡ true
    → distinct_loop seen (x ∷ ds) ≡ distinct_loop seen ds
unfolding distinct_loop
skipped seen ds x h = ground arith

taken :
    (seen ds : List Str) (x : Str)
    → (is_empty x || was_seen seen x) ≡ false
    → distinct_loop seen (x ∷ ds) ≡ x ∷ distinct_loop (x ∷ seen) ds
unfolding distinct_loop
taken seen ds x h = ground arith

-- the loop's test, as what the values are
is_new :
    (seen : List Str) (x : Str)
    → (is_empty x || was_seen seen x) ≡ false
    → (x ≢ []) × (In x seen → ⊥)
is_new seen x h = (
  (λ e. let t : is_empty x ≡ true = ap is_empty e in ground (arith, h, t)),
  (λ m. let t : was_seen seen x ≡ true = (was_seen-In seen x).1 m in ground (arith, h, t)),
)

is_old : (seen : List Str) (x : Str) → (is_empty x || was_seen seen x) ≡ true → (x ≡ []) ⊎ In x seen
is_old seen [] h = inl refl
is_old seen (a ∷ x) h = inr ((was_seen-In seen (a ∷ x)).0 h)

loop-Kept : (seen ds : List Str) (d : Str) → In d (distinct_loop seen ds) → Kept seen ds d
unfolding distinct_loop
loop-Kept seen [] d m = elim m [ ]
loop-Kept seen (x ∷ xs) d m = elim (Bool-cases (is_empty x || was_seen seen x)) [
  | inl t ↦
      (let (k, ne, ns) = loop-Kept seen xs d (subst (λ l. In d l) (skipped seen xs x t) m) in
        (there k, ne, ns))
  | inr f ↦ elim (subst (λ l. In d l) (taken seen xs x f) m) [
    | here q ↦
        (let (ne, ns) = is_new seen x f in
          (here q, (λ e. ne (sym q ∙ e)), (λ j. ns (subst (λ y. In y seen) q j))))
    | there l ↦ let (k, ne, ns) = loop-Kept (x ∷ seen) xs d l in (there k, ne, (λ j. ns (there j)))
  ]
]

Kept-loop : (seen ds : List Str) (d : Str) → Kept seen ds d → In d (distinct_loop seen ds)
Kept-loop seen [] d (m, ne, ns) = elim m [ ]
Kept-loop seen (x ∷ xs) d (m, ne, ns) = elim (Bool-cases (is_empty x || was_seen seen x)) [
  | inl t ↦
      subst (λ l. In d l) (sym (skipped seen xs x t))
        (elim m [
          | here q ↦ elim (is_old seen x t) [
            | inl e ↦ absurd (ne (q ∙ e))
            | inr j ↦ absurd (ns (subst (λ y. In y seen) (sym q) j))
          ]
          | there k ↦ Kept-loop seen xs d (k, ne, ns)
        ])
  | inr f ↦
      subst (λ l. In d l) (sym (taken seen xs x f))
        (elim m [
          | here q ↦ here q
          | there k ↦ elim (Bool-cases (str_eq d x)) [
            | inl e ↦ here (str_eq→eq d x e)
            | inr n ↦ there (
                Kept-loop (x ∷ seen) xs d (
                  k,
                  ne,
                  λ j. elim j [ here q ↦ ground (arith, n, (str_eq_iff d x).1 q) | there l ↦ ns l ],
                ))
          ]
        ])
]

loop-Distinct : (seen ds : List Str) → Distinct (distinct_loop seen ds)
unfolding distinct_loop
loop-Distinct seen [] = no_values
loop-Distinct seen (x ∷ xs) = elim (Bool-cases (is_empty x || was_seen seen x)) [
  | inl t ↦ subst (λ l. Distinct l) (sym (skipped seen xs x t)) (loop-Distinct seen xs)
  | inr f ↦
      subst (λ l. Distinct l) (sym (taken seen xs x f))
        (one_more (λ k. (loop-Kept (x ∷ seen) xs x k).2 (here refl)) (loop-Distinct (x ∷ seen) xs))
]

canonical_destinations-Ascending : (ds : List Str) → Ascending str_order (canonical_destinations ds)
unfolding canonical_destinations
canonical_destinations-Ascending ds =
    sort-Ascending str_order (distinct_loop [] ds) (loop-Distinct [] ds)

pub canonical_destinations-In :
    (ds : List Str) (d : Str) → In d (canonical_destinations ds) ↔ (In d ds × (d ≢ []))
unfolding canonical_destinations
canonical_destinations-In ds d = (
  (λ m. let (k, ne, _) = loop-Kept [] ds d (sort-In str_lt (distinct_loop [] ds) m) in (k, ne)),
  (λ (k, ne). In-sort str_lt (distinct_loop [] ds) (Kept-loop [] ds d (k, ne, λ m. elim m [ ]))),
)

-- `CanonicalDestinations` is a canonical form: two lists of destinations have the same one exactly
-- when the same non-empty destinations occur in them, however often and in whichever order.
pub canonical_destinations_iff :
    (ds es : List Str)
    → (canonical_destinations ds ≡ canonical_destinations es)
      ↔ ((d : Str) → (In d ds × (d ≢ [])) ↔ (In d es × (d ≢ [])))
canonical_destinations_iff ds es = (
  (λ e d. (
    (λ m.
        (canonical_destinations-In es d).0
          (subst (λ l. In d l) e ((canonical_destinations-In ds d).1 m))),
    (λ m.
        (canonical_destinations-In ds d).0
          (subst (λ l. In d l) (sym e) ((canonical_destinations-In es d).1 m))),
  )),
  (λ same.
      Ascending-unique str_order (canonical_destinations ds) (canonical_destinations es)
        (canonical_destinations-Ascending ds) (canonical_destinations-Ascending es)
        (λ d m.
          (canonical_destinations-In es d).1 ((same d).0 ((canonical_destinations-In ds d).0 m)))
        (λ d m.
          (canonical_destinations-In ds d).1 ((same d).1 ((canonical_destinations-In es d).0 m)))),
)
