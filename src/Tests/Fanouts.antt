-- ===== src/Tests/Fanouts.antt =====
-- Canonical lists of destinations.
use agent_dispatch.Base.{Str, codes, str_eq, In, ◌≡◌, ◌≢◌, ◌↔◌, refl, List, [], ◌∷◌}
use agent_dispatch.Base.Ordering.{str_lt}
use agent_dispatch.Base.Sorting.{sort}
use agent_dispatch.Records.Fanout.{distinct_loop, canonical_destinations}
use agent_dispatch.Records.Fanout.Canonical.{canonical_destinations_iff}

abbrev repeated : List Str
repeated = codes "wiki" ∷ [] ∷ codes "main" ∷ codes "wiki" ∷ []

abbrev canonical : List Str
canonical = codes "main" ∷ codes "wiki" ∷ []

repeated_made_canonical : canonical_destinations repeated ≡ canonical
unfolding canonical_destinations distinct_loop sort str_lt str_eq
repeated_made_canonical = refl

canonical_destinations_iff_example :
    (canonical_destinations repeated ≡ canonical_destinations canonical)
    ↔ ((d : Str) → (In d repeated × (d ≢ [])) ↔ (In d canonical × (d ≢ [])))
canonical_destinations_iff_example = canonical_destinations_iff repeated canonical
