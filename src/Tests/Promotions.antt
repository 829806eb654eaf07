-- ===== src/Tests/Promotions.antt =====
-- The lanes of a group.
use agent_dispatch.Base.{Str, codes, ◌≡◌, refl, none, some, List, [], ◌∷◌}
use agent_dispatch.Base.Int.{pos}
use agent_dispatch.State.Route.{route_idle}
use agent_dispatch.Lanes.Groups.{GroupRow, group_held}
use agent_dispatch.Lanes.Promotion.{Member, release_group_slot}
use agent_dispatch.Lanes.Promotion.Oldest.{PassedOn, release_group_slot-promotes}

abbrev held : GroupRow
held = record {
  state = group_held;
  holder_route_id = codes "notes";
  holder_destination_id = codes "other";
  holder_dispatch_id = codes "d-0";
}

-- Two lanes of a group wait, the second of them for longer; a third releases the slot.
abbrev member : Str → Str → Member
member id since = record {
  route_id = codes "notes";
  destination_id = id;
  lane = record {
    lane_state = route_idle;
    active_dispatch_id = [];
    active_generation = pos 0;
    dirty_generation = pos 1;
    dirty_since = some since;
  };
  intent = none;
}

abbrev lanes : List Member
lanes =
    member (codes "late") (codes "2026-01-02") ∷ member (codes "early") (codes "2026-01-01") ∷ []

release_group_slot-promotes_example :
    (after : GroupRow) × (release_group_slot
        (some held)
        lanes
        (codes "notes")
        (codes "other")
        (codes "d-0")
      ≡ some after)
    × PassedOn (codes "notes") (codes "other") lanes after
release_group_slot-promotes_example =
    release_group_slot-promotes held lanes (codes "notes") (codes "other") (codes "d-0") refl refl
