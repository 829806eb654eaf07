-- ===== src/Tests/Routes.antt =====
-- The route coordination.
use agent_dispatch.Base.{codes, false, ◌≡◌, ◌≢◌, ◌↔◌, none, []}
use agent_dispatch.Base.Int.{pos}
use agent_dispatch.State.Route.{
  dispatch_accepted, route_active_clean, route_idle, RouteEvidence, validate_route_transition,
  RouteSnapshot, can_activate_normal_dispatch, no_route_evidence,
}
use agent_dispatch.State.Route.Moves.{RouteMove, validate_route_transition_iff}
use agent_dispatch.State.Route.Gate.{can_activate_normal_dispatch_iff}

abbrev idle : RouteSnapshot
idle = record {
  route_id = codes "notes";
  activation_state = codes "enabled";
  state = route_idle;
  active_dispatch_id = [];
  dirty_generation = pos 0;
  pending_reconcile = false;
  acknowledged_revision = [];
  capability_fingerprint = [];
  failure_budget = pos 0;
}

abbrev activation : RouteEvidence
activation = record no_route_evidence { activating_dispatch_id = codes "d-1" }

dispatch_named : activation.activating_dispatch_id ≢ []
dispatch_named h = cc

validate_route_transition_iff_example :
    (validate_route_transition idle route_active_clean dispatch_accepted activation ≡ none)
    ↔ RouteMove idle activation route_idle route_active_clean dispatch_accepted
validate_route_transition_iff_example =
    validate_route_transition_iff idle route_active_clean dispatch_accepted activation

can_activate_normal_dispatch_iff_example : (can_activate_normal_dispatch idle ≡ none) ↔ (
    (idle.state ≡ route_idle)
    × (idle.active_dispatch_id ≡ [])
    × (validate_route_transition idle route_active_clean dispatch_accepted activation ≡ none))
can_activate_normal_dispatch_iff_example =
    can_activate_normal_dispatch_iff idle activation dispatch_named
