-- ===== src/State/Route/Gate.antt =====
-- The gate on a new normal dispatch, against the state machine.
use agent_dispatch.Base.{codes, str_eq_iff, ◌≡◌, ◌≢◌, ◌↔◌, subst, none, [], arith}
use agent_dispatch.State.Route.{
  route_idle, route_active_clean, dispatch_accepted, RouteSnapshot, RouteEvidence,
  validate_route_transition, can_activate_normal_dispatch,
}
use agent_dispatch.State.Route.Moves.{RouteMove, validate_route_transition_iff, activate}

gate_iff :
    (snap : RouteSnapshot)
    → (can_activate_normal_dispatch snap ≡ none) ↔ (
        (snap.activation_state ≡ codes "enabled")
        × (snap.state ≡ route_idle)
        × (snap.active_dispatch_id ≡ []))
unfolding can_activate_normal_dispatch
gate_iff snap = ground (arith, str_eq_iff snap.activation_state (codes "enabled"))

activate-validated :
    (snap : RouteSnapshot) (ev : RouteEvidence)
    → snap.activation_state ≡ codes "enabled"
    → snap.state ≡ route_idle
    → snap.active_dispatch_id ≡ []
    → ev.activating_dispatch_id ≢ []
    → validate_route_transition snap route_active_clean dispatch_accepted ev ≡ none
activate-validated snap ev h k l m =
    (validate_route_transition_iff snap route_active_clean dispatch_accepted ev).1
      (grind (arith, activate))

enabled_of :
    {snap : RouteSnapshot} {ev : RouteEvidence}
    → RouteMove snap ev route_idle route_active_clean dispatch_accepted
    → snap.activation_state ≡ codes "enabled"
enabled_of (activate h) = h.0

validated→enabled :
    (snap : RouteSnapshot) (ev : RouteEvidence)
    → snap.state ≡ route_idle
    → validate_route_transition snap route_active_clean dispatch_accepted ev ≡ none
    → snap.activation_state ≡ codes "enabled"
validated→enabled snap ev h k = enabled_of (
    subst (λ s. RouteMove snap ev s route_active_clean dispatch_accepted) h
      ((validate_route_transition_iff snap route_active_clean dispatch_accepted ev).0 k))

-- For evidence that names a dispatch, the gate lets a new normal dispatch through exactly where the
-- route is idle, its slot is empty, and the state machine validates the activation.
pub can_activate_normal_dispatch_iff :
    (snap : RouteSnapshot) (ev : RouteEvidence)
    → ev.activating_dispatch_id ≢ []
    → (can_activate_normal_dispatch snap ≡ none) ↔ (
        (snap.state ≡ route_idle)
        × (snap.active_dispatch_id ≡ [])
        × (validate_route_transition snap route_active_clean dispatch_accepted ev ≡ none))
can_activate_normal_dispatch_iff snap ev k = (
  λ h.
      let (enabled, idle, free) = (gate_iff snap).0 h in
      (idle, free, activate-validated snap ev enabled idle free k),
  λ (idle, free, v). (gate_iff snap).1 (validated→enabled snap ev idle v, idle, free),
)
