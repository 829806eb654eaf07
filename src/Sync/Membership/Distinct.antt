-- ===== src/Sync/Membership/Distinct.antt =====
-- What the loops of `Membership.Validate` leave behind: the maps they fill keep the members apart.
use agent_dispatch.Base.{
  subst, Str, str_eq, str_eq_refl, In, here, there, In-any, false, ◌≡◌, ◌≢◌, refl, sym, ap, ◌∙◌,
  Option, none, some, List, [], ◌∷◌, arith, Option-cases, ok, inl, inr,
}
use agent_dispatch.Sync.Endpoint.{Url}
use agent_dispatch.Sync.Membership.{
  history_key, ActiveMember, HistoricalMember, Membership, Seen, see, has, validate, check_active,
  check_historical, accepted, check_shape,
}

pub has-apart : (seen : List Str) (k s : Str) → has seen k ≡ false → In s seen → k ≢ s
unfolding has
has-apart seen k s h m e =
    ground (arith, h, In-any (λ t. str_eq k t) s seen m (rw e (str_eq_refl s)))

has_fewer : (x k : Str) (seen : List Str) → has (x ∷ seen) k ≡ false → has seen k ≡ false
unfolding has
has_fewer x k seen h = ground arith

module _ (parse_url : Str → Option Url) (admin : Str) where
  active_step :
      (s t : Seen) (m : ActiveMember) (ms : List ActiveMember)
      → check_active parse_url admin s (m ∷ ms) ≡ some t
      → ((has s.instances m.instance_id ≡ false) × (has s.active_keys m.publisher_key ≡ false))
        × (check_active parse_url admin (see s m) ms ≡ some t)
  unfolding check_active
  active_step s t m ms h = ground arith

  incarnations_kept :
      (s t : Seen) (ms : List ActiveMember) (x : Str)
      → check_active parse_url admin s ms ≡ some t
      → In x s.incarnations
      → In x t.incarnations
  unfolding check_active
  incarnations_kept s t [] x h m =
      let e : s ≡ t = cc in subst (λ (u : Seen). In x u.incarnations) e m
  incarnations_kept s t (a ∷ ms) x h m =
      let (_, rest) = active_step s t a ms h in incarnations_kept (see s a) t ms x rest (there m)

  pub active-seen :
      (s t : Seen) (ms : List ActiveMember) (m : ActiveMember)
      → check_active parse_url admin s ms ≡ some t
      → In m ms
      → In m.state_incarnation_id t.incarnations
  active-seen s t [] m h k = elim k [ ]
  active-seen s t (a ∷ ms) m h (here e) =
      let (_, rest) = active_step s t a ms h in
      incarnations_kept (see s a) t ms m.state_incarnation_id rest
        (here (ap (λ x. x.state_incarnation_id) e))
  active-seen s t (a ∷ ms) m h (there k) =
      let (_, rest) = active_step s t a ms h in active-seen (see s a) t ms m rest k

  -- a field that one of the maps of `Seen` collects
  module _ (f : ActiveMember → Str) (g : Seen → List Str)
      (grow : (s : Seen) (m : ActiveMember) → g (see s m) ≡ f m ∷ g s)
      (fresh : (s t : Seen) (m : ActiveMember) (ms : List ActiveMember)
        → check_active parse_url admin s (m ∷ ms) ≡ some t
        → has (g s) (f m) ≡ false) where
    not_seen :
        (s t : Seen) (ms : List ActiveMember) (m : ActiveMember)
        → check_active parse_url admin s ms ≡ some t
        → In m ms
        → has (g s) (f m) ≡ false
    not_seen s t [] m h k = elim k [ ]
    not_seen s t (a ∷ ms) m h (here e) = rw e (fresh s t a ms h)
    not_seen s t (a ∷ ms) m h (there k) =
        let (_, rest) = active_step s t a ms h in
        has_fewer (f a) (f m) (g s)
          (subst (λ l. has l (f m) ≡ false) (grow s a) (not_seen (see s a) t ms m rest k))

    later_differs :
        (s t : Seen) (a : ActiveMember) (ms : List ActiveMember) (m : ActiveMember)
        → check_active parse_url admin s (a ∷ ms) ≡ some t
        → In m ms
        → f m ≢ f a
    later_differs s t a ms m h k =
        let (_, rest) = active_step s t a ms h in
        has-apart (f a ∷ g s) (f m) (f a)
          (subst (λ l. has l (f m) ≡ false) (grow s a) (not_seen (see s a) t ms m rest k))
          (here refl)

    same_by :
        (s t : Seen) (ms : List ActiveMember) (m n : ActiveMember)
        → check_active parse_url admin s ms ≡ some t
        → In m ms
        → In n ms
        → f m ≡ f n
        → m ≡ n
    same_by s t [] m n h j k e = elim j [ ]
    same_by s t (a ∷ ms) m n h (here j) (here k) e = j ∙ sym k
    same_by s t (a ∷ ms) m n h (here j) (there k) e =
        absurd (later_differs s t a ms n h k (sym e ∙ ap f j))
    same_by s t (a ∷ ms) m n h (there j) (here k) e =
        absurd (later_differs s t a ms m h j (e ∙ ap f k))
    same_by s t (a ∷ ms) m n h (there j) (there k) e =
        let (_, rest) = active_step s t a ms h in same_by (see s a) t ms m n rest j k e

  pub same_instance :
      (s t : Seen) (ms : List ActiveMember) (m n : ActiveMember)
      → check_active parse_url admin s ms ≡ some t
      → In m ms
      → In n ms
      → m.instance_id ≡ n.instance_id
      → m ≡ n
  same_instance =
      same_by (λ m. m.instance_id) (λ s. s.instances) (λ s m. refl)
        (λ s t m ms h. (active_step s t m ms h).0.0)

  pub same_key :
      (s t : Seen) (ms : List ActiveMember) (m n : ActiveMember)
      → check_active parse_url admin s ms ≡ some t
      → In m ms
      → In n ms
      → m.publisher_key ≡ n.publisher_key
      → m ≡ n
  same_key =
      same_by (λ m. m.publisher_key) (λ s. s.active_keys) (λ s m. refl)
        (λ s t m ms h. (active_step s t m ms h).0.1)

historical_step :
    (admin : Str) (inc ids : List Str) (m : HistoricalMember) (ms : List HistoricalMember)
    → check_historical admin inc ids (m ∷ ms) ≡ none
    → (has inc m.state_incarnation_id ≡ false)
      × (check_historical admin (m.state_incarnation_id ∷ inc) (history_key m ∷ ids) ms ≡ none)
unfolding check_historical
historical_step admin inc ids m ms h = ground arith

historical-apart :
    (admin : Str) (inc ids : List Str) (hs : List HistoricalMember) (h : HistoricalMember) (i : Str)
    → check_historical admin inc ids hs ≡ none
    → In h hs
    → In i inc
    → h.state_incarnation_id ≢ i
historical-apart admin inc ids [] h i c k m = elim k [ ]
historical-apart admin inc ids (a ∷ hs) h i c (here e) m =
    let (f, _) = historical_step admin inc ids a hs c in
    has-apart inc h.state_incarnation_id i (rw e f) m
historical-apart admin inc ids (a ∷ hs) h i c (there k) m =
    let (_, rest) = historical_step admin inc ids a hs c in
    historical-apart admin (a.state_incarnation_id ∷ inc) (history_key a ∷ ids) hs h i rest k
      (there m)

-- A membership that `Validate` accepts.
abbrev pub IsValid : (Str → Option Url) → Membership → Type 0
IsValid parse_url m = validate parse_url m ≡ ok accepted

abbrev nothing_seen : Seen
nothing_seen = record { instances = []; incarnations = []; active_keys = [] }

module _ (parse_url : Str → Option Url) (m : Membership) (valid : IsValid parse_url m) where
  loops_passed :
      (t : Seen) × (check_active parse_url m.administrator_key nothing_seen m.active_members
        ≡ some t)
      × (check_historical m.administrator_key t.incarnations [] m.historical_members ≡ none)
  unfolding validate
  loops_passed = elim (Option-cases (check_shape m)) [
    | inr (f, e) ↦ ground (arith, valid)
    | inl e ↦
        elim (Option-cases
          (check_active parse_url m.administrator_key nothing_seen m.active_members)) [
            | inl n ↦ ground (arith, valid)
            | inr (t, s) ↦ (t, s, ground (arith, valid))
          ]
  ]

  pub IsValid-one_instance :
      (a b : ActiveMember)
      → In a m.active_members
      → In b m.active_members
      → a.instance_id ≡ b.instance_id
      → a ≡ b
  IsValid-one_instance a b =
      let (t, s, _) = loops_passed in
      same_instance parse_url m.administrator_key nothing_seen t m.active_members a b s

  pub IsValid-one_key :
      (a b : ActiveMember)
      → In a m.active_members
      → In b m.active_members
      → a.publisher_key ≡ b.publisher_key
      → a ≡ b
  IsValid-one_key a b =
      let (t, s, _) = loops_passed in
      same_key parse_url m.administrator_key nothing_seen t m.active_members a b s

  pub IsValid-apart :
      (h : HistoricalMember) (a : ActiveMember)
      → In h m.historical_members
      → In a m.active_members
      → h.state_incarnation_id ≢ a.state_incarnation_id
  IsValid-apart h a k j =
      let (t, s, c) = loops_passed in
      historical-apart m.administrator_key t.incarnations [] m.historical_members h
        a.state_incarnation_id c k
        (active-seen parse_url m.administrator_key nothing_seen t m.active_members a s j)
