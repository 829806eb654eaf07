-- ===== src/Sync/Membership/Kept.antt =====
-- internal/domain/syncrecords/membership.go: what `applyChange` keeps of the members.
use agent_dispatch.Base.{
  if◌then◌else◌, ℕ, suc, Str, str_eq, str_eq_iff, str_eq→eq, all, In, here, there, Bool, true,
  false, ◌||◌, not, ◌≡◌, ◌≢◌, ◌⊎◌, refl, sym, ap, subst, ◌∙◌, some, List, [], ◌∷◌, arith,
  Bool-cases, Option-cases, inl, inr,
}
use agent_dispatch.Sync.Membership.{ActiveMember, HistoricalMember, Membership}
use agent_dispatch.Sync.Membership.Change.{
  Allowed, endpoint_only, active_by_id, remove_active, same_member, allows, same_loop, same_except,
  retains, count_retained,
}

pub active_by_id-In :
    (ms : List ActiveMember) (id : Str) (m : ActiveMember)
    → active_by_id ms id ≡ some m
    → In m ms × (m.instance_id ≡ id)
unfolding active_by_id
active_by_id-In [] id m h = cc
active_by_id-In (a ∷ ms) id m h = elim (Bool-cases (str_eq a.instance_id id)) [
  | inl t ↦
      (let e : m ≡ a = ground (arith, h, t) in
        (here e, ap (λ (x : ActiveMember). x.instance_id) e ∙ str_eq→eq a.instance_id id t))
  | inr f ↦ let (k, e) = active_by_id-In ms id m (ground (arith, h, f)) in (there k, e)
]

pub remove_active-keeps :
    (ms : List ActiveMember) (id : Str) (m : ActiveMember)
    → In m ms
    → m.instance_id ≢ id
    → In m (remove_active ms id)
unfolding remove_active
remove_active-keeps [] id m k n = elim k [ ]
remove_active-keeps (a ∷ ms) id m (here e) n = elim (Bool-cases (str_eq a.instance_id id)) [
  | inl t ↦ absurd (n (ap (λ (x : ActiveMember). x.instance_id) e ∙ str_eq→eq a.instance_id id t))
  | inr f ↦ rw f (here e)
]
remove_active-keeps (a ∷ ms) id m (there k) n = elim (Bool-cases (str_eq a.instance_id id)) [
  | inl t ↦ rw t (remove_active-keeps ms id m k n)
  | inr f ↦ rw f (there (remove_active-keeps ms id m k n))
]

In-unremoved :
    (a m : ActiveMember) (ms rest : List ActiveMember) (id : Str) (b : Bool)
    → str_eq a.instance_id id ≡ b
    → (In m rest → In m ms × (m.instance_id ≢ id))
    → In m (if not b then a ∷ rest else rest)
    → In m (a ∷ ms) × (m.instance_id ≢ id)
In-unremoved a m ms rest id true e f k = let (l, n) = f k in (there l, n)
In-unremoved a m ms rest id false e f (here q) = (
  here q,
  λ p. ground (
    arith,
    e,
    (str_eq_iff a.instance_id id).1 (sym (ap (λ (x : ActiveMember). x.instance_id) q) ∙ p),
  ),
)
In-unremoved a m ms rest id false e f (there k) = let (l, n) = f k in (there l, n)

pub In-remove_active :
    (ms : List ActiveMember) (id : Str) (m : ActiveMember)
    → In m (remove_active ms id)
    → In m ms × (m.instance_id ≢ id)
unfolding remove_active
In-remove_active [] id m k = elim k [ ]
In-remove_active (a ∷ ms) id m k =
    In-unremoved a m ms (remove_active ms id) id (str_eq a.instance_id id) refl
      (In-remove_active ms id m) k

pub same_member→eq : (a b : ActiveMember) → same_member a b ≡ true → a ≡ b
same_member→eq a b h =
    let i : a.instance_id ≡ b.instance_id =
      str_eq→eq a.instance_id b.instance_id (ground (arith, h)) in
    let s : a.state_incarnation_id ≡ b.state_incarnation_id =
      str_eq→eq a.state_incarnation_id b.state_incarnation_id (ground (arith, h)) in
    let k : a.publisher_key ≡ b.publisher_key =
      str_eq→eq a.publisher_key b.publisher_key (ground (arith, h)) in
    let e : a.endpoint ≡ b.endpoint = str_eq→eq a.endpoint b.endpoint (ground (arith, h)) in cc

pub all-In {ℓ} :
    {A : Type ℓ} (p : A → Bool) (xs : List A) (x : A) → all p xs ≡ true → In x xs → p x ≡ true
all-In p [] x h k = elim k [ ]
all-In p (y ∷ ys) x h (here e) = rw e (ground arith)
all-In p (y ∷ ys) x h (there k) = all-In p ys x (ground arith) k

pub retains-In :
    (desired : List ActiveMember) (m : ActiveMember) → retains desired m ≡ true → In m desired
retains-In desired m h = elim (Option-cases (active_by_id desired m.instance_id)) [
  | inl n ↦ ground (arith, h, n)
  | inr (b, e) ↦
      (let q : b ≡ m = same_member→eq b m (ground (arith, h, e)) in
        subst (λ x. In x desired) q (active_by_id-In desired m.instance_id b e).0)
]

count_retained_step :
    (desired old : List ActiveMember) (target : Str) (r n : ℕ) (a : ActiveMember)
    → count_retained desired target r (a ∷ old) ≡ some n
    → ((str_eq a.instance_id target ≡ true) ⊎ (retains desired a ≡ true))
      × ((count_retained desired target r old ≡ some n)
          ⊎ (count_retained desired target (suc r) old ≡ some n))
unfolding count_retained
count_retained_step desired old target r n a h = ground arith

pub count_retained-In :
    (desired old : List ActiveMember) (target : Str) (r n : ℕ) (m : ActiveMember)
    → count_retained desired target r old ≡ some n
    → In m old
    → m.instance_id ≢ target
    → In m desired
count_retained-In desired [] target r n m h k ne = elim k [ ]
count_retained-In desired (a ∷ old) target r n m h (here e) ne =
    elim (count_retained_step desired old target r n a h).0 [
      | inl t ↦
          absurd
            (ne (ap (λ (x : ActiveMember). x.instance_id) e ∙ str_eq→eq a.instance_id target t))
      | inr t ↦ subst (λ x. In x desired) (sym e) (retains-In desired a t)
    ]
count_retained-In desired (a ∷ old) target r n m h (there k) ne =
    elim (count_retained_step desired old target r n a h).1 [
      | inl c ↦ count_retained-In desired old target r n m c k ne
      | inr c ↦ count_retained-In desired old target (suc r) n m c k ne
    ]

same_loop-allows :
    (desired old : List ActiveMember) (target : Str) (a : Allowed) (c : Bool) (m : ActiveMember)
    → same_loop desired target a c old ≡ true
    → In m old
    → allows target a m (active_by_id desired m.instance_id) ≡ true
unfolding same_loop
same_loop-allows desired [] target a c m h k = elim k [ ]
same_loop-allows desired (b ∷ old) target a c m h (here e) = rw e (ground arith)
same_loop-allows desired (b ∷ old) target a c m h (there k) =
    same_loop-allows desired old target a (c || str_eq b.instance_id target) m (ground arith) k

-- The membership still names the incarnation, as an active or as a historical member's.
abbrev pub Knows : Membership → Str → Type 0
Knows m i =
    ((a : ActiveMember) × In a m.active_members × (a.state_incarnation_id ≡ i))
    ⊎ ((h : HistoricalMember) × In h m.historical_members × (h.state_incarnation_id ≡ i))

same_except-allows :
    (desired old : List ActiveMember) (target : Str) (a : Allowed) (m : ActiveMember)
    → same_except old desired target a ≡ true
    → In m old
    → (b : ActiveMember) × In b desired × (allows target a m (some b) ≡ true)
unfolding same_except
same_except-allows desired old target a m h k =
    let loop : allows target a m (active_by_id desired m.instance_id) ≡ true =
      same_loop-allows desired old target a false m (ground (arith, h)) k in
    elim (Option-cases (active_by_id desired m.instance_id)) [
      | inl n ↦ ground (arith, loop, n)
      | inr (b, e) ↦ (
        b,
        (active_by_id-In desired m.instance_id b e).0,
        subst (λ o. allows target a m o ≡ true) e loop,
      )
    ]

pub same_except-retains :
    (desired old : List ActiveMember) (target : Str) (a : Allowed) (m : ActiveMember)
    → same_except old desired target a ≡ true
    → In m old
    → m.instance_id ≢ target
    → In m desired
same_except-retains desired old target a m h k ne =
    let (b, l, f) = same_except-allows desired old target a m h k in
    elim (Bool-cases (str_eq m.instance_id target)) [
      | inl t ↦ absurd (ne (str_eq→eq m.instance_id target t))
      | inr n ↦
          (let e : m ≡ b = same_member→eq m b (ground (arith, f, n)) in
            subst (λ x. In x desired) (sym e) l)
    ]

pub same_except-endpoint :
    (desired old : List ActiveMember) (target : Str) (m : ActiveMember)
    → same_except old desired target endpoint_only ≡ true
    → In m old
    → (b : ActiveMember) × In b desired × (b.state_incarnation_id ≡ m.state_incarnation_id)
same_except-endpoint desired old target m h k =
    let (b, l, f) = same_except-allows desired old target endpoint_only m h k in
    let e : str_eq m.state_incarnation_id b.state_incarnation_id ≡ true = ground (arith, f) in
    (b, l, sym (str_eq→eq m.state_incarnation_id b.state_incarnation_id e))
