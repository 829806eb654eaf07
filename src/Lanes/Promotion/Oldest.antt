-- ===== src/Lanes/Promotion/Oldest.antt =====
-- Which lane gets the slot next: the query's first row, against what waiting and coming first mean.
use agent_dispatch.Base.{
  Str, str_eq_iff, true, false, ◌≡◌, ◌⊎◌, inl, inr, Option, none, some, List, [], ◌∷◌, In, here,
  there, refl, arith, Bool-cases, Option-cases, sym, subst,
}
use agent_dispatch.Base.Ordering.{le_trans, lt_asym}
use agent_dispatch.Lanes.Groups.{GroupRow, group_open, group_held}
use agent_dispatch.Lanes.Promotion.{
  Member, waits, waiting_key, key_order, older, open_row, reserved_row, next_waiting,
  release_group_slot,
}
use agent_dispatch.Lanes.Promotion.Waiting.{IsWaiter, IsFirst, waits_iff, Precedes-lt}

-- What a release leaves of the group: nobody waits and it is open, or it is reserved, with no
-- dispatch, for the lane that comes first.

abbrev pub PassedOn : Str → Str → List Member → GroupRow → Type 0
PassedOn route destination members after =
    ((after.state ≡ group_open) × ((n : Member) → In n members → IsWaiter route destination n → ⊥))
    ⊎ ((after.state ≡ group_held)
        × (after.holder_dispatch_id ≡ [])
        × (m : Member) × (after.holder_route_id ≡ m.route_id)
        × (after.holder_destination_id ≡ m.destination_id)
        × IsFirst route destination members m)

-- The same, in the terms of the query.

abbrev IsOldest : Str → Str → List Member → Member → Type 0
IsOldest route destination members m =
    In m members
    × (waits route destination m ≡ true)
    × ((n : Member)
        → In n members
        → waits route destination n ≡ true
        → key_order.lt (waiting_key n) (waiting_key m) ≡ false)

next_waiting-none :
    (route destination : Str) (members : List Member)
    → next_waiting route destination members ≡ none
    → (n : Member) → In n members
    → waits route destination n ≡ false
unfolding next_waiting
next_waiting-none route destination [] h n k = elim k [ ]
next_waiting-none route destination (x ∷ xs) h n (here e) = rw e (ground arith)
next_waiting-none route destination (x ∷ xs) h n (there k) =
    next_waiting-none route destination xs (ground arith) n k

-- The three ways in which a row joins the answer of the rows after it.
skipped-IsOldest :
    (route destination : Str) (x m : Member) (xs : List Member)
    → waits route destination x ≡ false
    → IsOldest route destination xs m
    → IsOldest route destination (x ∷ xs) m
skipped-IsOldest route destination x m xs w (member, waiting, first) = (
  there member,
  waiting,
  λ n k v. elim k [
    | here e ↦ absurd (ground (arith, w, subst (λ y. waits route destination y ≡ true) e v))
    | there l ↦ first n l v
  ],
)

kept-IsOldest :
    (route destination : Str) (x m : Member) (xs : List Member)
    → key_order.lt (waiting_key m) (waiting_key x) ≡ true
    → IsOldest route destination xs m
    → IsOldest route destination (x ∷ xs) m
kept-IsOldest route destination x m xs h (member, waiting, first) = (
  there member,
  waiting,
  λ n k v. elim k [
    | here e ↦
        subst (λ y. key_order.lt (waiting_key y) (waiting_key m) ≡ false) (sym e)
          (lt_asym key_order (waiting_key m) (waiting_key x) h)
    | there l ↦ first n l v
  ],
)

first-IsOldest :
    (route destination : Str) (x : Member) (xs : List Member)
    → waits route destination x ≡ true
    → ((n : Member)
        → In n xs
        → waits route destination n ≡ true
        → key_order.lt (waiting_key n) (waiting_key x) ≡ false)
    → IsOldest route destination (x ∷ xs) x
first-IsOldest route destination x xs w rest = (
  here refl,
  w,
  λ n k v. elim k [
    | here e ↦
        subst (λ y. key_order.lt (waiting_key y) (waiting_key x) ≡ false) (sym e)
          (key_order.lt_irrefl (waiting_key x))
    | there l ↦ rest n l v
  ],
)

joined-IsOldest :
    (route destination : Str) (x y : Member) (xs : List Member)
    → waits route destination x ≡ true
    → IsOldest route destination xs y
    → IsOldest route destination (x ∷ xs) (older x (some y))
joined-IsOldest route destination x y xs w h =
    elim (Bool-cases (key_order.lt (waiting_key y) (waiting_key x))) [
      | inl t ↦
          subst (λ m. IsOldest route destination (x ∷ xs) m) (ground (arith, t))
            (kept-IsOldest route destination x y xs t h)
      | inr f ↦
          subst (λ m. IsOldest route destination (x ∷ xs) m) (ground (arith, f))
            (first-IsOldest route destination x xs w (λ n l v.
              le_trans key_order (waiting_key x) (waiting_key y) (waiting_key n) f (h.2 n l v)))
    ]

next_waiting-some :
    (route destination : Str) (members : List Member) (m : Member)
    → next_waiting route destination members ≡ some m
    → IsOldest route destination members m
unfolding next_waiting
next_waiting-some route destination [] m h = cc
next_waiting-some route destination (x ∷ xs) m h = elim (Bool-cases (waits route destination x)) [
  | inr w ↦
      skipped-IsOldest route destination x m xs w
        (next_waiting-some route destination xs m (ground (arith, w, h)))
  | inl w ↦ elim (Option-cases (next_waiting route destination xs)) [
    | inl none_left ↦
        subst (λ k. IsOldest route destination (x ∷ xs) k) (ground (arith, w, h, none_left))
          (first-IsOldest route destination x xs w (λ n l v.
            absurd (ground (arith, v, next_waiting-none route destination xs none_left n l))))
    | inr (y, e) ↦
        subst (λ k. IsOldest route destination (x ∷ xs) k) (ground (arith, w, h, e))
          (joined-IsOldest route destination x y xs w (next_waiting-some route destination xs y e))
  ]
]

abbrev promoted_row : Option Member → GroupRow
promoted_row none = open_row
promoted_row (some m) = reserved_row m

released :
    (group : GroupRow) (members : List Member) (route destination dispatch : Str)
    (next : Option Member)
    → group.state ≡ group_held
    → group.holder_dispatch_id ≡ dispatch
    → next_waiting route destination members ≡ next
    → release_group_slot (some group) members route destination dispatch ≡ some (promoted_row next)
unfolding release_group_slot
released group members route destination dispatch next h k e =
    ground (arith, str_eq_iff group.holder_dispatch_id dispatch)

IsOldest-IsFirst :
    (route destination : Str) (members : List Member) (m : Member)
    → IsOldest route destination members m
    → IsFirst route destination members m
IsOldest-IsFirst route destination members m (member, waiting, first) = (
  member,
  (waits_iff route destination m).0 waiting,
  λ n i w p. ground (arith, first n i ((waits_iff route destination n).1 w), Precedes-lt n m p),
)

-- A release by the dispatch that holds the slot of the group: without a waiting lane the group opens;
-- otherwise the slot is reserved, with no dispatch, for a lane that waits and before which, by the age
-- of its first dirty work, then its destination, then its route, no waiting lane comes. A lane waits
-- if it is not the one that releases, and it counts dirty work or holds in its slot a ready follow-up
-- whose intent is neither completed nor superseded.
pub release_group_slot-promotes :
    (group : GroupRow) (members : List Member) (route destination dispatch : Str)
    → group.state ≡ group_held
    → group.holder_dispatch_id ≡ dispatch
    → (after : GroupRow) × (release_group_slot (some group) members route destination dispatch
        ≡ some after)
      × PassedOn route destination members after
release_group_slot-promotes group members route destination dispatch h k =
    elim (Option-cases (next_waiting route destination members)) [
      | inl e ↦ (
        open_row,
        released group members route destination dispatch none h k e,
        inl (
          refl,
          λ n i w. ground (
            arith,
            next_waiting-none route destination members e n i,
            (waits_iff route destination n).1 w,
          ),
        ),
      )
      | inr (m, e) ↦ (
        reserved_row m,
        released group members route destination dispatch (some m) h k e,
        inr (
          refl,
          refl,
          m,
          refl,
          refl,
          IsOldest-IsFirst route destination members m
              (next_waiting-some route destination members m e),
        ),
      )
    ]
