-- ===== src/Base/Ascending.antt =====
-- What `sort` makes of values that differ, for a strict order: the only ascending list of them.
use mathlib.Core.Path.{◌≡◌, refl, sym, subst, ◌∙◌, ap₂}
use mathlib.Core.Logic.{◌⊎◌, inl, inr, ◌≢◌}
use mathlib.Core.Bool.{Bool, true, false}
use mathlib.Core.List.{List, [], ◌∷◌}
use native.Mathlib.Omega.{arith}
use agent_dispatch.Base.Tests.{if◌then◌else◌, Bool-cases}
use agent_dispatch.Base.Lists.{In, here, there}
use agent_dispatch.Base.Ordering.{Order, lt_asym}
use agent_dispatch.Base.Sorting.{insert, sort, insert-In, sort-In}

-- no two of the values are level
pub data Distinct {ℓ} {A : Type ℓ} : List A → Type ℓ where
  no_values : Distinct []
  one_more : {x : A} {xs : List A} → (In x xs → ⊥) → Distinct xs → Distinct (x ∷ xs)

module _ {ℓ} {A : Type ℓ} (o : Order A) where
  pub data Ascending : List A → Type ℓ where
    ascending_nil : Ascending []
    ascending_cons :
        {x : A} {xs : List A}
        → ((y : A) → In y xs → o.lt x y ≡ true)
        → Ascending xs
        → Ascending (x ∷ xs)

  before_other : (x y : A) → o.lt y x ≡ false → x ≢ y → o.lt x y ≡ true
  before_other x y h ne = elim (Bool-cases (o.lt x y)) [
    | inl t ↦ t
    | inr f ↦ absurd (ne (o.lt_connected x y f h))
  ]

  placed-Ascending :
      (x y : A) (ys rest : List A) (b : Bool)
      → o.lt y x ≡ b
      → (In x (y ∷ ys) → ⊥)
      → ((z : A) → In z ys → o.lt y z ≡ true)
      → Ascending ys
      → Ascending rest
      → ((z : A) → In z rest → (z ≡ x) ⊎ In z ys)
      → Ascending (if b then y ∷ rest else x ∷ y ∷ ys)
  placed-Ascending x y ys rest true e n h s r m =
      ascending_cons
        (λ z k. elim (m z k) [ inl q ↦ subst (λ w. o.lt y w ≡ true) (sym q) e | inr l ↦ h z l ]) r
  placed-Ascending x y ys rest false e n h s r m =
      let xy : o.lt x y ≡ true = before_other x y e (λ q. n (here q)) in
      ascending_cons
        (λ z k. elim k [
          | here q ↦ subst (λ w. o.lt x w ≡ true) (sym q) xy
          | there l ↦ o.lt_trans x y z xy (h z l)
        ])
        (ascending_cons h s)

  insert-Ascending :
      (x : A) (xs : List A) → (In x xs → ⊥) → Ascending xs → Ascending (insert o.lt x xs)
  insert-Ascending x [] n s = ascending_cons (λ y m. elim m [ ]) ascending_nil
  insert-Ascending x (y ∷ ys) n (ascending_cons h s) =
      placed-Ascending x y ys (insert o.lt x ys) (o.lt y x) refl n h s
        (insert-Ascending x ys (λ k. n (there k)) s) (λ z k. insert-In o.lt ys k)

  pub sort-Ascending : (xs : List A) → Distinct xs → Ascending (sort o.lt xs)
  unfolding sort
  sort-Ascending [] d = ascending_nil
  sort-Ascending (x ∷ xs) (one_more n d) =
      insert-Ascending x (sort o.lt xs) (λ k. n (sort-In o.lt xs k)) (sort-Ascending xs d)

  same_first :
      (x y : A) (xs ys : List A)
      → ((z : A) → In z xs → o.lt x z ≡ true)
      → ((z : A) → In z ys → o.lt y z ≡ true)
      → In x (y ∷ ys)
      → In y (x ∷ xs)
      → x ≡ y
  same_first x y xs ys h k (here e) m = e
  same_first x y xs ys h k (there l) (here e) = sym e
  same_first x y xs ys h k (there l) (there m) = ground (arith, lt_asym o y x (k x l), h y m)

  tail_member :
      (x y : A) (xs ys : List A)
      → x ≡ y
      → ((z : A) → In z xs → o.lt x z ≡ true)
      → ((z : A) → In z (x ∷ xs) → In z (y ∷ ys))
      → (z : A) → In z xs
      → In z ys
  tail_member x y xs ys e h f z k = elim (f z (there k)) [
    | there l ↦ l
    | here q ↦
        (let w : o.lt x x ≡ true = subst (λ v. o.lt x v ≡ true) (q ∙ sym e) (h z k) in
          ground (arith, w, o.lt_irrefl x))
  ]

  -- Two ascending lists of the same values are equal.
  pub Ascending-unique :
      (xs ys : List A)
      → Ascending xs
      → Ascending ys
      → ((z : A) → In z xs → In z ys)
      → ((z : A) → In z ys → In z xs)
      → xs ≡ ys
  Ascending-unique [] [] s t f g = refl
  Ascending-unique [] (y ∷ ys) s t f g = elim (g y (here refl)) [ ]
  Ascending-unique (x ∷ xs) [] s t f g = elim (f x (here refl)) [ ]
  Ascending-unique (x ∷ xs) (y ∷ ys) (ascending_cons h s) (ascending_cons k t) f g =
      let e : x ≡ y = same_first x y xs ys h k (f x (here refl)) (g y (here refl)) in
      ap₂ ◌∷◌ e (
        Ascending-unique xs ys s t (tail_member x y xs ys e h f)
          (tail_member y x ys xs (sym e) k g))
