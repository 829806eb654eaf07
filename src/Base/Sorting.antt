-- ===== src/Base/Sorting.antt =====
-- Go's `sort.SliceStable`, and `sort.Slice` and `sort.Strings` where no two values are level: an
-- insertion sort by a test that is the code's `less`.
use mathlib.Core.Path.{◌≡◌}
use mathlib.Core.Logic.{◌⊎◌, inl, inr}
use mathlib.Core.Bool.{Bool, true, false}
use mathlib.Core.List.{List, [], ◌∷◌}
use agent_dispatch.Base.Tests.{if◌then◌else◌}
use agent_dispatch.Base.Lists.{In, here, there}

module _ {ℓ} {A : Type ℓ} (less : A → A → Bool) where
  abbrev pub insert : A → List A → List A
  insert x [] = x ∷ []
  insert x (y ∷ ys) = let rest = insert x ys in if less y x then y ∷ rest else x ∷ y ∷ ys

  unfoldable pub sort : List A → List A
  sort [] = []
  sort (x ∷ xs) = insert x (sort xs)

  placed :
      {a x y : A} (ys rest : List A) (b : Bool)
      → (In a rest → (a ≡ x) ⊎ In a ys)
      → In a (if b then y ∷ rest else x ∷ y ∷ ys)
      → (a ≡ x) ⊎ In a (y ∷ ys)
  placed ys rest true f (here e) = inr (here e)
  placed ys rest true f (there k) = elim (f k) [ inl e ↦ inl e | inr l ↦ inr (there l) ]
  placed ys rest false f (here e) = inl e
  placed ys rest false f (there k) = inr k

  pub insert-In : {a x : A} (xs : List A) → In a (insert x xs) → (a ≡ x) ⊎ In a xs
  insert-In [] (here e) = inl e
  insert-In [] (there m) = inr m
  insert-In {a} {x} (y ∷ ys) m = placed ys (insert x ys) (less y x) (insert-In ys) m

  replaced :
      {a x y : A} (ys rest : List A) (b : Bool)
      → ((a ≡ x) ⊎ In a ys → In a rest)
      → (a ≡ x) ⊎ In a (y ∷ ys)
      → In a (if b then y ∷ rest else x ∷ y ∷ ys)
  replaced ys rest true f (inl e) = there (f (inl e))
  replaced ys rest true f (inr (here e)) = here e
  replaced ys rest true f (inr (there k)) = there (f (inr k))
  replaced ys rest false f (inl e) = here e
  replaced ys rest false f (inr k) = there k

  In-insert : {a x : A} (xs : List A) → (a ≡ x) ⊎ In a xs → In a (insert x xs)
  In-insert [] (inl e) = here e
  In-insert [] (inr m) = there m
  In-insert {a} {x} (y ∷ ys) m = replaced ys (insert x ys) (less y x) (In-insert ys) m

  -- Sorting keeps the members.
  pub sort-In : {a : A} (xs : List A) → In a (sort xs) → In a xs
  unfolding sort
  sort-In [] m = m
  sort-In (x ∷ xs) m = elim (insert-In (sort xs) m) [
    | inl e ↦ here e
    | inr k ↦ there (sort-In xs k)
  ]

  pub In-sort : {a : A} (xs : List A) → In a xs → In a (sort xs)
  unfolding sort
  In-sort [] m = m
  In-sort (x ∷ xs) (here e) = In-insert (sort xs) (inl e)
  In-sort (x ∷ xs) (there k) = In-insert (sort xs) (inr (In-sort xs k))
