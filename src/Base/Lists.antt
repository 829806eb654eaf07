-- ===== src/Base/Lists.antt =====
-- Lists measured and indexed by native numbers, under the library's names.
use Prim.Native.Nat.{ℕ, zero, suc, ◌+◌, ◌<◌}
use mathlib.Core.Path.{◌≡◌, refl, ap}
use mathlib.Core.Logic.{◌≢◌}
use mathlib.Core.Bool.{Bool, true, false, ◌||◌, ◌&&◌}
use mathlib.Core.List.{List, [], ◌∷◌, ◌++◌, map}
use native.Mathlib.Omega.{arith}

module _ {ℓ} {A : Type ℓ} where
  abbrev pub length : List A → ℕ
  length [] = 0
  length (x ∷ xs) = suc (length xs)

  abbrev pub get_or : List A → ℕ → A → A
  get_or [] i d = d
  get_or (x ∷ xs) zero d = x
  get_or (x ∷ xs) (suc i) d = get_or xs i d

  -- A write out of bounds changes nothing.
  abbrev pub set : List A → ℕ → A → List A
  set [] i v = []
  set (x ∷ xs) zero v = v ∷ xs
  set (x ∷ xs) (suc i) v = x ∷ set xs i v

  abbrev pub replicate : ℕ → A → List A
  replicate zero a = []
  replicate (suc n) a = a ∷ replicate n a

  -- `for _, x := range xs { if p(x) { return true } } return false`
  abbrev pub any : (A → Bool) → List A → Bool
  any p [] = false
  any p (x ∷ xs) = p x || any p xs

  abbrev pub all : (A → Bool) → List A → Bool
  all p [] = true
  all p (x ∷ xs) = p x && all p xs

module _ {ℓ} {A : Type ℓ} where
  -- Membership, as a family that can be matched.
  pub data In (a : A) : List A → Type ℓ where
    here : {x : A} {xs : List A} → a ≡ x → In a (x ∷ xs)
    there : {x : A} {xs : List A} → In a xs → In a (x ∷ xs)

module _ {ℓ} {A : Type ℓ} where
  pub length-set : (xs : List A) (i : ℕ) (v : A) → length (set xs i v) ≡ length xs
  length-set [] i v = refl
  length-set (x ∷ xs) zero v = refl
  length-set (x ∷ xs) (suc i) v = ap suc (length-set xs i v)

  pub length-append : (xs ys : List A) → length (xs ++ ys) ≡ length xs + length ys
  length-append [] ys = omega arith
  length-append (x ∷ xs) ys = omega (arith, length-append xs ys)

  pub length-replicate : (n : ℕ) (a : A) → length (replicate n a) ≡ n
  length-replicate zero a = refl
  length-replicate (suc n) a = ap suc (length-replicate n a)

  pub get_or-set_self :
      (xs : List A) (i : ℕ) (v d : A) → i < length xs → get_or (set xs i v) i d ≡ v
  get_or-set_self [] i v d h = elim h [ ]
  get_or-set_self (x ∷ xs) zero v d h = refl
  get_or-set_self (x ∷ xs) (suc i) v d h = get_or-set_self xs i v d (omega arith)

  pub get_or-set_ne :
      (xs : List A) (i j : ℕ) (v d : A) → i ≢ j → get_or (set xs i v) j d ≡ get_or xs j d
  get_or-set_ne [] i j v d h = refl
  get_or-set_ne (x ∷ xs) zero zero v d h = absurd (h refl)
  get_or-set_ne (x ∷ xs) zero (suc j) v d h = refl
  get_or-set_ne (x ∷ xs) (suc i) zero v d h = refl
  get_or-set_ne (x ∷ xs) (suc i) (suc j) v d h = get_or-set_ne xs i j v d (λ e. h (ap suc e))

  any-In_cons :
      (p : A → Bool) (x : A) (xs : List A)
      → (any p xs ≡ true → (y : A) × In y xs × (p y ≡ true))
      → (b : Bool) → p x ≡ b
      → (b || any p xs) ≡ true
      → (y : A) × In y (x ∷ xs) × (p y ≡ true)
  any-In_cons p x xs rest true e k = (x, here refl, e)
  any-In_cons p x xs rest false e k = let (y, m, py) = rest k in (y, there m, py)

  pub any-In : (p : A → Bool) (xs : List A) → any p xs ≡ true → (x : A) × In x xs × (p x ≡ true)
  any-In p [] h = cc
  any-In p (x ∷ xs) h = any-In_cons p x xs (any-In p xs) (p x) refl h

  pub In-any : (p : A → Bool) (x : A) (xs : List A) → In x xs → p x ≡ true → any p xs ≡ true
  In-any p x [] m h = elim m [ ]
  In-any p x (y ∷ ys) (here e) h = rw (← e, h)
  In-any p x (y ∷ ys) (there m) h = ground (arith, In-any p x ys m h)

module _ {ℓ} {A : Type ℓ} where
  pub In-append_right : {a : A} (xs ys : List A) → In a ys → In a (xs ++ ys)
  In-append_right [] ys m = m
  In-append_right (x ∷ xs) ys m = there (In-append_right xs ys m)

  pub In-map {κ} : {B : Type κ} (f : A → B) {a : A} {xs : List A} → In a xs → In (f a) (map f xs)
  In-map f (here e) = here (ap f e)
  In-map f (there m) = there (In-map f m)

  pub map-In {κ} :
      {B : Type κ} (f : A → B) {b : B} (xs : List A)
      → In b (map f xs)
      → (a : A) × In a xs × (b ≡ f a)
  map-In f [] m = elim m [ ]
  map-In f (x ∷ xs) (here e) = (x, here refl, e)
  map-In f (x ∷ xs) (there m) = let (a, i, e) = map-In f xs m in (a, there i, e)
