-- ===== src/Base/Ordering.antt =====
-- Strict orders: the bytewise `<` of Go's strings and of SQL's binary collation, lexicographic pairs,
-- and a key that may be missing.
use mathlib.Core.Path.{◌≡◌, refl, ap₂, ap, subst, sym}
use mathlib.Core.Logic.{inl, inr}
use mathlib.Core.Bool.{Bool, true, false, ◌&&◌, ◌||◌, not}
use mathlib.Core.List.{[], ◌∷◌}
use mathlib.Core.Option.{Option, none, some}
use native.Mathlib.Omega.{arith}
use agent_dispatch.Base.Tests.{ltb, ◌==◌, Bool-cases}
use agent_dispatch.Base.Text.{Str}

pub record Order {ℓ} (A : Type ℓ) : Type ℓ where
  pub lt : A → A → Bool
  pub lt_irrefl : (a : A) → lt a a ≡ false
  pub lt_trans : (a b c : A) → lt a b ≡ true → lt b c ≡ true → lt a c ≡ true
  pub lt_connected : (a b : A) → lt a b ≡ false → lt b a ≡ false → a ≡ b

-- what is not before, composed
module _ {ℓ} {A : Type ℓ} (o : Order A) where
  pub le_trans : (a b c : A) → o.lt b a ≡ false → o.lt c b ≡ false → o.lt c a ≡ false
  le_trans a b c h k = elim (Bool-cases (o.lt c a)) [
    | inr f ↦ f
    | inl t ↦ elim (Bool-cases (o.lt a b)) [
      | inl u ↦ ground (arith, k, o.lt_trans c a b t u)
      | inr u ↦ subst (λ x. o.lt c x ≡ false) (sym (o.lt_connected a b u h)) k
    ]
  ]

  pub lt_asym : (a b : A) → o.lt a b ≡ true → o.lt b a ≡ false
  lt_asym a b h = elim (Bool-cases (o.lt b a)) [
    | inr f ↦ f
    | inl t ↦ ground (arith, o.lt_irrefl a, o.lt_trans a b a h t)
  ]

unfoldable pub str_lt : Str → Str → Bool
str_lt _ [] = false
str_lt [] (b ∷ t) = true
str_lt (a ∷ s) (b ∷ t) = ltb a b || (a == b && str_lt s t)

pub str_lt_irrefl : (s : Str) → str_lt s s ≡ false
unfolding str_lt
str_lt_irrefl [] = refl
str_lt_irrefl (a ∷ s) = ground (arith, str_lt_irrefl s)

pub str_lt_trans : (s t u : Str) → str_lt s t ≡ true → str_lt t u ≡ true → str_lt s u ≡ true
unfolding str_lt
str_lt_trans s [] u h k = cc
str_lt_trans s (b ∷ t) [] h k = cc
str_lt_trans [] (b ∷ t) (c ∷ u) h k = refl
str_lt_trans (a ∷ s) (b ∷ t) (c ∷ u) h k = ground (arith, str_lt_trans s t u)

pub str_lt_connected : (s t : Str) → str_lt s t ≡ false → str_lt t s ≡ false → s ≡ t
unfolding str_lt
str_lt_connected [] [] h k = refl
str_lt_connected [] (b ∷ t) h k = cc
str_lt_connected (a ∷ s) [] h k = cc
str_lt_connected (a ∷ s) (b ∷ t) h k =
    ap₂ ◌∷◌ (ground arith) (str_lt_connected s t (ground arith) (ground arith))

abbrev pub str_order : Order Str
str_order = record {
  lt = str_lt;
  lt_irrefl = str_lt_irrefl;
  lt_trans = str_lt_trans;
  lt_connected = str_lt_connected;
}

module _ {ℓ κ} {A : Type ℓ} {B : Type κ} (o : Order A) (p : Order B) where
  -- the first parts decide, unless they are level
  abbrev pub pair_lt : A × B → A × B → Bool
  pair_lt x y = o.lt x.0 y.0 || (not (o.lt y.0 x.0) && p.lt x.1 y.1)

  pub pair_lt_irrefl : (x : A × B) → pair_lt x x ≡ false
  pair_lt_irrefl x = ground (arith, o.lt_irrefl x.0, p.lt_irrefl x.1)

  pub pair_lt_trans : (x y z : A × B) → pair_lt x y ≡ true → pair_lt y z ≡ true → pair_lt x z ≡ true
  pair_lt_trans x y z h k = ground (
    arith,
    o.lt_trans x.0 y.0 z.0,
    p.lt_trans x.1 y.1 z.1,
    le_trans o x.0 y.0 z.0,
    le_trans o z.0 y.0 x.0,
    le_trans o y.0 z.0 x.0,
    le_trans o y.0 x.0 z.0,
    le_trans o z.0 x.0 y.0,
    le_trans o x.0 z.0 y.0,
  )

  pub pair_lt_connected : (x y : A × B) → pair_lt x y ≡ false → pair_lt y x ≡ false → x ≡ y
  pair_lt_connected (a, b) (c, d) h k =
      ap₂ (λ x y. (x, y)) (o.lt_connected a c (ground arith) (ground arith))
        (p.lt_connected b d (ground arith) (ground arith))

  abbrev pub pair_order : Order (A × B)
  pair_order = record {
    lt = pair_lt;
    lt_irrefl = pair_lt_irrefl;
    lt_trans = pair_lt_trans;
    lt_connected = pair_lt_connected;
  }

module _ {ℓ} {A : Type ℓ} (o : Order A) where
  -- a missing key comes last
  abbrev pub opt_lt : Option A → Option A → Bool
  opt_lt none y = false
  opt_lt (some a) none = true
  opt_lt (some a) (some b) = o.lt a b

  pub opt_lt_irrefl : (x : Option A) → opt_lt x x ≡ false
  opt_lt_irrefl none = refl
  opt_lt_irrefl (some a) = o.lt_irrefl a

  pub opt_lt_trans : (x y z : Option A) → opt_lt x y ≡ true → opt_lt y z ≡ true → opt_lt x z ≡ true
  opt_lt_trans none y z h k = cc
  opt_lt_trans (some a) none z h k = cc
  opt_lt_trans (some a) (some b) none h k = refl
  opt_lt_trans (some a) (some b) (some c) h k = o.lt_trans a b c h k

  pub opt_lt_connected : (x y : Option A) → opt_lt x y ≡ false → opt_lt y x ≡ false → x ≡ y
  opt_lt_connected none none h k = refl
  opt_lt_connected none (some b) h k = cc
  opt_lt_connected (some a) none h k = cc
  opt_lt_connected (some a) (some b) h k = ap some (o.lt_connected a b h k)

  abbrev pub opt_order : Order (Option A)
  opt_order = record {
    lt = opt_lt;
    lt_irrefl = opt_lt_irrefl;
    lt_trans = opt_lt_trans;
    lt_connected = opt_lt_connected;
  }
