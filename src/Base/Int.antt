-- ===== src/Base/Int.antt =====
-- Go's signed `int` and `int64`, under the library's names (its ℤ stands on the unary ℕ). The
-- program only adds one to such values and compares them.
use Prim.Native.Nat.{ℕ, zero, suc, ◌+◌, ◌≤◌}
use mathlib.Core.Bool.{Bool, true, false, ◌&&◌}
use agent_dispatch.Base.Tests.{leb}

-- `negsuc n` is -(n + 1).
pub data ℤ : Type 0 where
  pos : ℕ → ℤ
  negsuc : ℕ → ℤ

abbrev pub pos_part : ℤ → ℕ
pos_part (pos n) = n
pos_part (negsuc n) = 0

abbrev pub neg_part : ℤ → ℕ
neg_part (pos n) = 0
neg_part (negsuc n) = suc n

infix 50 ◌≤ℤ◌ ◌<ℤ◌
abbrev pub ◌≤ℤ◌ : ℤ → ℤ → Type 0
a ≤ℤ b = pos_part a + neg_part b ≤ pos_part b + neg_part a

abbrev pub ◌<ℤ◌ : ℤ → ℤ → Type 0
a <ℤ b = suc (pos_part a + neg_part b) ≤ pos_part b + neg_part a

-- `a <= b`
abbrev pub leb_ℤ : ℤ → ℤ → Bool
leb_ℤ a b = leb (pos_part a + neg_part b) (pos_part b + neg_part a)

-- `a == 0`
abbrev pub is_zero : ℤ → Bool
is_zero a = leb_ℤ a (pos 0) && leb_ℤ (pos 0) a

-- `a + 1`
abbrev pub succ_ℤ : ℤ → ℤ
succ_ℤ (pos n) = pos (suc n)
succ_ℤ (negsuc zero) = pos 0
succ_ℤ (negsuc (suc n)) = negsuc n

-- SQL's `MAX(a, b)`
abbrev pub max_ℤ : ℤ → ℤ → ℤ
max_ℤ a b = elim (leb_ℤ a b) [ true ↦ b | false ↦ a ]
