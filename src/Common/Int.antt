-- ===== src/Common/Int.antt =====
-- Integers over the native numbers, for evaluations in centipawns. `negsuc n` stands for -(n + 1).
use Prim.Native.Nat.{ℕ, ◌+◌, ◌-◌, ◌≤◌}
use mathlib.Core.Bool.{Bool, ◌&&◌}
use chess_blunder_trainer.Common.Tests.{leb, ltb, nat_beq, if◌then◌else◌}

pub data ℤ : Type 0 where
  pos negsuc : ℕ → ℤ

-- the size of an integer above zero, and below it
abbrev pub above : ℤ → ℕ
above (pos n) = n
above (negsuc n) = 0

abbrev pub below : ℤ → ℕ
below (pos n) = 0
below (negsuc n) = n + 1

abbrev pub difference : ℕ → ℕ → ℤ
difference a b = if ltb a b then negsuc (b - a - 1) else pos (a - b)

infixl 65 ◌-ℤ◌ ◌+ℤ◌
unfoldable pub ◌-ℤ◌ : ℤ → ℤ → ℤ
x -ℤ y = difference (above x + below y) (below x + above y)

unfoldable pub ◌+ℤ◌ : ℤ → ℤ → ℤ
x +ℤ y = difference (above x + above y) (below x + below y)

abbrev pub neg : ℤ → ℤ
neg x = difference (below x) (above x)

abbrev pub leb_ℤ : ℤ → ℤ → Bool
leb_ℤ x y = leb (above x + below y) (above y + below x)

abbrev pub ltb_ℤ : ℤ → ℤ → Bool
ltb_ℤ x y = ltb (above x + below y) (above y + below x)

abbrev pub eqb_ℤ : ℤ → ℤ → Bool
eqb_ℤ x y = nat_beq (above x) (above y) && nat_beq (below x) (below y)

infix 50 ◌≤ℤ◌
abbrev pub ◌≤ℤ◌ : ℤ → ℤ → Type 0
x ≤ℤ y = above x + below y ≤ above y + below x

abbrev pub max_ℤ : ℤ → ℤ → ℤ
max_ℤ x y = if ltb_ℤ x y then y else x

abbrev pub min_ℤ : ℤ → ℤ → ℤ
min_ℤ x y = if ltb_ℤ y x then y else x
