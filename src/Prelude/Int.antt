-- ===== src/Prelude/Int.antt =====
-- Signed integers over the native numbers, under the library's names: Go's `int` where it can be
-- negative, as a setting that a constructor replaces when it is not positive.
use Prim.Native.Nat.{ℕ, zero, suc, ◌+◌, ◌<◌}
use mathlib.Core.Bool.{Bool}
use native.Mathlib.Omega.{arith}
use uiauto_framework.Prelude.Tests.{leb}

-- `negsuc n` is -(n + 1).
pub data ℤ : Type 0 where
  pos : ℕ → ℤ
  negsuc : ℕ → ℤ

abbrev pub pos_part : ℤ → ℕ
pos_part (pos n) = n
pos_part (negsuc n) = 0

abbrev pub neg_part : ℤ → ℕ
neg_part (pos n) = 0
neg_part (negsuc n) = suc n

abbrev pub leb_ℤ : ℤ → ℤ → Bool
leb_ℤ a b = leb (pos_part a + neg_part b) (pos_part b + neg_part a)

-- `if x <= 0 { x = d }`, for a positive default.
abbrev pub positive_or : ℕ → ℤ → ℕ
positive_or d (pos zero) = d
positive_or d (pos (suc n)) = suc n
positive_or d (negsuc n) = d

pub positive_or_pos : (d : ℕ) (z : ℤ) → 0 < d → 0 < positive_or d z
positive_or_pos d (pos zero) h = h
positive_or_pos d (pos (suc n)) h = omega arith
positive_or_pos d (negsuc n) h = h
