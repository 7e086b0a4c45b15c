-- ===== src/Base/Int.antt =====
-- Go's `int`, as an integer: a port of a configuration may be negative.
use Prim.Native.Nat.{ℕ, suc}
use Prim.Native.String.{String, ◌++◌ as ◌<>◌}
use mathlib.Core.Path.{◌≡◌, refl}
use mathlib.Core.Bool.{Bool, true, false, ◌||◌}
use vmkit_agent.Base.Tests.{ltb, ◌==◌}
use vmkit_agent.Base.Text.{itoa}

-- `negsuc n` is -(n + 1).
pub data ℤ : Type 0 where
  pos : ℕ → ℤ
  negsuc : ℕ → ℤ

-- `n < k`, for the bounds that the program compares with
abbrev pub lt_pos : ℤ → ℕ → Bool
lt_pos (pos n) k = ltb n k
lt_pos (negsuc n) k = true

abbrev pub gt_pos : ℤ → ℕ → Bool
gt_pos (pos n) k = ltb k n
gt_pos (negsuc n) k = false

abbrev pub int_eq : ℤ → ℤ → Bool
int_eq (pos m) (pos n) = m == n
int_eq (negsuc m) (negsuc n) = m == n
int_eq (pos m) (negsuc n) = false
int_eq (negsuc m) (pos n) = false

-- `%d` and `strconv.Itoa`
unfoldable pub show_int : ℤ → String
unfolding itoa
show_int (pos n) = itoa n
show_int (negsuc n) = "-" <> itoa (suc n)

-- `port < 1 || port > 65535`
abbrev pub out_of_range : ℤ → Bool
out_of_range p = lt_pos p 1 || gt_pos p 65535

show_negative : show_int (negsuc 0) ≡ "-1"
unfolding show_int
show_negative = refl
