-- ===== src/Prelude/Words.antt =====
-- 64-bit unsigned arithmetic, its wrap-around written out.
use Prim.Native.Nat.{ℕ, suc, ◌+◌, ◌-◌, ◌%◌, ◌^◌, ◌<◌, ◌≤◌}
use mathlib.Core.Path.{◌≡◌}
use native.Mathlib.Omega.{arith}

abbrev pub u64_mod : ℕ
u64_mod = 2 ^ 64

-- std::numeric_limits<std::uint64_t>::max(), also that of std::size_t
abbrev pub u64_max : ℕ
u64_max = 2 ^ 64 - 1

unfoldable pub inc64 : ℕ → ℕ
inc64 a = (a + 1) % u64_mod

unfoldable pub add64 : ℕ → ℕ → ℕ
add64 a b = (a + b) % u64_mod

unfoldable pub sub64 : ℕ → ℕ → ℕ
sub64 a b = (a + u64_mod - b) % u64_mod

pub inc64-eq : (a : ℕ) → a < u64_max → inc64 a ≡ a + 1
unfolding inc64
inc64-eq a h = omega arith

pub inc64-le : (a : ℕ) → inc64 a ≤ a + 1
unfolding inc64
inc64-le a = omega arith

pub sub64-eq : (a b : ℕ) → a < u64_mod → b < suc a → sub64 a b ≡ a - b
unfolding sub64
sub64-eq a b h k = omega arith
