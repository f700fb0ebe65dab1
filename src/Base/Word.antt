-- ===== src/Base/Word.antt =====
-- Machine words. `u64` arithmetic wraps, as in a build without overflow checks.
use Prim.Native.Nat.{ℕ, ◌+◌, ◌-◌, ◌≤◌, ◌<◌, ◌%◌, ◌^◌}
use mathlib.Core.Path.{◌≡◌}
use native.Mathlib.Omega.{arith}

abbrev pub IsByte : ℕ → Type 0
IsByte b = b < 256

abbrev pub IsU64 : ℕ → Type 0
IsU64 v = v < 2 ^ 64

unfoldable pub add64 : ℕ → ℕ → ℕ
add64 a b = (a + b) % 2 ^ 64

unfoldable pub sub64 : ℕ → ℕ → ℕ
sub64 a b = (a + 2 ^ 64 - b) % 2 ^ 64

pub add64-eq : (a b : ℕ) → a + b < 2 ^ 64 → add64 a b ≡ a + b
unfolding add64
add64-eq a b h = omega arith

pub sub64-eq : (a b : ℕ) → b ≤ a → a < 2 ^ 64 → sub64 a b ≡ a - b
unfolding sub64
sub64-eq a b h k = omega arith

pub sub64_self : (a : ℕ) → sub64 a a ≡ 0
unfolding sub64
sub64_self a = omega arith

pub sub64-zero : (a b : ℕ) → a < 2 ^ 64 → b < 2 ^ 64 → sub64 a b ≡ 0 → a ≡ b
unfolding sub64
sub64-zero a b h k e = omega arith
