-- ===== src/Prelude/Int64.antt =====
-- Go's int64 as its bit pattern, a number below 2 ^ 64: sums wrap, and comparisons are signed.
use airgap_mirror.Prelude.Tests.{ltb, leb}
use Prim.Native.Nat.{ℕ, ◌+◌, ◌-◌, ◌%◌, ◌^◌, ◌≤◌, ◌<◌}
use mathlib.Core.Path.{◌≡◌}
use mathlib.Core.Bool.{Bool}
use native.Mathlib.Omega.{arith}

abbrev pub two63 : ℕ
two63 = 2 ^ 63

abbrev pub two64 : ℕ
two64 = 2 ^ 64

unfoldable pub add64 : ℕ → ℕ → ℕ
add64 a b = (a + b) % two64

unfoldable pub sub64 : ℕ → ℕ → ℕ
sub64 a b = (a + two64 - b) % two64

unfoldable pub lt64 : ℕ → ℕ → Bool
lt64 a b = ltb ((a + two63) % two64) ((b + two63) % two64)

unfoldable pub le64 : ℕ → ℕ → Bool
le64 a b = leb ((a + two63) % two64) ((b + two63) % two64)

-- A value that is not negative.
abbrev pub NonNeg : ℕ → Type 0
NonNeg a = a < two63

pub add64_exact : (a b : ℕ) → a + b < two64 → add64 a b ≡ a + b
unfolding add64
add64_exact a b h = omega arith

pub sub64_exact : (a b : ℕ) → b ≤ a → a < two64 → sub64 a b ≡ a - b
unfolding sub64
sub64_exact a b h k = omega arith

pub lt64_exact : (a b : ℕ) → NonNeg a → NonNeg b → lt64 a b ≡ ltb a b
unfolding lt64
lt64_exact a b h k = ground arith

pub le64_exact : (a b : ℕ) → NonNeg a → NonNeg b → le64 a b ≡ leb a b
unfolding le64
le64_exact a b h k = ground arith

-- A pattern is negative exactly when its top bit is set.
pub lt64-zero : (a : ℕ) → a < two64 → lt64 a 0 ≡ leb two63 a
unfolding lt64
lt64-zero a h = ground arith
