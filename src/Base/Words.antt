-- ===== src/Base/Words.antt =====
-- `mofs_uint32_t`, `unsigned int` and `mofs_size_t`: 32 bits, with wrap-around.
use Prim.Native.Nat.{ℕ, ◌+◌, ◌-◌, ◌*◌, ◌%◌, ◌^◌, ◌<◌}
use native.Mathlib.Omega.{arith}

abbrev pub u32_mod : ℕ
u32_mod = 2 ^ 32

abbrev pub u64_mod : ℕ
u64_mod = 2 ^ 64

abbrev pub u32 : ℕ → ℕ
u32 a = a % u32_mod

abbrev pub add32 : ℕ → ℕ → ℕ
add32 a b = (a + b) % u32_mod

abbrev pub sub32 : ℕ → ℕ → ℕ
sub32 a b = (a + u32_mod - b) % u32_mod

abbrev pub mul32 : ℕ → ℕ → ℕ
mul32 a b = a * b % u32_mod

pub add32-lt : (a b : ℕ) → add32 a b < u32_mod
add32-lt a b = omega arith
