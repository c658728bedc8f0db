-- ===== src/Base/Words.antt =====
-- Machine words: the moduli of `u32` and `u64`, and Rust's saturating operations.
use Prim.Native.Nat.{ℕ, ◌+◌, ◌%◌, min}

abbrev pub u32_mod : ℕ
u32_mod = 4294967296

abbrev pub u64_mod : ℕ
u64_mod = 18446744073709551616

-- `u64::wrapping_add`; also `+` in a build without overflow checks.
abbrev pub add64 : ℕ → ℕ → ℕ
add64 a b = (a + b) % u64_mod

-- `u64::saturating_add`.
abbrev pub sat_add64 : ℕ → ℕ → ℕ
sat_add64 a b = min (a + b) 18446744073709551615

-- `u32::saturating_add`.
abbrev pub sat_add32 : ℕ → ℕ → ℕ
sat_add32 a b = min (a + b) 4294967295
