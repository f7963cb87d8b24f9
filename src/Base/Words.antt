-- ===== src/Base/Words.antt =====
-- 64-bit unsigned arithmetic (uint64_t, size_t, ngx_uint_t, ngx_msec_t), its wrap written out,
-- and C's bit-field flags as booleans.
use Prim.Native.Nat.{ℕ, ◌+◌, ◌-◌, ◌%◌, ◌^◌}

abbrev pub u64_mod : ℕ
u64_mod = 2 ^ 64

abbrev pub add64 : ℕ → ℕ → ℕ
add64 a b = (a + b) % 2 ^ 64

-- `-` on ℕ stops at 0, so the modulus is added first.
abbrev pub sub64 : ℕ → ℕ → ℕ
sub64 a b = (a + 2 ^ 64 - b) % 2 ^ 64

abbrev pub inc64 : ℕ → ℕ
inc64 a = (a + 1) % 2 ^ 64
