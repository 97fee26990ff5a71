-- ===== src/Base/Words.antt =====
-- The moduli of the machine integers.
use Prim.Native.Nat.{ℕ}

abbrev pub u32_mod : ℕ
u32_mod = 0x1_0000_0000

abbrev pub u64_mod : ℕ
u64_mod = 0x1_0000_0000_0000_0000

abbrev pub u128_mod : ℕ
u128_mod = 0x1_0000_0000_0000_0000_0000_0000_0000_0000

abbrev pub u256_mod : ℕ
u256_mod = 0x1_0000_0000_0000_0000_0000_0000_0000_0000_0000_0000_0000_0000_0000_0000_0000_0000
