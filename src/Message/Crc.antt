-- ===== src/Message/Crc.antt =====
-- calculateCRC32 of common/Message.cpp, bit by bit. A uint32_t is a number below 2 ^ 32.
use Prim.Native.Nat.{bit_and, bit_xor}
use protokol_javni_prevoz.Prelude.{ℕ, zero, suc, ◌-◌, ◌/◌, ◌%◌, ◌^◌, ◌<◌, ◌≡◌, refl, [], ◌∷◌, arith}
use protokol_javni_prevoz.Codec.{Bytes}
use protokol_javni_prevoz.Text.{str}

-- crc = (crc >> 1) ^ (0xEDB88320 & -(crc & 1)).
unfoldable pub crc_shift : ℕ → ℕ
crc_shift crc = bit_xor (crc / 2) (bit_and 0xEDB88320 ((2 ^ 32 - crc % 2) % 2 ^ 32))

unfoldable pub crc_rounds : ℕ → ℕ → ℕ
crc_rounds zero crc = crc
crc_rounds (suc n) crc = crc_rounds n (crc_shift crc)

unfoldable pub crc_loop : ℕ → Bytes → ℕ
unfolding crc_rounds crc_shift
crc_loop crc [] = crc
crc_loop crc (byte ∷ bytes) = crc_loop (crc_rounds 8 (bit_xor crc byte)) bytes

-- The complement of a uint32_t.
unfoldable pub crc32 : Bytes → ℕ
unfolding crc_loop
crc32 bytes = 2 ^ 32 - 1 - crc_loop 0xFFFFFFFF bytes

-- The published check value of this CRC.
crc32_check : crc32 (str "123456789") ≡ 0xCBF43926
unfolding crc32 str
crc32_check = refl

pub crc32-lt : (bytes : Bytes) → crc32 bytes < 2 ^ 32
unfolding crc32
crc32-lt bytes = omega arith
