-- ===== src/Ax25/Crc.antt =====
-- `crc16_ccitt` of core/src/ax25/mod.rs, bit by bit.
pub mod Linear
pub mod Residue
pub mod Detect
mod Tests
use packet_radio_rs.Base.{ℕ, zero, suc, ◌/◌, List, [], ◌∷◌, bit_and, bit_xor, ◌==◌, if◌then◌else◌}

-- The reflected polynomial.
abbrev pub poly : ℕ
poly = 0x8408

-- One round of the inner loop: the flag, the shift of the register and the conditional xor.
unfoldable pub crc_bit : ℕ → ℕ → ℕ
crc_bit crc b = if bit_and (bit_xor crc b) 0x0001 == 0 then crc / 2 else bit_xor (crc / 2) poly

-- The inner loop with `n` rounds left; `b` is shifted after each.
unfoldable pub crc_bits : ℕ → ℕ → ℕ → ℕ
crc_bits zero crc b = crc
crc_bits (suc n) crc b = crc_bits n (crc_bit crc b) (b / 2)

-- The outer loop.
unfoldable pub crc_bytes : ℕ → List ℕ → ℕ
crc_bytes crc [] = crc
crc_bytes crc (byte ∷ bytes) = crc_bytes (crc_bits 8 crc byte) bytes

unfoldable pub crc16_ccitt : List ℕ → ℕ
crc16_ccitt bytes = bit_xor (crc_bytes 0xFFFF bytes) 0xFFFF
