-- ===== src/Ax25/Crc/Tests.antt =====
-- The CRC on concrete bytes: tests, and the theorems at concrete inputs.
use packet_radio_rs.Base.{ℕ, ◌+◌, ◌*◌, ◌≡◌, ◌≢◌, refl, arith, List, [], ◌∷◌, ◌++◌}
use packet_radio_rs.Ax25.Crc.{crc16_ccitt, crc_bytes, crc_bits, crc_bit}
use packet_radio_rs.Ax25.Crc.Residue.{crc_lo, crc_hi, crc16_ccitt_residue}
use packet_radio_rs.Ax25.Crc.Detect.{crc16_ccitt_burst, crc16_ccitt_trailer}

-- The check value of CRC-16/X-25.
check_value :
    crc16_ccitt (0x31 ∷ 0x32 ∷ 0x33 ∷ 0x34 ∷ 0x35 ∷ 0x36 ∷ 0x37 ∷ 0x38 ∷ 0x39 ∷ []) ≡ 0x906E
unfolding crc16_ccitt crc_bytes crc_bits crc_bit
check_value = refl

abbrev hello : List ℕ
hello = 0x48 ∷ 0x65 ∷ 0x6C ∷ 0x6C ∷ 0x6F ∷ []

crc16_ccitt_residue_example :
    crc16_ccitt (hello ++ crc_lo (crc16_ccitt hello) ∷ crc_hi (crc16_ccitt hello) ∷ []) ≡ 0x0F47
crc16_ccitt_residue_example = crc16_ccitt_residue hello

crc16_ccitt_burst_example :
    crc16_ccitt (hello ++ 0x21 ∷ 0x21 ∷ hello) ≢ crc16_ccitt (hello ++ 0x20 ∷ 0x23 ∷ hello)
crc16_ccitt_burst_example =
    crc16_ccitt_burst hello hello 0x21 0x21 0x20 0x23 (omega arith) (omega arith) (omega arith)
      (omega arith) (omega arith)

abbrev digits : List ℕ
digits = 0x31 ∷ 0x32 ∷ 0x33 ∷ 0x34 ∷ 0x35 ∷ 0x36 ∷ 0x37 ∷ 0x38 ∷ 0x39 ∷ []

digits-residue : crc16_ccitt (digits ++ 0x6E ∷ 0x90 ∷ []) ≡ 0x0F47
unfolding crc16_ccitt crc_bytes crc_bits crc_bit
digits-residue = refl

crc16_ccitt_trailer_example : 0x6E + 256 * 0x90 ≡ crc16_ccitt digits
crc16_ccitt_trailer_example =
    crc16_ccitt_trailer digits 0x6E 0x90 (omega arith) (omega arith) digits-residue
