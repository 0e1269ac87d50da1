-- ===== src/Ax25/Crc/Residue.antt =====
-- The check value that a frame leaves when its own CRC follows it, low byte first.
use packet_radio_rs.Base.{
  ℕ, zero, suc, ◌+◌, ◌*◌, ◌/◌, ◌%◌, ◌^◌, ◌<◌, ◌≡◌, refl, sym, ap, ap₂, ◌∙◌, arith, List, [], ◌∷◌,
  ◌++◌, bit_xor, bit_xor-zero, bit_xor-lt, zero-bit_xor,
}
use packet_radio_rs.Ax25.Crc.{crc_bit, crc_bits, crc_bytes, crc16_ccitt}
use packet_radio_rs.Ax25.Crc.Linear.{
  crc_bit_lem, crc_bits-xor, crc_bits_self, crc_bytes-lt, crc_bytes-append,
}

-- The same `n` low bits.
abbrev Agree : ℕ → ℕ → ℕ → Type 0
Agree zero a b = Unit
Agree (suc n) a b = (a % 2 ≡ b % 2) × Agree n (a / 2) (b / 2)

crc_bit-parity : (c a b : ℕ) → a % 2 ≡ b % 2 → crc_bit c a ≡ crc_bit c b
crc_bit-parity c a b h =
    let same : (c + a) % 2 ≡ (c + b) % 2 = omega arith in
    crc_bit_lem c a ∙ rw same (sym (crc_bit_lem c b))

crc_bits-Agree : (n c a b : ℕ) → Agree n a b → crc_bits n c a ≡ crc_bits n c b
unfolding crc_bits
crc_bits-Agree zero c a b h = refl
crc_bits-Agree (suc n) c a b h =
    crc_bits-Agree n (crc_bit c a) (a / 2) (b / 2) h.1
    ∙ ap (λ t. crc_bits n t (b / 2)) (crc_bit-parity c a b h.0)

crc_bits-halves : (c w : ℕ) → crc_bits 16 c w ≡ crc_bits 8 (crc_bits 8 c w) (w / 256)
unfolding crc_bits
crc_bits-halves c w =
    let shifted : w / 2 / 2 / 2 / 2 / 2 / 2 / 2 / 2 ≡ w / 256 = omega arith in rw shifted refl

-- Two bytes are read as one word, low byte first.
pub crc_bytes_word :
    (c lo hi : ℕ) → lo < 256 → crc_bytes c (lo ∷ hi ∷ []) ≡ crc_bits 16 c (lo + 256 * hi)
unfolding crc_bytes
crc_bytes_word c lo hi h =
    let w = lo + 256 * hi in
    let low : crc_bits 8 c w ≡ crc_bits 8 c lo = crc_bits-Agree 8 c w lo (omega arith) in
    let high : w / 256 ≡ hi = omega arith in sym (crc_bits-halves c w ∙ rw (low, high) refl)

-- The two bytes that `hdlc_encode` appends.
abbrev pub crc_lo : ℕ → ℕ
crc_lo crc = crc % 256

abbrev pub crc_hi : ℕ → ℕ
crc_hi crc = crc / 2 ^ 8 % 256

residue_word : (r : ℕ) → r < 2 ^ 16 → crc_bits 16 r (bit_xor r 0xFFFF) ≡ 0xF0B8
residue_word r h =
    ap (λ t. crc_bits 16 t (bit_xor r 0xFFFF)) (sym (bit_xor-zero r))
    ∙ crc_bits-xor 16 r r 0 0xFFFF
    ∙ ap₂ bit_xor (crc_bits_self 16 r h) ones
    ∙ zero-bit_xor 0xF0B8
  where
    ones : crc_bits 16 0 0xFFFF ≡ 0xF0B8
    ones = unfold crc_bits crc_bit in refl

pub split_word : (w : ℕ) → w < 2 ^ 16 → crc_lo w + 256 * crc_hi w ≡ w
split_word w h = omega arith

pub crc16_ccitt-lt : (bytes : List ℕ) → crc16_ccitt bytes < 2 ^ 16
unfolding crc16_ccitt
crc16_ccitt-lt bytes =
    bit_xor-lt 16 (crc_bytes 0xFFFF bytes) 0xFFFF (crc_bytes-lt bytes 0xFFFF (omega arith))
      (omega arith)

-- The CRC over any bytes and their own CRC, low byte first, is 0x0F47.
pub crc16_ccitt_residue :
    (bytes : List ℕ)
    → let crc = crc16_ccitt bytes in crc16_ccitt (bytes ++ crc_lo crc ∷ crc_hi crc ∷ []) ≡ 0x0F47
crc16_ccitt_residue bytes =
    let r = crc_bytes 0xFFFF bytes in
    let w = crc16_ccitt bytes in
    let small = crc_bytes-lt bytes 0xFFFF (omega arith) in
    unfold crc16_ccitt in
    ap (λ t. bit_xor t 0xFFFF)
      (crc_bytes-append bytes (crc_lo w ∷ crc_hi w ∷ []) 0xFFFF
        ∙ crc_bytes_word r (crc_lo w) (crc_hi w) (omega arith)
        ∙ ap (crc_bits 16 r) (split_word w (crc16_ccitt-lt bytes))
        ∙ residue_word r small)
