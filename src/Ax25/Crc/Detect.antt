-- ===== src/Ax25/Crc/Detect.antt =====
-- What the check value rules out: a wrong CRC behind a frame, and an error within two bytes.
use packet_radio_rs.Base.{
  ℕ, ◌+◌, ◌*◌, ◌^◌, ◌<◌, ◌≡◌, ◌≢◌, sym, ap, ◌∙◌, arith, List, [], ◌∷◌, ◌++◌, bit_xor, bit_xor-lt,
  bit_xor_cancel, bit_xor_comm,
}
use packet_radio_rs.Ax25.Crc.{crc_bits, crc_bytes, crc16_ccitt}
use packet_radio_rs.Ax25.Crc.Linear.{
  crc_bits-merge, crc_bits-lt, crc_bytes-lt, crc_bytes-append, crc_bits_injective,
}
use packet_radio_rs.Ax25.Crc.Residue.{
  crc_bytes_word, crc_lo, crc_hi, crc16_ccitt_residue, crc16_ccitt-lt, split_word,
}

crc_bytes_injective :
    (xs : List ℕ) (c d : ℕ) → c < 2 ^ 16 → d < 2 ^ 16 → crc_bytes c xs ≡ crc_bytes d xs → c ≡ d
unfolding crc_bytes
crc_bytes_injective [] c d p q e = e
crc_bytes_injective (x ∷ xs) c d p q e = crc_bits_injective 8 c d x p q (
    crc_bytes_injective xs (crc_bits 8 c x) (crc_bits 8 d x) (crc_bits-lt 8 c x p)
      (crc_bits-lt 8 d x q) e)

bit_xor_injective : (a b c : ℕ) → bit_xor a b ≡ bit_xor a c → b ≡ c
bit_xor_injective a b c e = sym (bit_xor_cancel a b) ∙ ap (bit_xor a) e ∙ bit_xor_cancel a c

-- From one register, different words leave different registers.
word_injective :
    (r v w : ℕ) → r < 2 ^ 16 → v < 2 ^ 16 → w < 2 ^ 16 → crc_bits 16 r v ≡ crc_bits 16 r w → v ≡ w
word_injective r v w p q s e = bit_xor_injective r v w (
    crc_bits_injective 16 (bit_xor r v) (bit_xor r w) 0 (bit_xor-lt 16 r v p q)
      (bit_xor-lt 16 r w p s) (sym (crc_bits-merge 16 r v q) ∙ e ∙ crc_bits-merge 16 r w s))

crc16_ccitt-crc_bytes :
    (xs ys : List ℕ) → crc16_ccitt xs ≡ crc16_ccitt ys → crc_bytes 0xFFFF xs ≡ crc_bytes 0xFFFF ys
unfolding crc16_ccitt
crc16_ccitt-crc_bytes xs ys e =
    bit_xor_injective 0xFFFF (crc_bytes 0xFFFF xs) (crc_bytes 0xFFFF ys)
      (bit_xor_comm 0xFFFF _ ∙ e ∙ bit_xor_comm _ 0xFFFF)

-- Two byte strings of one length that differ only within two neighbouring bytes have different
-- CRCs: every burst of at most 16 bits that keeps to two bytes is detected.
pub crc16_ccitt_burst :
    (xs ys : List ℕ) (a b c d : ℕ)
    → a < 256
    → b < 256
    → c < 256
    → d < 256
    → a + 256 * b ≢ c + 256 * d
    → crc16_ccitt (xs ++ a ∷ b ∷ ys) ≢ crc16_ccitt (xs ++ c ∷ d ∷ ys)
crc16_ccitt_burst xs ys a b c d ha hb hc hd ne e =
    let r = crc_bytes 0xFFFF xs in
    let small = crc_bytes-lt xs 0xFFFF (omega arith) in
    let v = a + 256 * b in
    let w = c + 256 * d in
    let one = through r a b ys ha in
    let two = through r c d ys hc in
    let same = crc16_ccitt-crc_bytes (xs ++ a ∷ b ∷ ys) (xs ++ c ∷ d ∷ ys) e in
    ne (
      word_injective r v w small (omega arith) (omega arith) (
        crc_bytes_injective ys (crc_bits 16 r v) (crc_bits 16 r w) (crc_bits-lt 16 r v small)
          (crc_bits-lt 16 r w small)
          (sym one
            ∙ sym (crc_bytes-append xs (a ∷ b ∷ ys) 0xFFFF)
            ∙ same
            ∙ crc_bytes-append xs (c ∷ d ∷ ys) 0xFFFF
            ∙ two)))
  where
    through :
        (r p q : ℕ) (rest : List ℕ)
        → p < 256
        → crc_bytes r (p ∷ q ∷ rest) ≡ crc_bytes (crc_bits 16 r (p + 256 * q)) rest
    through r p q rest h =
        crc_bytes-append (p ∷ q ∷ []) rest r ∙ ap (λ t. crc_bytes t rest) (crc_bytes_word r p q h)

-- The check value is left by no other trailer: if it is, then the two bytes behind the data are
-- the CRC of the data, low byte first.
pub crc16_ccitt_trailer :
    (bytes : List ℕ) (lo hi : ℕ)
    → lo < 256
    → hi < 256
    → crc16_ccitt (bytes ++ lo ∷ hi ∷ []) ≡ 0x0F47
    → lo + 256 * hi ≡ crc16_ccitt bytes
crc16_ccitt_trailer bytes lo hi p q e =
    let r = crc_bytes 0xFFFF bytes in
    let small = crc_bytes-lt bytes 0xFFFF (omega arith) in
    let w = crc16_ccitt bytes in
    let fits = crc16_ccitt-lt bytes in
    let same =
      crc16_ccitt-crc_bytes (bytes ++ lo ∷ hi ∷ []) (bytes ++ crc_lo w ∷ crc_hi w ∷ [])
        (e ∙ sym (crc16_ccitt_residue bytes)) in
    word_injective r (lo + 256 * hi) w small (omega arith) fits (
      sym (crc_bytes_word r lo hi p)
      ∙ sym (crc_bytes-append bytes (lo ∷ hi ∷ []) 0xFFFF)
      ∙ same
      ∙ crc_bytes-append bytes (crc_lo w ∷ crc_hi w ∷ []) 0xFFFF
      ∙ crc_bytes_word r (crc_lo w) (crc_hi w) (omega arith)
      ∙ ap (crc_bits 16 r) (split_word w fits))
