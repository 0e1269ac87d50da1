-- ===== src/Ax25/Hdlc/Stuffing.antt =====
-- Bit stuffing as a function on bits: what `hdlc_encode` puts on the air, with no buffer.
use packet_radio_rs.Base.{
  ℕ, zero, suc, ◌+◌, ◌*◌, ◌/◌, ◌%◌, ◌^◌, ◌≤◌, ◌≡◌, refl, sym, ap, ◌∙◌, arith, List, [], ◌∷◌, ◌++◌,
  ◌==◌, if◌then◌else◌, length, length-append,
}
use mathlib.Core.List.{append_assoc}
use packet_radio_rs.Ax25.Crc.{crc16_ccitt}

-- The `n` lowest bits of a number, lowest first.
abbrev pub low_bits : ℕ → ℕ → List ℕ
low_bits zero byte = []
low_bits (suc n) byte = byte % 2 ∷ low_bits n (byte / 2)

abbrev pub bits_of : List ℕ → List ℕ
bits_of [] = []
bits_of (byte ∷ bytes) = low_bits 8 byte ++ bits_of bytes

-- The count of ones behind one more bit, where five ones are followed by a stuffed zero.
abbrev pub next_ones : ℕ → ℕ → ℕ
next_ones ones bit = if bit == 1 then (if ones + 1 == 5 then 0 else ones + 1) else 0

-- One bit, and the zero that is stuffed behind it if it is the fifth one.
abbrev pub stuffed : ℕ → ℕ → List ℕ
stuffed ones bit = if bit == 1 then (if ones + 1 == 5 then 1 ∷ 0 ∷ [] else 1 ∷ []) else bit ∷ []

unfoldable pub stuff : ℕ → List ℕ → List ℕ
stuff ones [] = []
stuff ones (bit ∷ bits) = stuffed ones bit ++ stuff (next_ones ones bit) bits

unfoldable pub ones_after : ℕ → List ℕ → ℕ
ones_after ones [] = ones
ones_after ones (bit ∷ bits) = ones_after (next_ones ones bit) bits

-- The flag 01111110.
abbrev pub flag_bits : List ℕ
flag_bits = 0 ∷ 1 ∷ 1 ∷ 1 ∷ 1 ∷ 1 ∷ 1 ∷ 0 ∷ []

abbrev pub with_crc : List ℕ → List ℕ
with_crc bytes =
    let crc = crc16_ccitt bytes in bytes ++ (crc % 2 ^ 8) ∷ ((crc / 2 ^ 8) % 2 ^ 8) ∷ []

-- Four flags, the stuffed bits of the data and its CRC, and a flag.
abbrev pub on_air : List ℕ → List ℕ
on_air bytes =
    flag_bits
    ++ (flag_bits
        ++ (flag_bits ++ (flag_bits ++ (stuff 0 (bits_of (with_crc bytes)) ++ flag_bits))))

pub stuff-append :
    (xs ys : List ℕ) (ones : ℕ)
    → stuff ones (xs ++ ys) ≡ stuff ones xs ++ stuff (ones_after ones xs) ys
unfolding stuff ones_after
stuff-append [] ys ones = refl
stuff-append (x ∷ xs) ys ones =
    ap (λ t. stuffed ones x ++ t) (stuff-append xs ys (next_ones ones x))
    ∙ sym (append_assoc (stuffed ones x) (stuff (next_ones ones x) xs) _)

pub ones_after-append :
    (xs ys : List ℕ) (ones : ℕ) → ones_after ones (xs ++ ys) ≡ ones_after (ones_after ones xs) ys
unfolding ones_after
ones_after-append [] ys ones = refl
ones_after-append (x ∷ xs) ys ones = ones_after-append xs ys (next_ones ones x)

pub length-bits_of : (bytes : List ℕ) → length (bits_of bytes) ≡ 8 * length bytes
length-bits_of [] = refl
length-bits_of (b ∷ bytes) = omega (arith, length-bits_of bytes)

-- At most one bit in six is stuffed.
pub length-stuff :
    (xs : List ℕ) (ones : ℕ)
    → 5 * length (stuff ones xs) + ones_after ones xs ≤ 6 * length xs + ones
unfolding stuff ones_after
length-stuff [] ones = omega arith
length-stuff (x ∷ xs) ones = ground (
  arith,
  length-stuff xs (next_ones ones x),
  length-append (stuffed ones x) (stuff (next_ones ones x) xs),
)
