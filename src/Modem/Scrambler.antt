-- ===== src/Modem/Scrambler.antt =====
-- The G3RUH scrambler and descrambler of core/src/modem/scrambler.rs.
pub mod Sync
mod Tests
use packet_radio_rs.Base.{
  ℕ, ◌+◌, ◌*◌, ◌/◌, ◌%◌, ◌^◌, Bool, true, false, not, List, [], ◌∷◌, bit_and, bit_or, bit_xor, ◌==◌,
  if◌then◌else◌,
}

-- `bit as u32`
abbrev pub bit_value : Bool → ℕ
bit_value b = if b then 1 else 0

-- A scrambler or a descrambler is its shift register.
pub record Descrambler : Type 0 where
  pub shift_reg : ℕ

pub record Scrambler : Type 0 where
  pub shift_reg : ℕ

-- `(bit as u32) ^ tap12 ^ tap17`
pub tapped : ℕ → Bool → ℕ
tapped reg bit =
    let tap12 = bit_and (reg / 2 ^ 11) 1 in
    let tap17 = bit_and (reg / 2 ^ 16) 1 in bit_xor (bit_xor (bit_value bit) tap12) tap17

-- `(shift_reg << 1) | bit`, and then `& 0x1FFFF`.
pub shift_in : ℕ → ℕ → ℕ
shift_in reg bit = bit_and (bit_or (reg * 2 % 2 ^ 32) bit) 0x1FFFF

-- The output bit and the new register.
pub descramble : Descrambler → Bool → Bool × Descrambler
descramble d bit =
    let output = tapped d.shift_reg bit in
    (not (output == 0), record { shift_reg = shift_in d.shift_reg (bit_value bit) })

pub scramble : Scrambler → Bool → Bool × Scrambler
scramble s bit =
    let output = tapped s.shift_reg bit in
    (not (output == 0), record { shift_reg = shift_in s.shift_reg output })

abbrev pub new_descrambler : Descrambler
new_descrambler = record { shift_reg = 0 }

abbrev pub new_scrambler : Scrambler
new_scrambler = record { shift_reg = 0 }

pub reset_descrambler : Descrambler → Descrambler
reset_descrambler d = record { shift_reg = 0 }

pub reset_scrambler : Scrambler → Scrambler
reset_scrambler s = record { shift_reg = 0 }

-- A stream of bits, one after the other.
pub descramble_all : Descrambler → List Bool → List Bool
descramble_all d [] = []
descramble_all d (b ∷ bits) = let (output, d') = descramble d b in output ∷ descramble_all d' bits

pub scramble_all : Scrambler → List Bool → List Bool
scramble_all s [] = []
scramble_all s (b ∷ bits) = let (output, s') = scramble s b in output ∷ scramble_all s' bits
