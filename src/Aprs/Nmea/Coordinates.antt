-- ===== src/Aprs/Nmea/Coordinates.antt =====
-- A latitude of eight digits is read to the nearest microdegree.
use packet_radio_rs.Base.{ℕ, ◌+◌, ◌-◌, ◌*◌, ◌≤◌, ◌<◌, Bool, true, false, ℤ, pos, neg}

-- An ASCII digit.
pub record IsDigit (b : ℕ) : Type 0 where
  pub low : 0x30 ≤ b
  pub high : b ≤ 0x39

-- Two digits.
abbrev pub two : ℕ → ℕ → ℕ
two a b = (a - 0x30) * 10 + (b - 0x30)

-- With the sign of the hemisphere.
abbrev pub signed : Bool → ℕ → ℤ
signed true n = neg n
signed false n = pos n

-- The microdegrees nearest to some degrees and ten-thousandths of a minute.
pub record IsNearest (deg min_tenthousandths micro : ℕ) : Type 0 where
  pub not_above : 60 * micro ≤ 60000000 * deg + 100 * min_tenthousandths + 30
  pub not_below : 60000000 * deg + 100 * min_tenthousandths + 30 < 60 * micro + 60
