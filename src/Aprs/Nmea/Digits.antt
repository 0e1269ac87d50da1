-- ===== src/Aprs/Nmea/Digits.antt =====
-- The numbers in the fields of a sentence: core/src/aprs/nmea.rs.
use packet_radio_rs.Base.{
  ℕ, zero, suc, ◌+◌, ◌-◌, ◌*◌, ◌/◌, ◌%◌, ◌^◌, Bool, false, ◌&&◌, ◌||◌, Option, none, some, List, [],
  ◌∷◌, ltb, leb, ◌==◌, if◌then◌else◌, length, get_or, take, drop, ℤ, pos, neg, ◌>>=◌,
}

-- `is_ascii_digit`
unfoldable pub is_digit : ℕ → Bool
is_digit b = leb 0x30 b && leb b 0x39

unfoldable pub hex_digit : ℕ → Option ℕ
hex_digit b =
    if is_digit b
    then some (b - 0x30)
    else if leb 0x41 b && leb b 0x46
    then some (b - 0x41 + 10)
    else if leb 0x61 b && leb b 0x66
    then some (b - 0x61 + 10)
    else none

-- `iter().position(|&b| b == byte)` from index `i` on.
unfoldable pub position_from : ℕ → ℕ → List ℕ → Option ℕ
position_from byte i [] = none
position_from byte i (b ∷ bytes) =
    let rest = position_from byte (i + 1) bytes in if b == byte then some i else rest

unfoldable pub position_of : ℕ → List ℕ → Option ℕ
position_of byte bytes = position_from byte 0 bytes

-- The loop of `parse_uint`, with its checked operations on 32 bits.
unfoldable pub uint_from : List ℕ → ℕ → Option ℕ
uint_from [] val = some val
uint_from (b ∷ bytes) val =
    let next = val * 10 + (b - 0x30) in
    let rest = uint_from bytes next in
    if is_digit b then (if ltb next (2 ^ 32) then rest else none) else none

unfoldable pub parse_uint : List ℕ → Option ℕ
parse_uint [] = none
parse_uint (b ∷ bytes) = uint_from (b ∷ bytes) 0

-- The two loops of `parse_frac_ten_thousandths`; four digits do not overflow.
unfoldable pub frac_from : List ℕ → ℕ → ℕ → Option ℕ
frac_from [] val digits = some (val * 10 ^ (4 - digits))
frac_from (b ∷ bytes) val digits =
    let rest = frac_from bytes (val * 10 + (b - 0x30)) (digits + 1) in
    if is_digit b then rest else none

-- An empty field runs through no loop, and the padding keeps it zero.
unfoldable pub parse_frac_ten_thousandths : List ℕ → Option ℕ
parse_frac_ten_thousandths frac = frac_from (take 4 frac) 0 0

-- A number of 32 bits as `i32`.
abbrev pub as_i32 : ℕ → ℤ
as_i32 n = if ltb (n % 2 ^ 32) (2 ^ 31) then pos (n % 2 ^ 32) else neg (2 ^ 32 - n % 2 ^ 32)

-- `-n` on 32 bits.
abbrev pub negated : ℕ → ℕ
negated n = (2 ^ 32 - n % 2 ^ 32) % 2 ^ 32

-- The microdegrees as 32 bits. Minutes have two digits and four decimals, so that only the product
-- with the degrees can wrap around.
unfoldable pub microdegrees : ℕ → ℕ → ℕ → ℕ
microdegrees deg min_int min_frac =
    (deg * 1000000 + ((min_int * 10000 + min_frac) * 100 + 30) / 60) % 2 ^ 32

-- A hemisphere field of one letter.
abbrev pub is_letter : List ℕ → ℕ → ℕ → Bool
is_letter (b ∷ []) upper lower = b == upper || b == lower
is_letter [] upper lower = false
is_letter (b ∷ c ∷ bytes) upper lower = false

-- Degrees and minutes around the dot, and the sign.
unfoldable pub coordinate_at : List ℕ → Bool → ℕ → Option ℤ
coordinate_at field negative dot_pos = do
  deg ← parse_uint (take (dot_pos - 2) field)
  min_int ← parse_uint (take 2 (drop (dot_pos - 2) field))
  min_frac ← parse_frac_ten_thousandths (drop (dot_pos + 1) field)
  some (
      as_i32 (
        if negative
        then negated (microdegrees deg min_int min_frac)
        else microdegrees deg min_int min_frac))

-- What both coordinates do with a field of at least `min_len` bytes.
unfoldable pub parse_coordinate : ℕ → List ℕ → Bool → Option ℤ
parse_coordinate min_len field negative = if ltb (length field) min_len then none else (do
  dot_pos ← position_of b'.' field
  if ltb dot_pos 4 then none else coordinate_at field negative dot_pos)

unfoldable pub parse_nmea_lat : List ℕ → List ℕ → Option ℤ
parse_nmea_lat field ns = parse_coordinate 6 field (is_letter ns b'S' b's')

unfoldable pub parse_nmea_lon : List ℕ → List ℕ → Option ℤ
parse_nmea_lon field ew = parse_coordinate 7 field (is_letter ew b'W' b'w')

-- The digit behind the dot.
unfoldable pub tenth : List ℕ → Option ℕ
tenth [] = some 0
tenth (d ∷ rest) = if is_digit d then some (d - 0x30) else none

-- The number in front of the dot.
unfoldable pub integer_part : List ℕ → ℕ → Option ℕ
integer_part field zero = some 0
integer_part field (suc dot) = parse_uint (take (suc dot) field)

unfoldable pub parse_decimal_tenths : List ℕ → Option ℕ
parse_decimal_tenths [] = none
parse_decimal_tenths (b ∷ bytes) =
    let field = b ∷ bytes in
    elim (position_of b'.' field) [
      | none ↦ (do integer ← parse_uint field; some (integer * 10 % 2 ^ 32))
      | some dot ↦ (do
        integer ← integer_part field dot
        frac ← tenth (drop (dot + 1) field)
        some ((integer * 10 + frac) % 2 ^ 32))
    ]

unfoldable pub parse_signed_decimal_tenths : List ℕ → Option ℤ
parse_signed_decimal_tenths [] = none
parse_signed_decimal_tenths (b ∷ bytes) =
    if b == b'-'
    then (do val ← parse_decimal_tenths bytes; some (as_i32 (negated val)))
    else (do val ← parse_decimal_tenths (b ∷ bytes); some (as_i32 val))

unfoldable pub parse_two_digits : ℕ → ℕ → Option ℕ
parse_two_digits a b =
    if is_digit a && is_digit b then some ((a - 0x30) * 10 + (b - 0x30)) else none

-- Three numbers of a time or a date.
pub record Clock : Type 0 where
  pub first : ℕ
  pub second : ℕ
  pub third : ℕ

-- The three pairs of digits.
unfoldable pub three_pairs : List ℕ → Option Clock
three_pairs field = do
  a ← parse_two_digits (get_or field 0 0) (get_or field 1 0)
  b ← parse_two_digits (get_or field 2 0) (get_or field 3 0)
  c ← parse_two_digits (get_or field 4 0) (get_or field 5 0)
  some (record { first = a; second = b; third = c })

unfoldable pub parse_nmea_time : List ℕ → Option Clock
parse_nmea_time field = if ltb (length field) 6 then none else (do
  t ← three_pairs field
  if ltb 23 t.first || ltb 59 t.second || ltb 59 t.third then none else some t)

unfoldable pub parse_nmea_date : List ℕ → Option Clock
parse_nmea_date field = if ltb (length field) 6 then none else (do
  t ← three_pairs field
  if t.first == 0 || ltb 31 t.first || t.second == 0 || ltb 12 t.second then none else some t)
