-- ===== src/Aprs/Nmea.antt =====
-- The NMEA sentence parser: core/src/aprs/nmea.rs.
pub mod Digits
pub mod Fields
pub mod Checksum
pub mod Bounds
pub mod Coordinates
mod Tests
use packet_radio_rs.Base.{
  ℕ, zero, suc, ◌+◌, ◌-◌, ◌*◌, ◌%◌, ◌^◌, Bool, true, false, ◌&&◌, Option, none, some, List, [], ◌∷◌,
  ◌++◌, bit_or, bit_xor, ltb, leb, ◌==◌, if◌then◌else◌, length, get_or, set, take, drop, replicate,
  ℤ, pos,
}
use packet_radio_rs.Aprs.Nmea.Digits.{
  hex_digit, position_of, parse_uint, parse_nmea_lat, parse_nmea_lon, parse_decimal_tenths,
  parse_signed_decimal_tenths, Clock, parse_nmea_time, parse_nmea_date,
}
use packet_radio_rs.Aprs.Nmea.Fields.{split_fields, field}

-- `Position`
pub record Position : Type 0 where
  pub lat : ℤ
  pub lon : ℤ
  pub ambiguity : ℕ

pub record NmeaData : Type 0 where
  pub position : Option Position
  pub speed_tenths_kts : Option ℕ
  pub course_tenths_deg : Option ℕ
  pub altitude_dm : Option ℤ
  pub satellites : Option ℕ
  pub fix_quality : Option ℕ
  pub hdop_tenths : Option ℕ
  pub time : Option Clock
  pub date : Option Clock
  pub fix_valid : Bool

-- `NmeaData::default()`
abbrev pub default : NmeaData
default = record {
  position = none;
  speed_tenths_kts = none;
  course_tenths_deg = none;
  altitude_dm = none;
  satellites = none;
  fix_quality = none;
  hdop_tenths = none;
  time = none;
  date = none;
  fix_valid = false;
}

-- `slice == b"…"`
unfoldable pub same : List ℕ → List ℕ → Bool
same [] [] = true
same [] (y ∷ ys) = false
same (x ∷ xs) [] = false
same (x ∷ xs) (y ∷ ys) = (x == y) && same xs ys

-- The exclusive or of some bytes with `xor`.
unfoldable pub xor_all : ℕ → List ℕ → ℕ
xor_all xor [] = xor
xor_all xor (b ∷ bytes) = xor_all (bit_xor xor b) bytes

-- The comparison with the two hexadecimal digits.
unfoldable pub xor_matches : ℕ → Option ℕ → Option ℕ → Bool
xor_matches xor (some h) (some l) = xor == bit_or (h * 16 % 2 ^ 8) l
xor_matches xor none l = false
xor_matches xor (some h) none = false

-- `sentence.first() == Some(&b'$')`
abbrev pub has_dollar : List ℕ → Bool
has_dollar [] = false
has_dollar (b ∷ bytes) = b == b'$'

-- The checksum behind the star at `star_pos`, if there is one.
unfoldable pub checksum_at : List ℕ → ℕ → Option ℕ → Bool
checksum_at sentence start none = true
checksum_at sentence start (some star_pos) =
    if ltb (length sentence) (star_pos + 3)
    then false
    else xor_matches (xor_all 0 (take (star_pos - start) (drop start sentence)))
        (hex_digit (get_or sentence (star_pos + 1) 0))
        (hex_digit (get_or sentence (star_pos + 2) 0))

unfoldable pub validate_checksum : List ℕ → Bool
validate_checksum sentence =
    checksum_at sentence (if has_dollar sentence then 1 else 0) (position_of b'*' sentence)

-- The position, if both parts are there.
unfoldable pub both : Option ℤ → Option ℤ → Option Position
both (some lat) (some lon) = some (record { lat = lat; lon = lon; ambiguity = 0 })
both none lon = none
both (some lat) none = none

-- `map(|v| v as …)` for `bits` bits.
unfoldable pub narrowed : ℕ → Option ℕ → Option ℕ
narrowed bits none = none
narrowed bits (some v) = some (v % 2 ^ bits)

-- `is_some_and(|q| q > 0)`
unfoldable pub positive : Option ℕ → Bool
positive none = false
positive (some q) = ltb 0 q

unfoldable pub parse_rmc : List (List ℕ) → ℕ → Option NmeaData
parse_rmc fields n =
    if ltb n 10
    then none
    else some (record default {
      time = parse_nmea_time (field fields 1);
      fix_valid = same (field fields 2) (b'A' ∷ []);
      position =
          both (parse_nmea_lat (field fields 3) (field fields 4))
            (parse_nmea_lon (field fields 5) (field fields 6));
      speed_tenths_kts = parse_decimal_tenths (field fields 7);
      course_tenths_deg = parse_decimal_tenths (field fields 8);
      date = parse_nmea_date (field fields 9);
    })

unfoldable pub parse_gga : List (List ℕ) → ℕ → Option NmeaData
parse_gga fields n =
    let fix_quality = narrowed 8 (parse_uint (field fields 6)) in
    if ltb n 10
    then none
    else some (record default {
      time = parse_nmea_time (field fields 1);
      position =
          both (parse_nmea_lat (field fields 2) (field fields 3))
            (parse_nmea_lon (field fields 4) (field fields 5));
      fix_quality = fix_quality;
      fix_valid = positive fix_quality;
      satellites = narrowed 8 (parse_uint (field fields 7));
      hdop_tenths = narrowed 16 (parse_decimal_tenths (field fields 8));
      altitude_dm = if ltb 9 n then parse_signed_decimal_tenths (field fields 9) else none;
    })

-- `body_no_cksum`
unfoldable pub before_star : List ℕ → Option ℕ → List ℕ
before_star body none = body
before_star body (some star) = take star body

-- Behind the checksum: the fields in front of the star.
unfoldable pub parse_body : List ℕ → Option NmeaData
parse_body body =
    let (fields, n) = split_fields (before_star body (position_of b'*' body)) in
    let sentence_id = field fields 0 in
    let type_suffix = drop 2 sentence_id in
    if n == 0
    then none
    else if ltb (length sentence_id) 5
    then none
    else if same type_suffix (b'R' ∷ b'M' ∷ b'C' ∷ [])
    then parse_rmc fields n
    else if same type_suffix (b'G' ∷ b'G' ∷ b'A' ∷ [])
    then parse_gga fields n
    else none

unfoldable pub parse_nmea : List ℕ → Option NmeaData
parse_nmea [] = none
parse_nmea (b ∷ bytes) =
    let body = if b == b'$' then bytes else b ∷ bytes in
    if validate_checksum (b ∷ bytes) then parse_body body else none
