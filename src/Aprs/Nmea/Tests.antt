-- ===== src/Aprs/Nmea/Tests.antt =====
-- The NMEA parser on concrete sentences.
use packet_radio_rs.Base.{
  ℕ, ◌≡◌, refl, arith, true, false, none, some, List, [], ◌∷◌, ◌++◌, pos, negsuc,
}
use packet_radio_rs.Aprs.Nmea.{
  NmeaData, default, same, xor_all, xor_matches, checksum_at, validate_checksum, both, narrowed,
  positive, parse_rmc, parse_gga, before_star, parse_body, parse_nmea,
}
use packet_radio_rs.Aprs.Nmea.Digits.{
  is_digit, hex_digit, position_from, position_of, uint_from, parse_uint, frac_from,
  parse_frac_ten_thousandths, microdegrees, coordinate_at, parse_coordinate, parse_nmea_lat,
  parse_nmea_lon, tenth, integer_part, parse_decimal_tenths, parse_signed_decimal_tenths,
  parse_two_digits, three_pairs, parse_nmea_time, parse_nmea_date,
}
use packet_radio_rs.Aprs.Nmea.Fields.{split_from, split_fields}
use packet_radio_rs.Aprs.Nmea.Checksum.{sentence, parse_nmea_corrupted}
use packet_radio_rs.Aprs.Nmea.Bounds.{IsSane, parse_nmea-IsSane}

-- `$GPRMC,123519,A,4807.038,N,01131.000,E,022.4,084.4,230394,003.1,W*6A`, around its seven.
abbrev front : List ℕ
front =
    b'G' ∷ b'P' ∷ b'R' ∷ b'M' ∷ b'C' ∷ b',' ∷ b'1' ∷ b'2' ∷ b'3' ∷ b'5' ∷ b'1' ∷ b'9' ∷ b',' ∷ b'A'
    ∷ b',' ∷ b'4' ∷ b'8' ∷ b'0' ∷ []

abbrev back : List ℕ
back =
    b'.' ∷ b'0' ∷ b'3' ∷ b'8' ∷ b',' ∷ b'N' ∷ b',' ∷ b'0' ∷ b'1' ∷ b'1' ∷ b'3' ∷ b'1' ∷ b'.' ∷ b'0'
    ∷ b'0' ∷ b'0' ∷ b',' ∷ b'E' ∷ b',' ∷ b'0' ∷ b'2' ∷ b'2' ∷ b'.' ∷ b'4' ∷ b',' ∷ b'0' ∷ b'8'
    ∷ b'4' ∷ b'.' ∷ b'4' ∷ b',' ∷ b'2' ∷ b'3' ∷ b'0' ∷ b'3' ∷ b'9' ∷ b'4' ∷ b',' ∷ b'0' ∷ b'0'
    ∷ b'3' ∷ b'.' ∷ b'1' ∷ b',' ∷ b'W' ∷ []

abbrev rmc : List ℕ
rmc = sentence (front ++ b'7' ∷ back) b'6' b'A' []

abbrev rmc_data : NmeaData
rmc_data = record default {
  time = some (record { first = 12; second = 35; third = 19 });
  date = some (record { first = 23; second = 3; third = 94 });
  position = some (record { lat = pos 48117300; lon = pos 11516667; ambiguity = 0 });
  speed_tenths_kts = some 224;
  course_tenths_deg = some 844;
  fix_valid = true;
}

rmc_parsed : parse_nmea rmc ≡ some rmc_data
unfolding same xor_all xor_matches checksum_at validate_checksum both narrowed positive parse_rmc
    parse_gga before_star parse_body parse_nmea is_digit hex_digit position_from position_of
    uint_from parse_uint frac_from parse_frac_ten_thousandths microdegrees coordinate_at
    parse_coordinate parse_nmea_lat parse_nmea_lon tenth integer_part parse_decimal_tenths
    parse_signed_decimal_tenths parse_two_digits three_pairs parse_nmea_time parse_nmea_date
    split_from split_fields
rmc_parsed = refl

rmc_valid : validate_checksum rmc ≡ true
unfolding validate_checksum checksum_at xor_all xor_matches position_of position_from hex_digit
    is_digit
rmc_valid = refl

parse_nmea-IsSane_example : IsSane rmc_data
parse_nmea-IsSane_example = parse_nmea-IsSane rmc rmc_data rmc_parsed

parse_nmea_corrupted_example : parse_nmea (sentence (front ++ b'8' ∷ back) b'6' b'A' []) ≡ none
parse_nmea_corrupted_example =
    parse_nmea_corrupted front back [] b'7' b'8' b'6' b'A' (omega arith) (omega arith) (omega arith)
      (omega arith) (omega arith) rmc_valid

-- 2148 degrees north wrap around to the south.
wrapped_latitude :
    parse_nmea_lat (b'2' ∷ b'1' ∷ b'4' ∷ b'8' ∷ b'0' ∷ b'0' ∷ b'.' ∷ b'0' ∷ []) (b'N' ∷ [])
    ≡ some (negsuc 2146967295)
unfolding is_digit hex_digit position_from position_of uint_from parse_uint frac_from
    parse_frac_ten_thousandths microdegrees coordinate_at parse_coordinate parse_nmea_lat
    parse_nmea_lon tenth integer_part parse_decimal_tenths parse_signed_decimal_tenths
    parse_two_digits three_pairs parse_nmea_time parse_nmea_date
wrapped_latitude = refl

-- A fix quality of 256 counts as no fix.
narrowed_quality : positive (narrowed 8 (parse_uint (b'2' ∷ b'5' ∷ b'6' ∷ []))) ≡ false
unfolding same xor_all xor_matches checksum_at validate_checksum both narrowed positive parse_rmc
    parse_gga before_star parse_body parse_nmea is_digit hex_digit position_from position_of
    uint_from parse_uint frac_from parse_frac_ten_thousandths microdegrees coordinate_at
    parse_coordinate parse_nmea_lat parse_nmea_lon tenth integer_part parse_decimal_tenths
    parse_signed_decimal_tenths parse_two_digits three_pairs parse_nmea_time parse_nmea_date
narrowed_quality = refl
