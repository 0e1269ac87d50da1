-- ===== src/Aprs/Nmea/Bounds.antt =====
-- What `parse_nmea` reads is in range.
use packet_radio_rs.Base.{
  ℕ, ◌+◌, ◌-◌, ◌*◌, ◌≤◌, ◌<◌, ◌≡◌, refl, subst, arith, Bool, true, false, ◌&&◌, ◌||◌, Option, none,
  some, List, [], ◌∷◌, ltb, ◌==◌, if◌then◌else◌, length, get_or, drop, some_inj, guard_passed,
  test_passed, bind_passed, ℤ,
}
use packet_radio_rs.Aprs.Nmea.{
  NmeaData, same, validate_checksum, both, narrowed, parse_rmc, parse_gga, before_star, parse_body,
  parse_nmea,
}
use packet_radio_rs.Aprs.Nmea.Digits.{
  is_digit, position_of, parse_uint, parse_nmea_lat, parse_nmea_lon, parse_decimal_tenths,
  parse_two_digits, Clock, three_pairs, parse_nmea_time, parse_nmea_date,
}
use packet_radio_rs.Aprs.Nmea.Fields.{split_fields, field}

abbrev pub IfSome : {A : Type 0} → (A → Type 0) → Option A → Type 0
IfSome P none = Unit
IfSome P (some a) = P a

parse_two_digits-le : (a b n : ℕ) → parse_two_digits a b ≡ some n → n ≤ 99
unfolding parse_two_digits is_digit
parse_two_digits-le a b n h =
    let (digits, e) =
      test_passed (is_digit a && is_digit b) (some ((a - 0x30) * 10 + (b - 0x30))) n h in
    ground (arith, digits, some_inj ((a - 0x30) * 10 + (b - 0x30)) n e)

-- A time of the day, and a day of a month, with two digits of the year.
pub record IsTime (t : Clock) : Type 0 where
  pub hour : t.first ≤ 23
  pub minute : t.second ≤ 59
  pub second : t.third ≤ 59

pub record IsDate (t : Clock) : Type 0 where
  pub day : (1 ≤ t.first) × (t.first ≤ 31)
  pub month : (1 ≤ t.second) × (t.second ≤ 12)
  pub year : t.third ≤ 99

three_pairs-le : (field : List ℕ) (t : Clock) → three_pairs field ≡ some t → t.third ≤ 99
unfolding three_pairs
three_pairs-le field t h =
    let (a, _, h1) = bind_passed (parse_two_digits (get_or field 0 0) (get_or field 1 0)) _ t h in
    let (b, _, h2) = bind_passed (parse_two_digits (get_or field 2 0) (get_or field 3 0)) _ t h1 in
    let (c, e, h3) = bind_passed (parse_two_digits (get_or field 4 0) (get_or field 5 0)) _ t h2 in
    let clock : Clock = record { first = a; second = b; third = c } in
    subst (λ (u : Clock). u.third ≤ 99) (some_inj clock t h3)
      (parse_two_digits-le (get_or field 4 0) (get_or field 5 0) c e)

parse_nmea_time-IsTime : (field : List ℕ) (t : Clock) → parse_nmea_time field ≡ some t → IsTime t
unfolding parse_nmea_time
parse_nmea_time-IsTime field t h =
    let (_, h1) = guard_passed (ltb (length field) 6) _ t h in
    let (u, _, h2) = bind_passed (three_pairs field) _ t h1 in
    let (fine, h3) =
      guard_passed (ltb 23 u.first || ltb 59 u.second || ltb 59 u.third) (some u) t h2 in
    subst IsTime (some_inj u t h3) record {
      hour = ground (arith, fine);
      minute = ground (arith, fine);
      second = ground (arith, fine);
    }

parse_nmea_date-IsDate : (field : List ℕ) (t : Clock) → parse_nmea_date field ≡ some t → IsDate t
unfolding parse_nmea_date
parse_nmea_date-IsDate field t h =
    let (_, h1) = guard_passed (ltb (length field) 6) _ t h in
    let (u, e, h2) = bind_passed (three_pairs field) _ t h1 in
    let (fine, h3) =
      guard_passed (u.first == 0 || ltb 31 u.first || u.second == 0 || ltb 12 u.second) (some u) t
        h2 in
    subst IsDate (some_inj u t h3) record {
      day = (ground (arith, fine), ground (arith, fine));
      month = (ground (arith, fine), ground (arith, fine));
      year = three_pairs-le field u e;
    }

if_some : {A : Type 0} (P : A → Type 0) (o : Option A) → ((a : A) → o ≡ some a → P a) → IfSome P o
if_some P none h = tt
if_some P (some a) h = h a refl

-- What holds of the parts of a sentence that was read.
pub record IsSane (d : NmeaData) : Type 0 where
  pub time : IfSome IsTime d.time
  pub date : IfSome IsDate d.date
  pub exact : IfSome (λ p. p.ambiguity ≡ 0) d.position
  pub satellites : IfSome (λ n. n < 256) d.satellites
  pub fix_quality : IfSome (λ n. n < 256) d.fix_quality
  pub hdop : IfSome (λ n. n < 65536) d.hdop_tenths

both_exact : (lat lon : Option ℤ) → IfSome (λ p. p.ambiguity ≡ 0) (both lat lon)
unfolding both
both_exact none lon = tt
both_exact (some lat) none = tt
both_exact (some lat) (some lon) = refl

narrowed_byte : (o : Option ℕ) → IfSome (λ n. n < 256) (narrowed 8 o)
unfolding narrowed
narrowed_byte none = tt
narrowed_byte (some v) = omega arith

narrowed_word : (o : Option ℕ) → IfSome (λ n. n < 65536) (narrowed 16 o)
unfolding narrowed
narrowed_word none = tt
narrowed_word (some v) = omega arith

time_lem : (f : List ℕ) → IfSome IsTime (parse_nmea_time f)
time_lem f = if_some IsTime (parse_nmea_time f) (parse_nmea_time-IsTime f)

parse_rmc-IsSane :
    (fields : List (List ℕ)) (n : ℕ) (d : NmeaData) → parse_rmc fields n ≡ some d → IsSane d
unfolding parse_rmc
parse_rmc-IsSane fields n d h =
    let (_, h1) = guard_passed (ltb n 10) _ d h in
    subst IsSane (some_inj _ d h1) record {
      time = time_lem (field fields 1);
      date =
          if_some IsDate (parse_nmea_date (field fields 9))
            (parse_nmea_date-IsDate (field fields 9));
      exact =
          both_exact (parse_nmea_lat (field fields 3) (field fields 4))
            (parse_nmea_lon (field fields 5) (field fields 6));
      satellites = tt;
      fix_quality = tt;
      hdop = tt;
    }

parse_gga-IsSane :
    (fields : List (List ℕ)) (n : ℕ) (d : NmeaData) → parse_gga fields n ≡ some d → IsSane d
unfolding parse_gga
parse_gga-IsSane fields n d h =
    let (_, h1) = guard_passed (ltb n 10) _ d h in
    subst IsSane (some_inj _ d h1) record {
      time = time_lem (field fields 1);
      date = tt;
      exact =
          both_exact (parse_nmea_lat (field fields 2) (field fields 3))
            (parse_nmea_lon (field fields 4) (field fields 5));
      satellites = narrowed_byte (parse_uint (field fields 7));
      fix_quality = narrowed_byte (parse_uint (field fields 6));
      hdop = narrowed_word (parse_decimal_tenths (field fields 8));
    }

chosen :
    {A : Type 0} (P : A → Type 0) (c : Bool) (x y : Option A)
    → ((a : A) → x ≡ some a → P a)
    → ((a : A) → y ≡ some a → P a)
    → (a : A) → (if c then x else y) ≡ some a
    → P a
chosen P true x y f g a h = f a h
chosen P false x y f g a h = g a h

parse_body-IsSane : (body : List ℕ) (d : NmeaData) → parse_body body ≡ some d → IsSane d
unfolding parse_body
parse_body-IsSane body d h =
    let split = split_fields (before_star body (position_of b'*' body)) in
    let id = field split.0 0 in
    let (_, h1) = guard_passed (split.1 == 0) _ d h in
    let (_, h2) = guard_passed (ltb (length id) 5) _ d h1 in
    chosen IsSane (same (drop 2 id) (b'R' ∷ b'M' ∷ b'C' ∷ [])) (parse_rmc split.0 split.1) _
      (parse_rmc-IsSane split.0 split.1)
      (λ d' h3.
        chosen IsSane (same (drop 2 id) (b'G' ∷ b'G' ∷ b'A' ∷ [])) (parse_gga split.0 split.1) none
          (parse_gga-IsSane split.0 split.1) (λ a e. absurd (cc)) d' h3)
      d h2

-- Whatever `parse_nmea` reads: a time is below 24:00:00 with minutes and seconds below 60, a date has
-- a day from 1 to 31, a month from 1 to 12 and two digits of the year, a position has no ambiguity,
-- and satellites, fix quality and HDOP fit 8, 8 and 16 bits.
pub parse_nmea-IsSane : (sentence : List ℕ) (d : NmeaData) → parse_nmea sentence ≡ some d → IsSane d
unfolding parse_nmea
parse_nmea-IsSane [] d h = absurd (cc)
parse_nmea-IsSane (b ∷ bytes) d h =
    let (_, h1) = test_passed (validate_checksum (b ∷ bytes)) _ d h in
    parse_body-IsSane (if b == b'$' then bytes else b ∷ bytes) d h1
