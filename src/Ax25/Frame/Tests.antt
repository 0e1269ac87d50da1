-- ===== src/Ax25/Frame/Tests.antt =====
-- Frames on concrete bytes: tests, and the theorems at concrete inputs.
use packet_radio_rs.Base.{◌≡◌, refl, arith, true, false, some, [], ◌∷◌, ◌++◌, take}
use packet_radio_rs.Ax25.Address.{
  Address, read_callsign, from_bytes, ssid_byte, to_bytes, callsign_str,
}
use packet_radio_rs.Ax25.Address.RoundTrip.{IsAddress, from_bytes-to_bytes}
use packet_radio_rs.Ax25.Frame.{
  ok, err, too_short, try_parse, parse, read_digipeaters, read_route, address_at, finish, is_ui,
}
use packet_radio_rs.Ax25.Frame.RoundTrip.{Content, IsContent, wire, frame_of, try_parse-wire}
use packet_radio_rs.Ax25.Frame.Outcome.{Outcome, try_parse-Outcome}

-- `N0CALL-7`, repeated.
abbrev station : Address
station = record {
  callsign = b'N' ∷ b'0' ∷ b'C' ∷ b'A' ∷ b'L' ∷ b'L' ∷ [];
  callsign_len = 6;
  ssid = 7;
  h_bit = true;
}

-- `WIDE1-1`
abbrev wide : Address
wide = record {
  callsign = b'W' ∷ b'I' ∷ b'D' ∷ b'E' ∷ b'1' ∷ b' ' ∷ [];
  callsign_len = 5;
  ssid = 1;
  h_bit = false;
}

station-IsAddress : IsAddress station
station-IsAddress = record {
  six = refl;
  ascii = omega arith;
  trimmed_len = refl;
  ssid_fits = omega arith;
}

wide-IsAddress : IsAddress wide
wide-IsAddress = record {
  six = refl;
  ascii = omega arith;
  trimmed_len = refl;
  ssid_fits = omega arith;
}

wide_str : callsign_str wide ≡ b'W' ∷ b'I' ∷ b'D' ∷ b'E' ∷ b'1' ∷ []
unfolding callsign_str
wide_str = refl

from_bytes-to_bytes_example : from_bytes (to_bytes station true) ≡ station
from_bytes-to_bytes_example = from_bytes-to_bytes station true station-IsAddress

-- A UI frame by two digipeaters.
abbrev content : Content
content = record {
  dest = wide;
  src = station;
  route = wide ∷ station ∷ [];
  control = 0x03;
  pid = 0xF0;
  info = b'h' ∷ b'i' ∷ [];
}

content-IsContent : IsContent content
content-IsContent = record {
  dest_valid = wide-IsAddress;
  src_valid = station-IsAddress;
  route_valid = (wide-IsAddress, (station-IsAddress, tt));
  route_fits = omega arith;
  info_fits = omega arith;
}

content_ui : is_ui (frame_of content) ≡ true
unfolding is_ui
content_ui = refl

content_parsed : parse (wire content) ≡ some (frame_of content)
unfolding parse try_parse read_digipeaters read_route address_at finish from_bytes to_bytes
    ssid_byte read_callsign
content_parsed = refl

-- Fifteen bytes have room for the control field but not for the PID.
fifteen_bytes : try_parse (take 14 (wire content) ++ 0x03 ∷ []) ≡ err too_short
unfolding try_parse read_digipeaters read_route address_at finish from_bytes to_bytes ssid_byte
    read_callsign
fifteen_bytes = refl

try_parse-wire_example : try_parse (wire content) ≡ ok (frame_of content)
try_parse-wire_example = try_parse-wire content content-IsContent

try_parse-Outcome_example : Outcome (wire content) (try_parse (wire content))
try_parse-Outcome_example = try_parse-Outcome (wire content)
