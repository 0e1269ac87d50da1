-- ===== src/Ax25/Link/Tests.antt =====
-- A concrete frame over the air.
use packet_radio_rs.Base.{◌≡◌, refl, arith, false, [], ◌∷◌, map}
use packet_radio_rs.Ax25.Hdlc.{new, frames}
use packet_radio_rs.Ax25.Address.{Address}
use packet_radio_rs.Ax25.Address.RoundTrip.{IsAddress}
use packet_radio_rs.Ax25.Frame.{ok, try_parse}
use packet_radio_rs.Ax25.Frame.RoundTrip.{Content, wire, frame_of}
use packet_radio_rs.Ax25.Link.{IsSent, sent, try_parse-frames}

abbrev cq : Address
cq = record {
  callsign = b'C' ∷ b'Q' ∷ b' ' ∷ b' ' ∷ b' ' ∷ b' ' ∷ [];
  callsign_len = 2;
  ssid = 0;
  h_bit = false;
}

cq-IsAddress : IsAddress cq
cq-IsAddress = record {
  six = refl;
  ascii = omega arith;
  trimmed_len = refl;
  ssid_fits = omega arith;
}

abbrev call : Content
call = record {
  dest = cq;
  src = cq;
  route = cq ∷ [];
  control = 0x03;
  pid = 0xF0;
  info = 0x7E ∷ 0xFF ∷ [];
}

call-IsSent : IsSent call
call-IsSent = record {
  content = record {
    dest_valid = cq-IsAddress;
    src_valid = cq-IsAddress;
    route_valid = (cq-IsAddress, tt);
    route_fits = omega arith;
    info_fits = omega arith;
  };
  control_byte = omega arith;
  pid_byte = omega arith;
  info_bytes = omega arith;
}

try_parse-frames_example : map try_parse (frames new (sent (wire call))) ≡ ok (frame_of call) ∷ []
try_parse-frames_example = try_parse-frames call call-IsSent
