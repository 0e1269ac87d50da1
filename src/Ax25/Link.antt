-- ===== src/Ax25/Link.antt =====
-- From a frame's content to the bits on the air and back: the encoder of core/src/ax25/frame.rs, its
-- decoder and the parser of core/src/ax25/mod.rs together.
mod Tests
use packet_radio_rs.Base.{
  ℕ, ◌+◌, ◌*◌, ◌%◌, ◌^◌, ◌≤◌, ◌<◌, ◌≡◌, refl, ap, ◌∙◌, arith, Bool, true, false, List, [], ◌∷◌,
  ◌++◌, map, All, All-append, length, take, if◌then◌else◌,
}
use packet_radio_rs.Ax25.Limits.{max_info_len}
use packet_radio_rs.Ax25.Hdlc.{new, frames, hdlc_encode}
use packet_radio_rs.Ax25.Hdlc.RoundTrip.{CanReceive, frames-hdlc_encode}
use packet_radio_rs.Ax25.Address.{Address, ssid_byte, to_bytes}
use packet_radio_rs.Ax25.Address.RoundTrip.{IsAddress, ssid_byte_lem}
use packet_radio_rs.Ax25.Frame.{Frame, Result, ok, try_parse}
use packet_radio_rs.Ax25.Frame.Digipeaters.{wire_route}
use packet_radio_rs.Ax25.Frame.RoundTrip.{
  Content, IsContent, is_nil, wire, wire_tail, frame_of, length-wire, try_parse-wire,
}

abbrev IsByte : ℕ → Type 0
IsByte b = b < 256

shifted_bytes : (cs : List ℕ) → All IsByte (map (λ ch. ch * 2 % 2 ^ 8) cs)
shifted_bytes [] = tt
shifted_bytes (c ∷ cs) = (omega arith, shifted_bytes cs)

to_bytes_bytes : (a : Address) (l : Bool) → IsAddress a → All IsByte (to_bytes a l)
unfolding to_bytes
to_bytes_bytes a l i =
    All-append IsByte _ _ (shifted_bytes a.callsign)
      (ground (arith, ssid_byte_lem a l i.ssid_fits, i.ssid_fits), tt)

wire_route_bytes : (route : List Address) → All IsAddress route → All IsByte (wire_route route)
wire_route_bytes [] h = tt
wire_route_bytes (a ∷ []) h = to_bytes_bytes a true h.0
wire_route_bytes (a ∷ b ∷ route) h =
    All-append IsByte _ _ (to_bytes_bytes a false h.0) (wire_route_bytes (b ∷ route) h.1)

-- A content whose fields are bytes.
pub record IsSent (c : Content) : Type 0 where
  pub content : IsContent c
  pub control_byte : c.control < 256
  pub pid_byte : c.pid < 256
  pub info_bytes : All (λ b. b < 256) c.info

wire-CanReceive : (c : Content) → IsSent c → CanReceive (wire c)
wire-CanReceive c s =
    let v = s.content in
    let size = length-wire c v in
    (
      All-append IsByte _ _ (to_bytes_bytes c.dest false v.dest_valid) (
          All-append IsByte _ _ (to_bytes_bytes c.src (is_nil c.route) v.src_valid) (
            All-append IsByte _ _ (wire_route_bytes c.route v.route_valid)
              (s.control_byte, (s.pid_byte, s.info_bytes)))),
      omega (arith, size),
      omega (arith, size, v.info_fits, v.route_fits),
    )

-- The bits that are sent for some bytes.
abbrev pub sent : List ℕ → List ℕ
sent bytes = let f = hdlc_encode bytes in take f.bit_count f.bits

-- A new HDLC decoder that hears the encoded frame of a content, with up to 8 digipeaters and up to
-- 256 bytes of payload, reports one frame, and `try_parse` gives that content back.
pub try_parse-frames :
    (c : Content) → IsSent c → map try_parse (frames new (sent (wire c))) ≡ ok (frame_of c) ∷ []
try_parse-frames c s =
    ap (map try_parse) (frames-hdlc_encode (wire c) (wire-CanReceive c s))
    ∙ ap (λ r. r ∷ []) (try_parse-wire c s.content)
