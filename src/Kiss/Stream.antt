-- ===== src/Kiss/Stream.antt =====
-- From `encode_frame` to the packets of a decoder, for one frame and for a stream of frames.
use packet_radio_rs.Base.{
  ℕ, ◌*◌, ◌/◌, ◌%◌, ◌≤◌, ◌≡◌, ◌≢◌, refl, ◌∙◌, arith, some, List, [], ◌∷◌, ◌++◌, inr, length, take,
  All, bit_and_mask, bit_or-zero, map,
}
use packet_radio_rs.Kiss.{
  fend, data_frame, KissDecoder, Packet, run, packets, from_byte, command_of, to_byte, encode_frame,
}
use packet_radio_rs.Kiss.Encode.{escaped, frame_bytes, encode_frame_fits}
use packet_radio_rs.Kiss.Decode.{packets-append}
use packet_radio_rs.Kiss.RoundTrip.{IsIdle, enclosed, open_frame, packets-enclosed}

pub to_byte-data_frame : (port : ℕ) → to_byte data_frame port ≡ port % 16 * 16
unfolding to_byte
to_byte-data_frame port = rw (bit_and_mask 4 port) (bit_or-zero (port % 16 * 16))

from_byte_lem : (byte : ℕ) → from_byte byte ≡ (byte / 16 % 16, command_of (byte % 16))
unfolding from_byte
from_byte_lem byte = rw (bit_and_mask 4 (byte / 16), bit_and_mask 4 byte)

-- `from_byte` undoes `to_byte` on a data frame, for every port of four bits.
from_byte-to_byte : (port : ℕ) → from_byte (to_byte data_frame port) ≡ (port % 16, data_frame)
from_byte-to_byte port =
    let low : port % 16 * 16 % 16 ≡ 0 = omega arith in
    let high : port % 16 * 16 / 16 % 16 ≡ port % 16 = omega arith in
    rw (to_byte-data_frame port, from_byte_lem (port % 16 * 16), low, high)
      (unfold command_of in refl)

escaped-command :
    (port : ℕ) → port % 16 ≢ 12 → escaped (to_byte data_frame port) ≡ to_byte data_frame port ∷ []
escaped-command port h = rw (to_byte-data_frame port) (ground arith)

frame_bytes-enclosed :
    (port : ℕ) (bytes : List ℕ)
    → port % 16 ≢ 12
    → frame_bytes port bytes ≡ enclosed (to_byte data_frame port ∷ bytes)
frame_bytes-enclosed port bytes h = rw (escaped-command port h)

-- For a port whose low nibble is not 12 and at most 511 bytes, an idle decoder makes of the encoded frame
-- exactly one packet, with the port's low nibble, the data command and the bytes, and is idle again.
pub packets-frame_bytes :
    (port : ℕ) (bytes : List ℕ) (d : KissDecoder)
    → IsIdle d
    → port % 16 ≢ 12
    → length bytes ≤ 511
    → (packets d (frame_bytes port bytes) ≡ (port % 16, data_frame, bytes) ∷ [])
      × IsIdle (run d (frame_bytes port bytes))
packets-frame_bytes port bytes d i p h =
    rw (frame_bytes-enclosed port bytes p)
      (rw (from_byte-to_byte port) at (packets-enclosed (to_byte data_frame port) bytes d i h))

-- What `encode_frame` writes into a slice that has room for it, fed to an idle decoder, comes back
-- as the one packet that was encoded (for a port whose low nibble is not 12, and
-- at most 511 bytes).
pub packets-encode_frame :
    (port : ℕ) (bytes out : List ℕ) (d : KissDecoder)
    → IsIdle d
    → port % 16 ≢ 12
    → length bytes ≤ 511
    → length (frame_bytes port bytes) ≤ length out
    → (n : ℕ) × ((encode_frame port bytes out).1 ≡ some n)
      × (packets d (take n (encode_frame port bytes out).0) ≡ (port % 16, data_frame, bytes) ∷ [])
packets-encode_frame port bytes out d i p h room =
    let f = encode_frame_fits port bytes out room in
    (length (frame_bytes port bytes), f.0, rw f.1 (packets-frame_bytes port bytes d i p h).0)

-- The frames of a list of ports and payloads, one behind the other.
abbrev pub stream : List (ℕ × List ℕ) → List ℕ
stream [] = []
stream ((port, bytes) ∷ rest) = frame_bytes port bytes ++ stream rest

abbrev pub sent : ℕ × List ℕ → Packet
sent (port, bytes) = (port % 16, data_frame, bytes)

abbrev pub CanSend : ℕ × List ℕ → Type 0
CanSend (port, bytes) = (port % 16 ≢ 12) × (length bytes ≤ 511)

-- An idle decoder that reads a stream of encoded frames, each for a port whose low nibble is not 12
-- and of at most 511 bytes, reports every one of them, in order, and nothing else.
pub packets-stream :
    (frames : List (ℕ × List ℕ)) (d : KissDecoder)
    → IsIdle d
    → All CanSend frames
    → packets d (stream frames) ≡ map sent frames
packets-stream [] d i h = unfold packets in refl
packets-stream ((port, bytes) ∷ rest) d i (h, hs) =
    let one = packets-frame_bytes port bytes d i h.0 h.1 in
    packets-append (frame_bytes port bytes) (stream rest) d
    ∙ rw (one.0, packets-stream rest (run d (frame_bytes port bytes)) one.1 hs)

frame_bytes_port_12 :
    (port c : ℕ) (bytes : List ℕ)
    → port % 16 ≡ 12
    → frame_bytes port (c ∷ bytes) ≡ fend ∷ enclosed (c ∷ bytes)
frame_bytes_port_12 port c bytes h = rw (to_byte-data_frame port, h)

frame_port_12_packets :
    (port c : ℕ) (bytes : List ℕ) (d : KissDecoder) {ps : List Packet}
    → port % 16 ≡ 12
    → packets d (fend ∷ []) ≡ []
    → packets (run d (fend ∷ [])) (enclosed (c ∷ bytes)) ≡ ps
    → packets d (frame_bytes port (c ∷ bytes)) ≡ ps
frame_port_12_packets port c bytes d p start rest =
    rw (frame_bytes_port_12 port c bytes p)
      (packets-append (fend ∷ []) (enclosed (c ∷ bytes)) d ∙ rw start rest)

-- On port 12 the command byte is FEND, which `encode_frame` does not escape: an idle decoder takes
-- it for the start of a frame, and the first data byte for the command. The packet that is reported
-- has that byte's port and command, and one data byte less.
pub packets_port_12 :
    (port c : ℕ) (bytes : List ℕ) (d : KissDecoder)
    → IsIdle d
    → port % 16 ≡ 12
    → length bytes ≤ 511
    → packets d (frame_bytes port (c ∷ bytes)) ≡ (c / 16 % 16, command_of (c % 16), bytes) ∷ []
packets_port_12 port c bytes d i p h =
    let o = open_frame d i in
    let idle : IsIdle (run d (fend ∷ [])) = record {
      size = o.0.size;
      between = inr o.0.filled;
      fits = o.0.fits;
    } in
    frame_port_12_packets port c bytes d p o.1
      (rw (from_byte_lem c) at (packets-enclosed c bytes (run d (fend ∷ [])) idle h).0)
