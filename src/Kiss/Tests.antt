-- ===== src/Kiss/Tests.antt =====
-- KISS on concrete bytes: tests, and the theorems at concrete inputs.
use packet_radio_rs.Base.{
  ℕ, ◌≡◌, refl, arith, some, none, inl, List, [], ◌∷◌, take, replicate, length-replicate,
}
use packet_radio_rs.Kiss.{
  fend, data_frame, unknown, new, run, packets, feed_byte, feed_fend, push_byte, packet, from_byte,
  command_of, to_byte, encode_frame, write, write_escaped, write_data, outcome,
}
use packet_radio_rs.Kiss.Encode.{frame_bytes, Filled, encode_frame_fits, encode_frame_full}
use packet_radio_rs.Kiss.Sound.{IsReported, feed_byte-packet}
use packet_radio_rs.Kiss.RoundTrip.{IsIdle, enclosed, packets_too_long}
use packet_radio_rs.Kiss.Stream.{packets-encode_frame, packets-stream, packets_port_12, stream}

abbrev payload : List ℕ
payload = 0x41 ∷ 0xC0 ∷ 0xDB ∷ 0x42 ∷ []

encode_payload :
    encode_frame 3 payload (replicate 10 0)
    ≡ (0xC0 ∷ 0x30 ∷ 0x41 ∷ 0xDB ∷ 0xDC ∷ 0xDB ∷ 0xDD ∷ 0x42 ∷ 0xC0 ∷ 0 ∷ [], some 9)
unfolding encode_frame outcome write write_escaped write_data to_byte
encode_payload = refl

-- The command byte 0x0F is an unknown command, not `Return`.
return_from_byte : from_byte 0xFF ≡ (15, unknown 15)
unfolding from_byte
return_from_byte = refl

new-IsIdle : IsIdle new
unfolding new
new-IsIdle = record { size = refl; between = inl refl; fits = refl }

new-frame : packets new (0xC0 ∷ 0x30 ∷ 0x41 ∷ 0xC0 ∷ []) ≡ (3, data_frame, 0x41 ∷ []) ∷ []
unfolding new packets feed_byte feed_fend push_byte packet from_byte
new-frame = refl

encode_frame_fits_example :
    Filled (frame_bytes 3 payload) (replicate 10 0) (encode_frame 3 payload (replicate 10 0))
encode_frame_fits_example =
    encode_frame_fits 3 payload (replicate 10 0) (unfold to_byte in omega arith)

encode_frame_full_example : (encode_frame 3 payload (replicate 8 0)).1 ≡ none
encode_frame_full_example =
    encode_frame_full 3 payload (replicate 8 0) (unfold to_byte in omega arith)

abbrev begun : List ℕ
begun = 0x99 ∷ 0xC0 ∷ 0x30 ∷ 0x41 ∷ 0xDB ∷ 0xDC ∷ []

begun-packet : (feed_byte (run new begun) fend).1 ≡ some (3, data_frame, 0x41 ∷ 0xC0 ∷ [])
unfolding new run feed_byte feed_fend push_byte packet from_byte
begun-packet = refl

feed_byte-packet_example :
    (fend ≡ fend) × IsReported begun (run new begun) (3, data_frame, 0x41 ∷ 0xC0 ∷ [])
feed_byte-packet_example =
    feed_byte-packet begun fend (3, data_frame, 0x41 ∷ 0xC0 ∷ []) begun-packet

packets-encode_frame_example :
    (n : ℕ) × ((encode_frame 3 payload (replicate 10 0)).1 ≡ some n)
    × (packets new (take n (encode_frame 3 payload (replicate 10 0)).0)
        ≡ (3, data_frame, payload) ∷ [])
packets-encode_frame_example =
    packets-encode_frame 3 payload (replicate 10 0) new new-IsIdle (omega arith) (omega arith)
      (unfold to_byte in omega arith)

abbrev two_frames : List (ℕ × List ℕ)
two_frames = (0, payload) ∷ (5, []) ∷ []

packets-stream_example :
    packets new (stream two_frames) ≡ (0, data_frame, payload) ∷ (5, data_frame, []) ∷ []
packets-stream_example = packets-stream two_frames new new-IsIdle (omega arith)

packets_too_long_example :
    (packets new (enclosed (replicate 513 0x41)) ≡ [])
    × IsIdle (run new (enclosed (replicate 513 0x41)))
packets_too_long_example =
    packets_too_long (replicate 513 0x41) new new-IsIdle
      (omega (arith, length-replicate {A = ℕ} 513 0x41))

packets_port_12_example :
    packets new (frame_bytes 12 (0x41 ∷ 0x42 ∷ [])) ≡ (4, command_of 1, 0x42 ∷ []) ∷ []
packets_port_12_example =
    packets_port_12 12 0x41 (0x42 ∷ []) new new-IsIdle (omega arith) (omega arith)
