-- ===== src/Fx25/Link/Tests.antt =====
-- FX.25 from end to end on a frame of 16 bytes.
use packet_radio_rs.Base.{ℕ, ◌≡◌, arith, some, List, [], ◌∷◌, ◌++◌, drop, replicate}
use packet_radio_rs.Fx25.Rs.{ok}
use packet_radio_rs.Fx25.Rs.Encode.{rs_encode}
use packet_radio_rs.Fx25.Rs.RoundTrip.{IsParity, rs_decode-rs_encode}
use packet_radio_rs.Fx25.Encode.{Fx25Block, fx25_encode, iter_bits}
use packet_radio_rs.Fx25.Encode.Carried.{fx25_encode_total}
use packet_radio_rs.Fx25.Decode.{new, feed_bits}
use packet_radio_rs.Fx25.Link.{feed_bits-fx25_encode, fx25_encode_heard}

abbrev ui_frame : List ℕ
ui_frame =
    130 ∷ 160 ∷ 164 ∷ 166 ∷ 64 ∷ 64 ∷ 96 ∷ 156 ∷ 96 ∷ 134 ∷ 130 ∷ 152 ∷ 152 ∷ 97 ∷ 3 ∷ 240 ∷ []

rs_decode-rs_encode_example :
    (parity : List ℕ) × (rs_encode ui_frame 16 (replicate 64 0)
      ≡ ok (parity ++ drop 16 (replicate 64 0)))
    × IsParity ui_frame parity 16
rs_decode-rs_encode_example =
    rs_decode-rs_encode ui_frame 16 (replicate 64 0) (omega arith) (omega arith) (omega arith)
      (omega arith) (omega arith)

-- The block of that frame.
abbrev encoded : (block : Fx25Block) × (fx25_encode ui_frame 16 ≡ some block)
encoded = fx25_encode_total ui_frame 16 (omega arith) (omega arith) (omega arith) (omega arith)

feed_bits-fx25_encode_example : (feed_bits new (iter_bits encoded.0)).0 ≡ ui_frame ∷ []
feed_bits-fx25_encode_example =
    feed_bits-fx25_encode ui_frame 16 encoded.0 (omega arith) (omega arith) encoded.1

fx25_encode_heard_example :
    (block : Fx25Block) × (fx25_encode ui_frame 16 ≡ some block)
    × ((feed_bits new (iter_bits block)).0 ≡ ui_frame ∷ [])
fx25_encode_heard_example =
    fx25_encode_heard ui_frame 16 (omega arith) (omega arith) (omega arith) (omega arith)
      (omega arith)
