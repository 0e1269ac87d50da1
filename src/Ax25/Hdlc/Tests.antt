-- ===== src/Ax25/Hdlc/Tests.antt =====
-- HDLC on concrete bits: tests, and the theorems at concrete inputs.
use packet_radio_rs.Base.{ℕ, ◌≡◌, refl, arith, false, some, List, [], ◌∷◌, take}
use packet_radio_rs.Ax25.Hdlc.{
  new, run, frames, feed_bit, feed_shifted, feed_in, finish_bit, shift_in, check_frame, start_frame,
  hdlc_encode,
}
use packet_radio_rs.Ax25.Crc.{crc16_ccitt, crc_bytes, crc_bits, crc_bit}
use packet_radio_rs.Ax25.Hdlc.Stuffing.{on_air, stuff}
use packet_radio_rs.Ax25.Hdlc.Encode.{Carries, hdlc_encode-Carries}
use packet_radio_rs.Ax25.Hdlc.RoundTrip.{
  CanReceive, frames-hdlc_encode, frames-transmission, transmission,
}
use packet_radio_rs.Ax25.Hdlc.Sound.{ReceivedWith, feed_bit_sound}

five_ones : stuff 0 (1 ∷ 1 ∷ 1 ∷ 1 ∷ 1 ∷ 1 ∷ []) ≡ 1 ∷ 1 ∷ 1 ∷ 1 ∷ 1 ∷ 0 ∷ 1 ∷ []
unfolding stuff
five_ones = refl

abbrev frame : List ℕ
frame =
    0x82 ∷ 0xA0 ∷ 0xA4 ∷ 0xA6 ∷ 0x40 ∷ 0x40 ∷ 0x60 ∷ 0x9C ∷ 0x60 ∷ 0x86 ∷ 0x82 ∷ 0x98 ∷ 0x98 ∷ 0x61
    ∷ 0x03 ∷ 0xF0 ∷ 0xFF ∷ 0x7E ∷ []

frame-CanReceive : CanReceive frame
frame-CanReceive = omega arith

hdlc_encode-Carries_example : Carries (on_air frame) (hdlc_encode frame)
hdlc_encode-Carries_example = hdlc_encode-Carries frame (omega arith)

frames-hdlc_encode_example :
    frames new (take (hdlc_encode frame).bit_count (hdlc_encode frame).bits) ≡ frame ∷ []
frames-hdlc_encode_example = frames-hdlc_encode frame frame-CanReceive

frames-transmission_example : frames new (transmission (frame ∷ frame ∷ [])) ≡ frame ∷ frame ∷ []
frames-transmission_example =
    frames-transmission (frame ∷ frame ∷ []) (frame-CanReceive, (frame-CanReceive, tt))

-- All of the transmission but its last bit.
abbrev before_last : List ℕ
before_last = take 203 (on_air frame)

last_bit : (feed_bit (run new before_last) false).1 ≡ some frame
unfolding new run feed_bit feed_shifted feed_in finish_bit shift_in check_frame start_frame stuff
    crc16_ccitt crc_bytes crc_bits crc_bit
last_bit = refl

feed_bit_sound_example : ReceivedWith (run new before_last) frame
feed_bit_sound_example = feed_bit_sound before_last false frame last_bit
