-- ===== src/Modem/SoftHdlc/Tests.antt =====
-- The soft HDLC decoder on a UI frame from N0CALL to APRS.
use packet_radio_rs.Base.{
  ℕ, ◌-◌, ◌≡◌, refl, arith, true, false, some, List, [], ◌∷◌, ◌++◌, map, length, take, replicate, ℤ,
  pos, negsuc, if◌then◌else◌, ◌==◌,
}
use packet_radio_rs.Modem.SoftHdlc.Defs.{SoftHdlcDecoder, valid, new}
use packet_radio_rs.Modem.SoftHdlc.Validity.{
  is_call_char, callsign_from, validate_callsign, walk_from, address_end, fields_valid,
  is_valid_ax25_frame,
}
use packet_radio_rs.Ax25.Crc.{crc_bit, crc_bits, crc_bytes, crc16_ccitt}
use packet_radio_rs.Modem.SoftHdlc.Recovery.{flip_in, try_syndrome_correction, attempt}
use packet_radio_rs.Modem.SoftHdlc.Feed.{
  check_frame_crc, frame_result_info, next_frame, handle_flag, accumulate, take_bit, take_zero,
  process_bit, store_bit, feed_soft_bit, run,
}
use packet_radio_rs.Modem.SoftHdlc.Trials.{IsFrame}
use packet_radio_rs.Modem.SoftHdlc.Sound.{Reported, feed_soft_bit_sound}
use packet_radio_rs.Modem.SoftHdlc.FlagStop.{flag_end, attempt_behind_flag}
use packet_radio_rs.Modem.SoftHdlc.SingleBit.{try_syndrome_correction_one_bit}

abbrev ui_frame : List ℕ
ui_frame =
    130 ∷ 160 ∷ 164 ∷ 166 ∷ 64 ∷ 64 ∷ 96 ∷ 156 ∷ 96 ∷ 134 ∷ 130 ∷ 152 ∷ 152 ∷ 97 ∷ 3 ∷ 240 ∷ 163
    ∷ 162 ∷ []

ui_frame-IsFrame : IsFrame ui_frame
unfolding crc16_ccitt crc_bytes crc_bits crc_bit is_valid_ax25_frame validate_callsign callsign_from
    is_call_char address_end walk_from fields_valid
ui_frame-IsFrame = record { long = omega arith; residue = refl; address_valid = refl }

abbrev damaged : SoftHdlcDecoder
damaged = record new { frame_buf = flip_in ui_frame 37 ++ replicate 382 0; frame_len = 18 }

try_syndrome_correction_one_bit_example :
    let r = try_syndrome_correction damaged in
    (r.0 ≡ some (16, 1, 1)) × (take 18 r.1.frame_buf ≡ ui_frame)
unfolding flip_in
try_syndrome_correction_one_bit_example =
    try_syndrome_correction_one_bit ui_frame damaged 37 ui_frame-IsFrame (omega arith) (omega arith)
      refl refl

-- A flag, the frame with its stuffed bits, and a flag.
abbrev wire : List ℕ
wire =
    0 ∷ 1 ∷ 1 ∷ 1 ∷ 1 ∷ 1 ∷ 1 ∷ 0 ∷ 0 ∷ 1 ∷ 0 ∷ 0 ∷ 0 ∷ 0 ∷ 0 ∷ 1 ∷ 0 ∷ 0 ∷ 0 ∷ 0 ∷ 0 ∷ 1 ∷ 0 ∷ 1
    ∷ 0 ∷ 0 ∷ 1 ∷ 0 ∷ 0 ∷ 1 ∷ 0 ∷ 1 ∷ 0 ∷ 1 ∷ 1 ∷ 0 ∷ 0 ∷ 1 ∷ 0 ∷ 1 ∷ 0 ∷ 0 ∷ 0 ∷ 0 ∷ 0 ∷ 0 ∷ 1 ∷ 0
    ∷ 0 ∷ 0 ∷ 0 ∷ 0 ∷ 0 ∷ 0 ∷ 1 ∷ 0 ∷ 0 ∷ 0 ∷ 0 ∷ 0 ∷ 0 ∷ 1 ∷ 1 ∷ 0 ∷ 0 ∷ 0 ∷ 1 ∷ 1 ∷ 1 ∷ 0 ∷ 0 ∷ 1
    ∷ 0 ∷ 0 ∷ 0 ∷ 0 ∷ 0 ∷ 1 ∷ 1 ∷ 0 ∷ 0 ∷ 1 ∷ 1 ∷ 0 ∷ 0 ∷ 0 ∷ 0 ∷ 1 ∷ 0 ∷ 1 ∷ 0 ∷ 0 ∷ 0 ∷ 0 ∷ 0 ∷ 1
    ∷ 0 ∷ 0 ∷ 0 ∷ 1 ∷ 1 ∷ 0 ∷ 0 ∷ 1 ∷ 0 ∷ 0 ∷ 0 ∷ 1 ∷ 1 ∷ 0 ∷ 0 ∷ 1 ∷ 1 ∷ 0 ∷ 0 ∷ 0 ∷ 0 ∷ 1 ∷ 1 ∷ 0
    ∷ 1 ∷ 1 ∷ 0 ∷ 0 ∷ 0 ∷ 0 ∷ 0 ∷ 0 ∷ 0 ∷ 0 ∷ 0 ∷ 0 ∷ 1 ∷ 1 ∷ 1 ∷ 1 ∷ 1 ∷ 0 ∷ 1 ∷ 0 ∷ 0 ∷ 0 ∷ 1 ∷ 0
    ∷ 1 ∷ 0 ∷ 1 ∷ 0 ∷ 0 ∷ 0 ∷ 1 ∷ 0 ∷ 1 ∷ 0 ∷ 1 ∷ 1 ∷ 1 ∷ 1 ∷ 1 ∷ 1 ∷ 0 ∷ []

abbrev soft : List ℕ → List ℤ
soft bits = map (λ b. if b == 1 then pos 100 else negsuc 99) bits

abbrev heard : SoftHdlcDecoder
heard = run new (soft (take (length wire - 1) wire))

feed_soft_bit_sound_example :
    let r = feed_soft_bit heard (negsuc 99) in Reported heard r.1.frame_buf r.0
feed_soft_bit_sound_example = feed_soft_bit_sound (soft (take (length wire - 1) wire)) (negsuc 99)

reported : (feed_soft_bit heard (negsuc 99)).0 ≡ some (valid (take 16 ui_frame))
unfolding crc16_ccitt crc_bytes crc_bits crc_bit check_frame_crc frame_result_info next_frame
    handle_flag accumulate take_bit take_zero process_bit store_bit feed_soft_bit run new
reported = refl

-- The buffer behind the opening flag, with a trial of the frame's first bit.
abbrev buffered : SoftHdlcDecoder
buffered = record new { hard_bits = 0 ∷ flag_end (0 ∷ replicate 100 1); bit_count = 100 }

attempt_behind_flag_example : (attempt (record { flips = 8 ∷ []; cost = 3 }) buffered).0 ≡ false
attempt_behind_flag_example =
    attempt_behind_flag (record { flips = 8 ∷ []; cost = 3 }) buffered (0 ∷ [])
      (0 ∷ replicate 100 1) refl (omega arith) (omega arith) (omega arith, tt)

-- Nine digipeaters.
nine_digipeaters :
    is_valid_ax25_frame (
      130 ∷ 160 ∷ 164 ∷ 166 ∷ 64 ∷ 64 ∷ 96 ∷ 156 ∷ 96 ∷ 134 ∷ 130 ∷ 152 ∷ 152 ∷ 96 ∷ 174 ∷ 146 ∷ 136
      ∷ 138 ∷ 64 ∷ 64 ∷ 96 ∷ 174 ∷ 146 ∷ 136 ∷ 138 ∷ 64 ∷ 64 ∷ 96 ∷ 174 ∷ 146 ∷ 136 ∷ 138 ∷ 64 ∷ 64
      ∷ 96 ∷ 174 ∷ 146 ∷ 136 ∷ 138 ∷ 64 ∷ 64 ∷ 96 ∷ 174 ∷ 146 ∷ 136 ∷ 138 ∷ 64 ∷ 64 ∷ 96 ∷ 174 ∷ 146
      ∷ 136 ∷ 138 ∷ 64 ∷ 64 ∷ 96 ∷ 174 ∷ 146 ∷ 136 ∷ 138 ∷ 64 ∷ 64 ∷ 96 ∷ 174 ∷ 146 ∷ 136 ∷ 138 ∷ 64
      ∷ 64 ∷ 96 ∷ 174 ∷ 146 ∷ 136 ∷ 138 ∷ 64 ∷ 64 ∷ 97 ∷ 3 ∷ 240 ∷ [])
    ≡ true
unfolding is_valid_ax25_frame validate_callsign callsign_from is_call_char address_end walk_from
    fields_valid
nine_digipeaters = refl
