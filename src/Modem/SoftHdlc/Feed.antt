-- ===== src/Modem/SoftHdlc/Feed.antt =====
-- `feed_soft_bit`, `process_bit` and `handle_flag` of core/src/modem/soft_hdlc.rs.
use packet_radio_rs.Base.{
  ℕ, ◌+◌, ◌-◌, ◌^◌, min, Bool, true, false, ◌&&◌, Option, none, some, List, [], ◌∷◌, bit_or, ltb,
  leb, ◌==◌, if◌then◌else◌, set, take, ℤ, pos, negsuc,
}
use packet_radio_rs.Ax25.Crc.{crc16_ccitt}
use packet_radio_rs.Modem.SoftHdlc.Defs.{
  SoftHdlcDecoder, FrameResult, valid, recovered, HdlcState, hunting, receiving, count_up,
  max_frame_bits, max_frame_bytes, crc_residue,
}
use packet_radio_rs.Modem.SoftHdlc.Recovery.{try_bit_flip_recovery_info}

unfoldable pub check_frame_crc : SoftHdlcDecoder → ℕ → Bool
check_frame_crc d data_len =
    if ltb d.frame_len (data_len + 2)
    then false
    else crc16_ccitt (take d.frame_len d.frame_buf) == crc_residue

abbrev pub is_receiving : HdlcState → Bool
is_receiving hunting = false
is_receiving receiving = true

-- `frame_result_info`: length, whether it is recovered, flips and cost.
unfoldable pub frame_result_info : SoftHdlcDecoder → Option (ℕ × Bool × ℕ × ℕ) × SoftHdlcDecoder
frame_result_info d =
    let data_len = d.frame_len - 2 in
    let (info, after) = try_bit_flip_recovery_info d in
    if is_receiving d.state && leb 17 d.frame_len
    then (if check_frame_crc d data_len
        then (
          some (data_len, false, 0, 0),
          record d { stats = record d.stats { hard_decode = count_up d.stats.hard_decode } },
        )
        else elim info [
          | none ↦ (none, after)
          | some (len, flips, cost) ↦ (some (len, true, flips, cost), after)
        ])
    else (none, d)

-- `// Reset state for next frame`. `bit_count` is left as it is.
unfoldable pub next_frame : SoftHdlcDecoder → SoftHdlcDecoder
next_frame d = record d {
  state = receiving;
  frame_len = 0;
  current_byte = 0;
  byte_bit_count = 0;
  ones_count = 0;
}

-- The result that `handle_flag` returns.
abbrev pub result_of : Option (ℕ × Bool × ℕ × ℕ) → List ℕ → Option FrameResult
result_of none buf = none
result_of (some (len, false, flips, cost)) buf = some (valid (take len buf))
result_of (some (len, true, flips, cost)) buf = some (recovered (take len buf) flips cost)

unfoldable pub handle_flag : SoftHdlcDecoder → Option FrameResult × SoftHdlcDecoder
handle_flag d =
    let (info, after) = frame_result_info d in (result_of info after.frame_buf, next_frame after)

-- `// Accumulate data bit (LSB first)`
unfoldable pub accumulate : SoftHdlcDecoder → Bool → SoftHdlcDecoder
accumulate d bit =
    let byte = if bit then bit_or d.current_byte (2 ^ d.byte_bit_count) else d.current_byte in
    let room = ltb d.frame_len max_frame_bytes in
    if d.byte_bit_count + 1 == 8
    then record d {
      frame_buf = if room then set d.frame_buf d.frame_len byte else d.frame_buf;
      frame_len = if room then d.frame_len + 1 else d.frame_len;
      current_byte = 0;
      byte_bit_count = 0;
    }
    else record d { current_byte = byte; byte_bit_count = d.byte_bit_count + 1 }

-- The match on the state.
unfoldable pub take_bit : SoftHdlcDecoder → Bool → Option FrameResult × SoftHdlcDecoder
take_bit d bit = (none, if is_receiving d.state then accumulate d bit else d)

-- A zero that ends no flag.
unfoldable pub take_zero : SoftHdlcDecoder → Option FrameResult × SoftHdlcDecoder
take_zero d =
    let aborted = if leb 7 d.ones_count then record d { state = hunting; bit_count = 0 } else d in
    if d.ones_count == 5 && is_receiving aborted.state
    then (none, record aborted { ones_count = 0 })
    else take_bit (record aborted { ones_count = 0 }) false

unfoldable pub process_bit : SoftHdlcDecoder → Bool → Option FrameResult × SoftHdlcDecoder
process_bit d true = take_bit (record d { ones_count = min (d.ones_count + 1) 255 }) true
process_bit d false = if d.ones_count == 6 then handle_flag d else take_zero d

-- `llr >= 0`
abbrev pub hard_bit : ℤ → Bool
hard_bit (pos n) = true
hard_bit (negsuc n) = false

-- `// Store soft and hard values`
unfoldable pub store_bit : SoftHdlcDecoder → ℤ → SoftHdlcDecoder
store_bit d llr =
    if ltb d.bit_count max_frame_bits
    then record d {
      soft_bits = set d.soft_bits d.bit_count llr;
      hard_bits = set d.hard_bits d.bit_count (if hard_bit llr then 1 else 0);
      bit_count = d.bit_count + 1;
    }
    else d

unfoldable pub feed_soft_bit : SoftHdlcDecoder → ℤ → Option FrameResult × SoftHdlcDecoder
feed_soft_bit d llr = process_bit (store_bit d llr) (hard_bit llr)

unfoldable pub feed_hard_bit : SoftHdlcDecoder → Bool → Option FrameResult × SoftHdlcDecoder
feed_hard_bit d bit = feed_soft_bit d (if bit then pos 64 else negsuc 63)

-- A stream of soft bits.
unfoldable pub run : SoftHdlcDecoder → List ℤ → SoftHdlcDecoder
run d [] = d
run d (llr ∷ llrs) = run (feed_soft_bit d llr).1 llrs
