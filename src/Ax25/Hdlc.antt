-- ===== src/Ax25/Hdlc.antt =====
-- HDLC framing: core/src/ax25/frame.rs. The encoder pushes bits into an array of 4096; the decoder
-- is its state record with `feed_bit`.
pub mod Stuffing
pub mod Encode
pub mod Registers
pub mod Receive
pub mod Flag
pub mod RoundTrip
pub mod Sound
mod Tests
use packet_radio_rs.Base.{
  ℕ, zero, suc, ◌+◌, ◌-◌, ◌/◌, ◌%◌, ◌^◌, Bool, true, false, not, Option, none, some, List, [], ◌∷◌,
  ◌++◌, bit_and, bit_or, ltb, leb, ◌==◌, if◌then◌else◌, set, take, replicate,
}
use packet_radio_rs.Ax25.Limits.{max_frame_len, max_encoded_bits}
use packet_radio_rs.Ax25.Crc.{crc16_ccitt}

-- The bits of an encoded frame; the first `bit_count` of them are valid.
pub record EncodedFrame : Type 0 where
  pub bits : List ℕ
  pub bit_count : ℕ

pub new_frame : EncodedFrame
new_frame = record { bits = replicate max_encoded_bits 0; bit_count = 0 }

-- `push_bit`, with whether there was room.
pub push_bit : EncodedFrame → ℕ → EncodedFrame × Bool
push_bit f bit =
    if leb max_encoded_bits f.bit_count
    then (f, false)
    else (record { bits = set f.bits f.bit_count bit; bit_count = f.bit_count + 1 }, true)

-- `(byte >> bit_pos) & 1`
abbrev pub bit_at : ℕ → ℕ → ℕ
bit_at byte bit_pos = bit_and (byte / 2 ^ bit_pos) 1

-- The loop of `emit_flag`, with `n` rounds left.
pub emit_flag_bits : ℕ → ℕ → EncodedFrame → EncodedFrame
emit_flag_bits zero bit_pos f = f
emit_flag_bits (suc n) bit_pos f =
    emit_flag_bits n (bit_pos + 1) (push_bit f (bit_at 0x7E bit_pos)).0

pub emit_flag : EncodedFrame → EncodedFrame
emit_flag f = emit_flag_bits 8 0 f

-- `hdlc_encode`'s variables in its loop over the bytes.
pub record Stuffer : Type 0 where
  pub frame : EncodedFrame
  pub ones_count : ℕ

-- One bit, with the stuffed zero behind five ones.
pub stuff_bit : Stuffer → ℕ → Stuffer
stuff_bit s bit =
    let f = (push_bit s.frame bit).0 in
    if bit == 1
    then (if s.ones_count + 1 == 5
        then record { frame = (push_bit f 0).0; ones_count = 0 }
        else record { frame = f; ones_count = s.ones_count + 1 })
    else record { frame = f; ones_count = 0 }

-- The loop over the bits of a byte, lowest first, with `n` rounds left.
pub stuff_byte : ℕ → ℕ → ℕ → Stuffer → Stuffer
stuff_byte zero bit_pos byte s = s
stuff_byte (suc n) bit_pos byte s =
    stuff_byte n (bit_pos + 1) byte (stuff_bit s (bit_at byte bit_pos))

pub stuff_bytes : List ℕ → Stuffer → Stuffer
stuff_bytes [] s = s
stuff_bytes (byte ∷ bytes) s = stuff_bytes bytes (stuff_byte 8 0 byte s)

pub hdlc_encode : List ℕ → EncodedFrame
hdlc_encode bytes =
    let crc = crc16_ccitt bytes in
    let preamble = emit_flag (emit_flag (emit_flag (emit_flag new_frame))) in
    let trailer = (crc % 2 ^ 8) ∷ ((crc / 2 ^ 8) % 2 ^ 8) ∷ [] in
    emit_flag (stuff_bytes (bytes ++ trailer) (record { frame = preamble; ones_count = 0 })).frame

pub data State : Type 0 where
  hunting receiving : State

pub record HdlcDecoder : Type 0 where
  pub state : State
  pub shift_reg : ℕ
  pub ones_count : ℕ
  pub frame_buf : List ℕ
  pub current_byte : ℕ
  pub bit_index : ℕ
  pub frame_len : ℕ

pub new : HdlcDecoder
new = record {
  state = hunting;
  shift_reg = 0;
  ones_count = 0;
  frame_buf = replicate max_frame_len 0;
  current_byte = 0;
  bit_index = 0;
  frame_len = 0;
}

pub reset : HdlcDecoder → HdlcDecoder
reset d = record d {
  state = hunting;
  shift_reg = 0;
  ones_count = 0;
  current_byte = 0;
  bit_index = 0;
  frame_len = 0;
}

-- The frame that a flag closes, if there is one.
pub check_frame : State → HdlcDecoder → Option (List ℕ)
check_frame hunting d = none
check_frame receiving d =
    if leb 17 d.frame_len
    then (if crc16_ccitt (take d.frame_len d.frame_buf) == 0x0F47
        then some (take (d.frame_len - 2) d.frame_buf)
        else none)
    else none

-- Ready for the next frame.
pub start_frame : HdlcDecoder → HdlcDecoder
start_frame d = record d {
  state = receiving;
  ones_count = 0;
  current_byte = 0;
  bit_index = 0;
  frame_len = 0;
}

-- `// Complete byte?`
pub finish_bit : HdlcDecoder → HdlcDecoder
finish_bit d =
    if leb 8 d.bit_index
    then (if ltb d.frame_len max_frame_len
        then record d {
          frame_buf = set d.frame_buf d.frame_len d.current_byte;
          frame_len = d.frame_len + 1;
          current_byte = 0;
          bit_index = 0;
        }
        else record d { state = hunting; current_byte = 0; bit_index = 0 })
    else d

-- The `match self.state`.
pub feed_in : State → HdlcDecoder → Bool → HdlcDecoder
feed_in hunting d bit = record d { ones_count = if bit then d.ones_count + 1 else 0 }
feed_in receiving d true = finish_bit (record d {
  ones_count = d.ones_count + 1;
  current_byte = bit_or (d.current_byte / 2) 0x80;
  bit_index = d.bit_index + 1;
})
feed_in receiving d false =
    if d.ones_count == 5
    then record d { ones_count = 0 }
    else finish_bit (record d {
      ones_count = 0;
      current_byte = d.current_byte / 2;
      bit_index = d.bit_index + 1;
    })

-- The shift register with one more bit.
pub shift_in : ℕ → Bool → ℕ
shift_in reg bit = bit_or (reg / 2) (if bit then 0x80 else 0x00)

-- `feed_bit` behind the update of the shift register.
pub feed_shifted : HdlcDecoder → Bool → HdlcDecoder × Option (List ℕ)
feed_shifted d bit =
    if d.shift_reg == 0x7E
    then (start_frame d, check_frame d.state d)
    else if leb 7 d.ones_count
    then (record d { state = hunting; ones_count = 0 }, none)
    else (feed_in d.state d bit, none)

pub feed_bit : HdlcDecoder → Bool → HdlcDecoder × Option (List ℕ)
feed_bit d bit = feed_shifted (record d { shift_reg = shift_in d.shift_reg bit }) bit

-- `feed_bits`: the decoder afterwards, and the frames that the callback received.
unfoldable pub run : HdlcDecoder → List ℕ → HdlcDecoder
run d [] = d
run d (bit ∷ bits) = run (feed_bit d (not (bit == 0))).0 bits

abbrev pub report : Option (List ℕ) → List (List ℕ) → List (List ℕ)
report none fs = fs
report (some f) fs = f ∷ fs

unfoldable pub frames : HdlcDecoder → List ℕ → List (List ℕ)
frames d [] = []
frames d (bit ∷ bits) =
    report (feed_bit d (not (bit == 0))).1 (frames (feed_bit d (not (bit == 0))).0 bits)
