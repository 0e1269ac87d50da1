-- ===== src/Fx25/Encode.antt =====
-- The FX.25 encoder: core/src/fx25/encode.rs. `HDLC_BUF_SIZE` bytes are a list of that length.
pub mod Bits
pub mod Pack
pub mod Padding
pub mod Outcome
pub mod Carried
use packet_radio_rs.Base.{
  ℕ, zero, suc, ◌+◌, ◌-◌, ◌*◌, ◌/◌, ◌%◌, ◌^◌, Bool, true, false, ◌||◌, Option, none, some, List, [],
  ◌∷◌, ◌++◌, bit_and, bit_or, ltb, leb, ◌==◌, if◌then◌else◌, length, get_elem?, get_or, set, take,
  drop, replicate,
}
use packet_radio_rs.Ax25.Crc.{crc16_ccitt}
use packet_radio_rs.Fx25.Tags.{Fx25Tag, fx25_tags, select_tag}
use packet_radio_rs.Fx25.Rs.{ok, err}
use packet_radio_rs.Fx25.Rs.Encode.{rs_encode}

-- MAX_ENCODED_BITS
abbrev pub max_encoded_bits : ℕ
max_encoded_bits = 2104

-- HDLC_BUF_SIZE
abbrev pub hdlc_buf_size : ℕ
hdlc_buf_size = 300

pub record Fx25Block : Type 0 where
  pub bits : List ℕ
  pub bit_count : ℕ
  pub tag_index : ℕ

-- The bytes and the bit position of `hdlc_stuff_to_bytes`.
pub record Packed : Type 0 where
  pub out : List ℕ
  pub bit_pos : ℕ

-- `push_bit!`
unfoldable pub push_bit : Packed → ℕ → Packed
push_bit p bit =
    let byte_idx = p.bit_pos / 8 in
    if ltb byte_idx (length p.out)
    then record {
      out =
          if bit == 0
          then p.out
          else set p.out byte_idx (bit_or (get_or p.out byte_idx 0) (2 ^ (p.bit_pos % 8)));
      bit_pos = p.bit_pos + 1;
    }
    else p

-- `(byte >> i) & 1`
abbrev pub bit_at : ℕ → ℕ → ℕ
bit_at byte i = bit_and (byte / 2 ^ i) 1

-- The loop over the bits of a flag with `n` rounds left.
unfoldable pub push_flag : ℕ → ℕ → Packed → Packed
push_flag zero i p = p
push_flag (suc n) i p = push_flag n (i + 1) (push_bit p (bit_at 0x7E i))

-- One bit of the data, with the stuffed zero behind five ones.
unfoldable pub stuff_bit : Packed × ℕ → ℕ → Packed × ℕ
stuff_bit (p, ones_count) bit =
    if bit == 0
    then (push_bit p bit, 0)
    else if ones_count + 1 == 5
    then (push_bit (push_bit p bit) 0, 0)
    else (push_bit p bit, ones_count + 1)

-- The loop over the bits of a byte with `n` rounds left.
unfoldable pub stuff_byte : ℕ → ℕ → ℕ → Packed × ℕ → Packed × ℕ
stuff_byte zero i byte s = s
stuff_byte (suc n) i byte s = stuff_byte n (i + 1) byte (stuff_bit s (bit_at byte i))

unfoldable pub stuff_bytes : List ℕ → Packed × ℕ → Packed × ℕ
stuff_bytes [] s = s
stuff_bytes (byte ∷ bytes) s = stuff_bytes bytes (stuff_byte 8 0 byte s)

-- The bytes of `out` afterwards with the bit position; the byte count is `(bit_pos + 7) / 8`.
unfoldable pub hdlc_stuff_to_bytes : List ℕ → List ℕ → Packed
hdlc_stuff_to_bytes data_with_crc out =
    let opened = push_flag 8 0 (record { out = replicate (length out) 0; bit_pos = 0 }) in
    push_flag 8 0 (stuff_bytes data_with_crc (opened, 0)).0

abbrev pub byte_len : Packed → ℕ
byte_len p = (p.bit_pos + 7) / 8

unfoldable pub hdlc_wrap : List ℕ → Option Packed
hdlc_wrap frame =
    let crc = crc16_ccitt frame in
    if ltb 255 (length frame + 2)
    then none
    else some (
        hdlc_stuff_to_bytes (frame ++ (crc % 2 ^ 8) ∷ ((crc / 2 ^ 8) % 2 ^ 8) ∷ [])
          (replicate hdlc_buf_size 0))

-- `buf[byte_idx] &= !(1 << bit_idx)`
unfoldable pub clear_bit : ℕ → ℕ → ℕ
clear_bit byte bit_idx = bit_and byte (255 - 2 ^ bit_idx)

-- The loop of `flag_pad_bits` with `n` rounds left.
unfoldable pub pad_from : ℕ → ℕ → ℕ → List ℕ → List ℕ
pad_from zero bit_pos flag_bit_idx buf = buf
pad_from (suc n) bit_pos flag_bit_idx buf =
    let byte_idx = bit_pos / 8 in
    let byte = get_or buf byte_idx 0 in
    let written =
      if bit_at 0x7E flag_bit_idx == 0
      then clear_bit byte (bit_pos % 8)
      else bit_or byte (2 ^ (bit_pos % 8)) in
    let rest = pad_from n (bit_pos + 1) ((flag_bit_idx + 1) % 8) (set buf byte_idx written) in
    if leb (length buf) byte_idx then buf else rest

unfoldable pub flag_pad_bits : List ℕ → ℕ → ℕ → List ℕ
flag_pad_bits buf start_bit end_bit = pad_from (end_bit - start_bit) start_bit 0 buf

-- The lowest `n` bits of a number from bit `b` on.
unfoldable pub bits_from : ℕ → ℕ → ℕ → List ℕ
bits_from zero b value = []
bits_from (suc n) b value = bit_at value b ∷ bits_from n (b + 1) value

unfoldable pub bytes_bits : List ℕ → List ℕ
bytes_bits [] = []
bytes_bits (byte ∷ bytes) = bits_from 8 0 byte ++ bytes_bits bytes

-- The three runs of `block.bits[block.bit_count] = …; block.bit_count += 1` write these bits one
-- behind the other.
unfoldable pub block_of : List ℕ → ℕ → Fx25Block
block_of bits tag_idx = record {
  bits = bits ++ replicate (max_encoded_bits - length bits) 0;
  bit_count = length bits;
  tag_index = tag_idx % 2 ^ 8;
}

-- The message block: the data, padded with flags to `k` bytes, and zeros.
unfoldable pub message_block : List ℕ → ℕ → ℕ → List ℕ
message_block hdlc_data hdlc_bit_count k =
    flag_pad_bits (hdlc_data ++ replicate (255 - length hdlc_data) 0) hdlc_bit_count (k * 8)

unfoldable pub encode_with : List ℕ → ℕ → ℕ → Fx25Tag → Option Fx25Block
encode_with hdlc_data hdlc_bit_count tag_idx tag =
    let message = message_block hdlc_data hdlc_bit_count tag.rs_k in
    if ltb tag.rs_k (length hdlc_data) || tag.check_bytes == 0
    then none
    else elim (rs_encode (take (255 - tag.check_bytes) message) tag.check_bytes (replicate 64 0)) [
      | err e ↦ none
      | ok parity ↦ some (
          block_of
            (bits_from 64 0 tag.tag
              ++ (bytes_bits (take tag.rs_k message) ++ bytes_bits (take tag.check_bytes parity)))
            tag_idx)
    ]

unfoldable pub encode_rs_block : List ℕ → ℕ → ℕ → Option Fx25Block
encode_rs_block hdlc_data hdlc_bit_count tag_idx = elim (get_elem? fx25_tags tag_idx) [
  | none ↦ none
  | some tag ↦ encode_with hdlc_data hdlc_bit_count tag_idx tag
]

-- `Vec::is_empty`
abbrev pub is_empty : List ℕ → Bool
is_empty [] = true
is_empty (x ∷ xs) = false

unfoldable pub fx25_encode : List ℕ → ℕ → Option Fx25Block
fx25_encode frame min_check_bytes =
    if min_check_bytes == 0 || is_empty frame then none else elim (hdlc_wrap frame) [
      | none ↦ none
      | some p ↦ elim (select_tag (byte_len p) min_check_bytes) [
        | none ↦ none
        | some tag_idx ↦ encode_rs_block (take (byte_len p) p.out) p.bit_pos tag_idx
      ]
    ]

unfoldable pub fx25_encode_with_tag : List ℕ → ℕ → Option Fx25Block
fx25_encode_with_tag frame tag_idx = if is_empty frame then none else elim (hdlc_wrap frame) [
  | none ↦ none
  | some p ↦ encode_rs_block (take (byte_len p) p.out) p.bit_pos tag_idx
]

-- `iter_bits`
unfoldable pub iter_bits : Fx25Block → List ℕ
iter_bits block = take block.bit_count block.bits
