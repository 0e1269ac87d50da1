-- ===== src/Fx25/Decode.antt =====
-- The FX.25 decoder: core/src/fx25/decode.rs.
pub mod Tagged
pub mod Extract
pub mod Collect
use packet_radio_rs.Base.{
  ℕ, zero, suc, ◌+◌, ◌-◌, ◌*◌, ◌/◌, ◌%◌, ◌^◌, min, Bool, true, false, not, Option, none, some, List,
  [], ◌∷◌, ◌++◌, bit_and, bit_or, ltb, leb, ◌==◌, if◌then◌else◌, length, get_or, set, take, drop,
  replicate,
}
use packet_radio_rs.Ax25.Hdlc
use packet_radio_rs.Ax25.Hdlc.{HdlcDecoder}
use packet_radio_rs.Fx25.Tags.{Fx25Tag, fx25_tags, match_tag}
use packet_radio_rs.Fx25.Rs.{RsResult, ok, err, rs_decode}
use packet_radio_rs.Fx25.Encode.{bytes_bits}

-- MAX_BLOCK
abbrev pub max_block : ℕ
max_block = 255

-- DEFAULT_MAX_HAMMING
abbrev pub default_max_hamming : ℕ
default_max_hamming = 5

-- MIN_BITS_BEFORE_DETECT
abbrev pub min_bits_before_detect : ℕ
min_bits_before_detect = 64

pub data State : Type 0 where
  hunting accumulating : State

-- The public counters.
pub record Stats : Type 0 where
  pub tags_detected : ℕ
  pub rs_clean : ℕ
  pub rs_corrected : ℕ
  pub rs_failed : ℕ

pub record Fx25Decoder : Type 0 where
  pub shift_reg : ℕ
  pub bits_shifted : ℕ
  pub state : State
  pub block_buf : List ℕ
  pub current_byte : ℕ
  pub bit_count : ℕ
  pub byte_count : ℕ
  pub target_bytes : ℕ
  pub tag_index : ℕ
  pub output_buf : List ℕ
  pub output_len : ℕ
  pub max_hamming : ℕ
  pub last_block_bits : ℕ
  pub stats : Stats

unfoldable pub new : Fx25Decoder
new = record {
  shift_reg = 0;
  bits_shifted = 0;
  state = hunting;
  block_buf = replicate max_block 0;
  current_byte = 0;
  bit_count = 0;
  byte_count = 0;
  target_bytes = 0;
  tag_index = 0;
  output_buf = replicate max_block 0;
  output_len = 0;
  max_hamming = default_max_hamming;
  last_block_bits = 0;
  stats = record { tags_detected = 0; rs_clean = 0; rs_corrected = 0; rs_failed = 0 };
}

unfoldable pub with_max_hamming : Fx25Decoder → ℕ → Fx25Decoder
with_max_hamming d max = record d { max_hamming = max }

unfoldable pub reset : Fx25Decoder → Fx25Decoder
reset d = record d {
  shift_reg = 0;
  bits_shifted = 0;
  state = hunting;
  bit_count = 0;
  byte_count = 0;
  output_len = 0;
}

-- A counter of 32 bits.
abbrev count_up : ℕ → ℕ
count_up n = (n + 1) % 2 ^ 32

-- The tag at an index.
abbrev pub tag_at : ℕ → Fx25Tag
tag_at idx = get_or fx25_tags idx (record { tag = 0; rs_n = 0; rs_k = 0; check_bytes = 0 })

-- A tag was matched: switch to accumulation.
unfoldable pub start_block : Fx25Decoder → ℕ → Fx25Decoder
start_block d idx = record d {
  state = accumulating;
  tag_index = idx % 2 ^ 8;
  target_bytes = (tag_at idx).rs_n;
  byte_count = 0;
  bit_count = 0;
  current_byte = 0;
  stats = record d.stats { tags_detected = count_up d.stats.tags_detected };
}

-- The search for a tag in the shift register.
unfoldable pub detect : Fx25Decoder → Fx25Decoder
detect d = elim (match_tag d.shift_reg d.max_hamming) [
  | none ↦ d
  | some (idx, dist) ↦ if (tag_at idx).check_bytes == 0 then d else start_block d idx
]

unfoldable pub hunt : Fx25Decoder → Bool → Fx25Decoder
hunt d bit =
    let shifted = record d {
      shift_reg = bit_or (d.shift_reg / 2) (if bit then 2 ^ 63 else 0);
      bits_shifted = min (d.bits_shifted + 1) 255;
    } in
    if leb min_bits_before_detect shifted.bits_shifted then detect shifted else shifted

-- The received bytes in the layout of the codeword.
unfoldable pub full_block : Fx25Tag → List ℕ → List ℕ
full_block tag block_buf =
    take tag.rs_k block_buf
    ++ (replicate (255 - tag.check_bytes - tag.rs_k) 0 ++ drop tag.rs_k (take tag.rs_n block_buf))

-- The loop over the bits: the first frame of at least 15 bytes.
unfoldable pub first_frame : HdlcDecoder → List ℕ → Option (List ℕ)
first_frame hdlc [] = none
first_frame hdlc (bit ∷ bits) =
    let (after, reported) = Hdlc.feed_bit hdlc (not (bit == 0)) in
    let rest = first_frame after bits in
    elim reported [ none ↦ rest | some frame ↦ if leb 15 (length frame) then some frame else rest ]

-- `// No valid HDLC frame found in RS data` or the frame in the output buffer.
unfoldable pub store_frame : Fx25Decoder → Option (List ℕ) → Fx25Decoder
store_frame d none = d
store_frame d (some frame) =
    let len = min (length frame) max_block in
    record d { output_buf = take len frame ++ drop len d.output_buf; output_len = len }

unfoldable pub count_result : Fx25Decoder → ℕ → Fx25Decoder
count_result d corrections =
    if corrections == 0
    then record d { stats = record d.stats { rs_clean = count_up d.stats.rs_clean } }
    else record d { stats = record d.stats { rs_corrected = count_up d.stats.rs_corrected } }

-- What follows the RS decoding.
unfoldable pub extract : Fx25Decoder → ℕ → RsResult (ℕ × List ℕ) → Fx25Decoder
extract d k (err e) = record d { stats = record d.stats { rs_failed = count_up d.stats.rs_failed } }
extract d k (ok (corrections, corrected)) =
    store_frame (count_result d corrections) (first_frame Hdlc.new (bytes_bits (take k corrected)))

unfoldable pub decode_block : Fx25Decoder → Fx25Decoder
decode_block d =
    let tag = tag_at d.tag_index in
    extract d tag.rs_k (rs_decode (full_block tag d.block_buf) 255 tag.check_bytes)

-- The full block: decode it, and hunt for the next.
unfoldable pub finish_block : Fx25Decoder → Option (List ℕ) × Fx25Decoder
finish_block d =
    let decoded = decode_block (record d { last_block_bits = 64 + d.target_bytes * 8 }) in
    (
      if ltb 0 decoded.output_len then some (take decoded.output_len decoded.output_buf) else none,
      record decoded { state = hunting; shift_reg = 0; bits_shifted = 0 },
    )

-- A byte is complete.
unfoldable pub store_byte : Fx25Decoder → Option (List ℕ) × Fx25Decoder
store_byte d =
    let room = ltb d.byte_count max_block in
    let stored = record d {
      block_buf = if room then set d.block_buf d.byte_count d.current_byte else d.block_buf;
      byte_count = if room then d.byte_count + 1 else d.byte_count;
      current_byte = 0;
      bit_count = 0;
    } in
    if leb stored.target_bytes stored.byte_count then finish_block stored else (none, stored)

unfoldable pub accumulate : Fx25Decoder → Bool → Option (List ℕ) × Fx25Decoder
accumulate d bit =
    let taken = record d {
      current_byte = if bit then bit_or d.current_byte (2 ^ d.bit_count) else d.current_byte;
      bit_count = d.bit_count + 1;
    } in
    if taken.bit_count == 8 then store_byte taken else (none, taken)

-- The `match self.state`.
unfoldable pub feed_in : State → Fx25Decoder → Bool → Option (List ℕ) × Fx25Decoder
feed_in hunting d bit = (none, hunt d bit)
feed_in accumulating d bit = accumulate d bit

unfoldable pub feed_bit : Fx25Decoder → Bool → Option (List ℕ) × Fx25Decoder
feed_bit d bit = feed_in d.state (record d { output_len = 0 }) bit

abbrev pub with_report : Option (List ℕ) → List (List ℕ) → List (List ℕ)
with_report none outs = outs
with_report (some frame) outs = frame ∷ outs

-- A stream of bits: the frames that come out, and the decoder afterwards.
unfoldable pub feed_bits : Fx25Decoder → List ℕ → List (List ℕ) × Fx25Decoder
feed_bits d [] = ([], d)
feed_bits d (bit ∷ bits) =
    let (out, next) = feed_bit d (not (bit == 0)) in
    let (outs, after) = feed_bits next bits in (with_report out outs, after)
