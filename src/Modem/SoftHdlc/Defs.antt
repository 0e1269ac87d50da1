-- ===== src/Modem/SoftHdlc/Defs.antt =====
-- The state of `SoftHdlcDecoder` and its constants, of core/src/modem/soft_hdlc.rs and
-- core/src/modem/mod.rs.
use packet_radio_rs.Base.{ℕ, ◌+◌, ◌%◌, ◌^◌, min, ℤ, pos, List, replicate}

-- MAX_FRAME_BITS
abbrev pub max_frame_bits : ℕ
max_frame_bits = 3200

-- MAX_FLIP_CANDIDATES
abbrev pub max_flip_candidates : ℕ
max_flip_candidates = 12

-- FLIP_CONFIDENCE_THRESHOLD
abbrev pub flip_confidence_threshold : ℕ
flip_confidence_threshold = 96

-- TRIPLE_FLIP_LIMIT
abbrev pub triple_flip_limit : ℕ
triple_flip_limit = 8

-- MAX_FRAME_BYTES
abbrev pub max_frame_bytes : ℕ
max_frame_bytes = 400

-- CRC_RESIDUE
abbrev pub crc_residue : ℕ
crc_residue = 0x0F47

-- CRC_POLY_REFLECTED
abbrev pub crc_poly_reflected : ℕ
crc_poly_reflected = 0x8408

pub data FrameResult : Type 0 where
  valid : List ℕ → FrameResult
  recovered : List ℕ → ℕ → ℕ → FrameResult

pub data HdlcState : Type 0 where
  hunting receiving : HdlcState

-- The thresholds that `with_thresholds` sets.
pub record Thresholds : Type 0 where
  pub candidates : ℕ
  pub confidence : ℕ
  pub triples : ℕ

-- The public counters.
pub record Stats : Type 0 where
  pub hard_decode : ℕ
  pub syndrome : ℕ
  pub single_flip : ℕ
  pub pair_flip : ℕ
  pub nrzi_pair : ℕ
  pub triple_flip : ℕ
  pub nrzi_triple : ℕ
  pub crc_failures : ℕ
  pub false_positives : ℕ

-- A counter of 32 bits.
abbrev pub count_up : ℕ → ℕ
count_up n = (n + 1) % 2 ^ 32

pub record SoftHdlcDecoder : Type 0 where
  pub soft_bits : List ℤ
  pub hard_bits : List ℕ
  pub bit_count : ℕ
  pub state : HdlcState
  pub ones_count : ℕ
  pub shift_reg : ℕ
  pub shift_count : ℕ
  pub frame_buf : List ℕ
  pub current_byte : ℕ
  pub byte_bit_count : ℕ
  pub frame_len : ℕ
  pub thresholds : Thresholds
  pub stats : Stats

-- `SoftHdlcDecoder::new`
unfoldable pub new : SoftHdlcDecoder
new = record {
  soft_bits = replicate max_frame_bits (pos 0);
  hard_bits = replicate max_frame_bits 0;
  bit_count = 0;
  state = hunting;
  ones_count = 0;
  shift_reg = 0;
  shift_count = 0;
  frame_buf = replicate max_frame_bytes 0;
  current_byte = 0;
  byte_bit_count = 0;
  frame_len = 0;
  thresholds = record {
    candidates = max_flip_candidates;
    confidence = flip_confidence_threshold;
    triples = triple_flip_limit;
  };
  stats = record {
    hard_decode = 0;
    syndrome = 0;
    single_flip = 0;
    pair_flip = 0;
    nrzi_pair = 0;
    triple_flip = 0;
    nrzi_triple = 0;
    crc_failures = 0;
    false_positives = 0;
  };
}

unfoldable pub with_thresholds : ℕ → ℕ → ℕ → SoftHdlcDecoder
unfolding new
with_thresholds candidates confidence triples = record new {
  thresholds = record {
    candidates = min candidates max_flip_candidates;
    confidence = confidence;
    triples = min triples max_flip_candidates;
  };
}

-- `stats_total_soft_recovered`
unfoldable pub total_soft_recovered : SoftHdlcDecoder → ℕ
total_soft_recovered d =
    (d.stats.syndrome + d.stats.single_flip + d.stats.pair_flip + d.stats.nrzi_pair
      + d.stats.triple_flip + d.stats.nrzi_triple)
    % 2 ^ 32

unfoldable pub reset : SoftHdlcDecoder → SoftHdlcDecoder
reset d = record d {
  bit_count = 0;
  state = hunting;
  ones_count = 0;
  shift_reg = 0;
  shift_count = 0;
  current_byte = 0;
  byte_bit_count = 0;
  frame_len = 0;
}
