-- ===== src/Modem/FrameOutput.antt =====
-- The buffer of decoded frames of core/src/modem/frame_output.rs.
pub mod Slots
mod Tests
use packet_radio_rs.Base.{
  ℕ, ◌+◌, ◌%◌, ◌^◌, min, Bool, true, false, Option, none, some, List, [], ◌∷◌, ◌++◌, leb, ◌==◌,
  if◌then◌else◌, length, get_or, set, take, drop, replicate,
}

-- MAX_FRAME_SIZE
abbrev pub max_frame_size : ℕ
max_frame_size = 330

pub record DecodedFrame : Type 0 where
  pub data_bytes : List ℕ
  pub len : ℕ
  pub cost : ℕ

pub record FrameOutputBuffer : Type 0 where
  pub frames : List DecodedFrame
  pub count : ℕ

abbrev pub blank : DecodedFrame
blank = record { data_bytes = replicate max_frame_size 0; len = 0; cost = 0 }

-- A buffer of capacity `n`.
pub new : ℕ → FrameOutputBuffer
new n = record { frames = replicate n blank; count = 0 }

pub is_full : FrameOutputBuffer → Bool
is_full b = leb (length b.frames) b.count

pub is_empty : FrameOutputBuffer → Bool
is_empty b = b.count == 0

-- For an index inside the buffer.
pub frame : FrameOutputBuffer → ℕ → List ℕ
frame b index = let f = get_or b.frames index blank in take f.len f.data_bytes

-- The bytes, their number and the cost of a frame, written into its place.
pub store : DecodedFrame → List ℕ → ℕ → DecodedFrame
store f bytes cost =
    let len = min (length bytes) max_frame_size in
    record { data_bytes = take len bytes ++ drop len f.data_bytes; len = len; cost = cost }

pub push_with_cost : FrameOutputBuffer → List ℕ → ℕ → Option ℕ × FrameOutputBuffer
push_with_cost b bytes cost = if leb (length b.frames) b.count then (none, b) else (
  some (b.count % 2 ^ 8),
  record {
    frames = set b.frames b.count (store (get_or b.frames b.count blank) bytes cost);
    count = b.count + 1;
  },
)

pub push : FrameOutputBuffer → List ℕ → Option ℕ × FrameOutputBuffer
push b bytes = push_with_cost b bytes 0

pub replace : FrameOutputBuffer → ℕ → List ℕ → ℕ → Bool × FrameOutputBuffer
replace b slot bytes cost = if leb b.count slot then (false, b) else (
  true,
  record b { frames = set b.frames slot (store (get_or b.frames slot blank) bytes cost) },
)
