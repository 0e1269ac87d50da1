-- ===== src/Ax25/Build.antt =====
-- `build_test_frame` and `address_from_str` of core/src/ax25/frame.rs.
pub mod RoundTrip
mod Tests
use packet_radio_rs.Base.{
  ℕ, ◌+◌, ◌-◌, min, Bool, true, false, List, [], ◌∷◌, ◌++◌, length, set, take, drop, replicate,
}
use packet_radio_rs.Ax25.Limits.{max_frame_len, max_callsign_len}
use packet_radio_rs.Ax25.Address.{Address, to_bytes}

-- `buf[pos..pos + bytes.len()].copy_from_slice(bytes)`, for a range inside the buffer.
abbrev pub copy_at : List ℕ → ℕ → List ℕ → List ℕ
copy_at buf pos bytes = take pos buf ++ (bytes ++ drop (pos + length bytes) buf)

pub address_from_str : List ℕ → Address
address_from_str call =
    let len = min (length call) 6 in
    record {
      callsign = copy_at (replicate max_callsign_len b' ') 0 (take len call);
      callsign_len = len;
      ssid = 0;
      h_bit = false;
    }

-- The buffer and the number of its valid bytes.
pub build_test_frame : List ℕ → List ℕ → List ℕ → List ℕ × ℕ
build_test_frame src dest info =
    let buf = replicate max_frame_len 0 in
    let buf = copy_at buf 0 (to_bytes (address_from_str dest) false) in
    let buf = copy_at buf 7 (to_bytes (address_from_str src) true) in
    let buf = set buf 14 0x03 in
    let buf = set buf 15 0xF0 in
    let info_len = min (length info) (max_frame_len - 16) in
    (copy_at buf 16 (take info_len info), 16 + info_len)
