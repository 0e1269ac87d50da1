-- ===== src/Ax25/Limits.antt =====
-- The limits that core/src/lib.rs and core/src/ax25 share.
use packet_radio_rs.Base.{ℕ}

-- MAX_FRAME_LEN
abbrev pub max_frame_len : ℕ
max_frame_len = 330

-- MAX_INFO_LEN
abbrev pub max_info_len : ℕ
max_info_len = 256

-- MAX_DIGIPEATERS
abbrev pub max_digipeaters : ℕ
max_digipeaters = 8

-- MAX_CALLSIGN_LEN
abbrev pub max_callsign_len : ℕ
max_callsign_len = 6

-- MAX_ENCODED_BITS
abbrev pub max_encoded_bits : ℕ
max_encoded_bits = 4096
