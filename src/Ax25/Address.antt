-- ===== src/Ax25/Address.antt =====
-- `Address` of core/src/ax25/mod.rs: six shifted ASCII characters and the SSID byte.
pub mod RoundTrip
use packet_radio_rs.Base.{
  ℕ, zero, suc, ◌+◌, ◌*◌, ◌/◌, ◌%◌, ◌^◌, Bool, true, false, not, List, [], ◌∷◌, ◌++◌, map, bit_and,
  bit_or, ◌==◌, if◌then◌else◌, get_or, set, take, replicate,
}
use packet_radio_rs.Ax25.Limits.{max_callsign_len}

pub record Address : Type 0 where
  pub callsign : List ℕ
  pub callsign_len : ℕ
  pub ssid : ℕ
  pub h_bit : Bool

-- The loop `for i in 0..6` of `from_bytes`, with `n` rounds left.
unfoldable pub read_callsign : ℕ → ℕ → List ℕ → List ℕ → ℕ → List ℕ × ℕ
read_callsign zero i bytes callsign len = (callsign, len)
read_callsign (suc n) i bytes callsign len =
    let ch = get_or bytes i 0 / 2 in
    read_callsign n (i + 1) bytes (set callsign i ch) (if ch == b' ' then len else i + 1)

unfoldable pub from_bytes : List ℕ → Address
from_bytes bytes =
    let (callsign, len) = read_callsign 6 0 bytes (replicate max_callsign_len b' ') 0 in
    let ssid_byte = get_or bytes 6 0 in
    record {
      callsign = callsign;
      callsign_len = len;
      ssid = bit_and (ssid_byte / 2) 0x0F;
      h_bit = not (bit_and ssid_byte 0x80 == 0);
    }

-- The byte `buf[6]` of `to_bytes`.
unfoldable pub ssid_byte : Address → Bool → ℕ
ssid_byte a is_last =
    let base = bit_or (a.ssid * 2 % 2 ^ 8) (if a.h_bit then 0x80 else 0) in
    if is_last then bit_or base 0x01 else base

-- `to_bytes` overwrites all seven bytes of its buffer.
unfoldable pub to_bytes : Address → Bool → List ℕ
to_bytes a is_last = map (λ ch. ch * 2 % 2 ^ 8) a.callsign ++ ssid_byte a is_last ∷ []

-- `callsign_str`
unfoldable pub callsign_str : Address → List ℕ
callsign_str a = take a.callsign_len a.callsign
