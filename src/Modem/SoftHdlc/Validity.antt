-- ===== src/Modem/SoftHdlc/Validity.antt =====
-- `is_valid_ax25_frame` of core/src/modem/soft_hdlc.rs.
use packet_radio_rs.Base.{
  ℕ, zero, suc, ◌+◌, ◌/◌, Bool, true, false, ◌&&◌, ◌||◌, Option, none, some, List, bit_and, ltb,
  leb, ◌==◌, if◌then◌else◌, length, get_or,
}

-- A letter or a digit.
unfoldable pub is_call_char : ℕ → Bool
is_call_char ch = (leb 0x30 ch && leb ch 0x39) || (leb 0x41 ch && leb ch 0x5A)

-- The loop of `validate_callsign` with `n` rounds left.
unfoldable pub callsign_from : ℕ → ℕ → List ℕ → Bool → Bool
callsign_from zero i bytes has_nonspace = has_nonspace
callsign_from (suc n) i bytes has_nonspace =
    let ch = get_or bytes i 0 / 2 in
    let rest = callsign_from n (i + 1) bytes (if ch == 0x20 then has_nonspace else true) in
    if ch == 0x20 then rest else if is_call_char ch then rest else false

unfoldable pub validate_callsign : List ℕ → ℕ → Bool
validate_callsign bytes start = callsign_from 6 start bytes false

-- The loop over the digipeater addresses from `pos` on: the end of the last address, or none where
-- the source returns false. The loop ends at 77 at the latest, so that nine rounds are enough.
unfoldable pub walk_from : ℕ → ℕ → List ℕ → Option ℕ
walk_from zero pos bytes = none
walk_from (suc n) pos bytes =
    let rest = walk_from n (pos + 7) bytes in
    if ltb (length bytes) (pos + 7)
    then none
    else if validate_callsign bytes pos
    then (if bit_and (get_or bytes (pos + 6) 0) 0x01 == 0
        then (if ltb 70 (pos + 7) then none else rest)
        else some (pos + 7))
    else none

-- The end of the addresses.
unfoldable pub address_end : List ℕ → Option ℕ
address_end bytes = if bit_and (get_or bytes 13 0) 0x01 == 0 then walk_from 9 14 bytes else some 14

-- The control and PID fields at `pos`.
unfoldable pub fields_valid : List ℕ → ℕ → Bool
fields_valid bytes pos =
    let ctrl = get_or bytes pos 0 in
    let pid = get_or bytes (pos + 1) 0 in
    if ltb (length bytes) (pos + 2)
    then false
    else (ctrl == 0x03 || ctrl == 0x13) && (pid == 0xF0 || pid == 0xCF)

unfoldable pub is_valid_ax25_frame : List ℕ → Bool
is_valid_ax25_frame bytes =
    if ltb (length bytes) 16
    then false
    else if validate_callsign bytes 0 && validate_callsign bytes 7
    then elim (address_end bytes) [ none ↦ false | some pos ↦ fields_valid bytes pos ]
    else false
