-- ===== src/Kiss.antt =====
-- KISS framing: core/src/kiss/mod.rs. The decoder is its state record with `feed_byte`; the encoder
-- threads the output slice and the write position, and stops at the first byte that does not fit.
pub mod Encode
pub mod Decode
pub mod RoundTrip
pub mod Stream
pub mod Unescape
pub mod Sound
mod Tests
use packet_radio_rs.Base.{
  ℕ, ◌+◌, ◌*◌, ◌/◌, ◌^◌, Bool, true, false, ◌&&◌, Option, none, some, List, [], ◌∷◌, bit_and,
  bit_or, ltb, ◌==◌, if◌then◌else◌, length, get_or, set, take, drop, replicate,
}

-- The special bytes FEND, FESC, TFEND and TFESC.
abbrev pub fend : ℕ
fend = 0xC0

abbrev pub fesc : ℕ
fesc = 0xDB

abbrev pub tfend : ℕ
tfend = 0xDC

abbrev pub tfesc : ℕ
tfesc = 0xDD

pub data Command : Type 0 where
  data_frame tx_delay persistence slot_time tx_tail full_duplex set_hardware return : Command
  unknown : ℕ → Command

-- The `match cmd` of `from_byte`.
pub command_of : ℕ → Command
command_of cmd =
    if cmd == 0x00
    then data_frame
    else if cmd == 0x01
    then tx_delay
    else if cmd == 0x02
    then persistence
    else if cmd == 0x03
    then slot_time
    else if cmd == 0x04
    then tx_tail
    else if cmd == 0x05
    then full_duplex
    else if cmd == 0x06
    then set_hardware
    else if cmd == 0xFF
    then return
    else unknown cmd

-- `Command::from_byte`: the port from the high nibble, the command from the low one.
unfoldable pub from_byte : ℕ → ℕ × Command
unfolding command_of
from_byte byte = (bit_and (byte / 2 ^ 4) 0x0F, command_of (bit_and byte 0x0F))

-- The `match self` of `to_byte`.
pub code_of : Command → ℕ
code_of data_frame = 0x00
code_of tx_delay = 0x01
code_of persistence = 0x02
code_of slot_time = 0x03
code_of tx_tail = 0x04
code_of full_duplex = 0x05
code_of set_hardware = 0x06
code_of return = 0xFF
code_of (unknown c) = c

-- `Command::to_byte`.
unfoldable pub to_byte : Command → ℕ → ℕ
unfolding code_of
to_byte command port = bit_or (bit_and port 0x0F * 2 ^ 4) (bit_and (code_of command) 0x0F)

-- `buf` is the array of 512 bytes, of which `len` are in use.
pub record KissDecoder : Type 0 where
  pub buf : List ℕ
  pub len : ℕ
  pub in_frame : Bool
  pub escape : Bool
  pub overflow : Bool

-- What `feed_byte` reports: the port, the command and the slice `buf[1..len]`.
abbrev pub Packet : Type 0
Packet = ℕ × Command × List ℕ

pub new : KissDecoder
new = record { buf = replicate 512 0; len = 0; in_frame = false; escape = false; overflow = false }

pub reset : KissDecoder → KissDecoder
reset d = record d { len = 0; in_frame = false; escape = false; overflow = false }

pub push_byte : KissDecoder → ℕ → KissDecoder
push_byte d byte =
    if ltb d.len (length d.buf)
    then record d { buf = set d.buf d.len byte; len = d.len + 1 }
    else record d { overflow = true }

-- The packet that the buffer holds.
pub packet : KissDecoder → Packet
packet d =
    let (port, command) = from_byte (get_or d.buf 0 0) in (port, command, drop 1 (take d.len d.buf))

-- `feed_byte` at FEND.
pub feed_fend : KissDecoder → KissDecoder × Option Packet
feed_fend d =
    if d.in_frame && ltb 0 d.len
    then (if d.overflow then (reset d, none) else (record d { in_frame = false }, some (packet d)))
    else (record d { in_frame = true; len = 0; escape = false }, none)

pub feed_byte : KissDecoder → ℕ → KissDecoder × Option Packet
feed_byte d byte =
    if byte == fend
    then feed_fend d
    else if byte == fesc && d.in_frame
    then (record d { escape = true }, none)
    else if byte == tfend && (d.in_frame && d.escape)
    then (push_byte (record d { escape = false }) fend, none)
    else if byte == tfesc && (d.in_frame && d.escape)
    then (push_byte (record d { escape = false }) fesc, none)
    else if d.in_frame
    then (push_byte (record d { escape = false }) byte, none)
    else (d, none)

-- The caller's loop: the state after a run of bytes, and the packets reported on the way.
pub run : KissDecoder → List ℕ → KissDecoder
run d [] = d
run d (byte ∷ bytes) = run (feed_byte d byte).0 bytes

abbrev pub report : Option Packet → List Packet → List Packet
report none ps = ps
report (some p) ps = p ∷ ps

pub packets : KissDecoder → List ℕ → List Packet
packets d [] = []
packets d (byte ∷ bytes) = report (feed_byte d byte).1 (packets (feed_byte d byte).0 bytes)

-- The output slice of `encode_frame` and its `pos`.
pub record OutBuf : Type 0 where
  pub out : List ℕ
  pub pos : ℕ

-- A write that succeeded, or the buffer as the first refused write left it.
pub data Attempt : Type 0 where
  wrote : OutBuf → Attempt
  full : OutBuf → Attempt

infixl 5 ◌>>=◌
abbrev pub ◌>>=◌ : Attempt → (OutBuf → Attempt) → Attempt
wrote b >>= k = k b
full b >>= k = full b

-- The closure `write`.
pub write : ℕ → OutBuf → Attempt
write byte b =
    if ltb b.pos (length b.out)
    then wrote (record { out = set b.out b.pos byte; pos = b.pos + 1 })
    else full b

pub write_escaped : ℕ → OutBuf → Attempt
write_escaped byte b =
    if byte == fend
    then write fesc b >>= write tfend
    else if byte == fesc
    then write fesc b >>= write tfesc
    else write byte b

pub write_data : List ℕ → OutBuf → Attempt
write_data [] b = wrote b
write_data (byte ∷ bytes) b = write_escaped byte b >>= write_data bytes

-- The output slice afterwards, with the number of bytes written or `none`.
pub outcome : Attempt → List ℕ × Option ℕ
outcome (wrote b) = (b.out, some b.pos)
outcome (full b) = (b.out, none)

pub encode_frame : ℕ → List ℕ → List ℕ → List ℕ × Option ℕ
encode_frame port bytes out = outcome (
    write fend (record { out = out; pos = 0 })
    >>= write (to_byte data_frame port)
    >>= write_data bytes
    >>= write fend)
