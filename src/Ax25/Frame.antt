-- ===== src/Ax25/Frame.antt =====
-- `Frame::try_parse` of core/src/ax25/mod.rs.
pub mod Slices
pub mod Digipeaters
pub mod RoundTrip
pub mod Extent
pub mod Outcome
mod Tests
use packet_radio_rs.Base.{
  ℕ, zero, suc, ◌+◌, Bool, true, false, not, Option, none, some, List, [], ◌∷◌, bit_and, leb, ltb,
  ◌==◌, if◌then◌else◌, length, get_or, set, take, drop, replicate,
}
use packet_radio_rs.Ax25.Limits.{max_callsign_len, max_digipeaters, max_info_len}
use packet_radio_rs.Ax25.Address.{Address, from_bytes}

pub data FrameError : Type 0 where
  too_short bad_crc invalid_address info_too_long : FrameError

pub record Frame : Type 0 where
  pub dest : Address
  pub src : Address
  pub digipeaters : List Address
  pub num_digipeaters : ℕ
  pub control : ℕ
  pub pid : ℕ
  pub info : List ℕ

-- `Result` with `FrameError`.
pub data Result (A : Type 0) : Type 0 where
  ok : A → Result A
  err : FrameError → Result A

infixl 5 ◌>>=◌
abbrev pub ◌>>=◌ : {A B : Type 0} → Result A → (A → Result B) → Result B
ok a >>= f = f a
err e >>= f = err e

-- `data[pos..pos + n]`, short where the data end before.
abbrev pub slice : List ℕ → ℕ → ℕ → List ℕ
slice bytes pos n = take n (drop pos bytes)

-- `data[pos..pos + 7].try_into()` and the address it holds.
pub address_at : List ℕ → ℕ → Result Address
address_at bytes pos =
    if length (slice bytes pos 7) == 7
    then ok (from_bytes (slice bytes pos 7))
    else err invalid_address

-- The address that fills the unused places of `digipeaters`.
abbrev pub blank : Address
blank = record {
  callsign = replicate max_callsign_len b' ';
  callsign_len = 0;
  ssid = 0;
  h_bit = false;
}

-- The variables of the loop over the digipeater addresses.
pub record Route : Type 0 where
  pub digipeaters : List Address
  pub num_digipeaters : ℕ
  pub pos : ℕ

-- One more address.
abbrev pub next_route : Route → Address → Route
next_route p a = record {
  digipeaters = set p.digipeaters p.num_digipeaters a;
  num_digipeaters = p.num_digipeaters + 1;
  pos = p.pos + 7;
}

-- The `while` loop. `n` is MAX_DIGIPEATERS less the addresses read so far, so that the second part
-- of its condition fails at zero.
pub read_route : ℕ → List ℕ → Route → Result Route
read_route zero bytes p = ok p
read_route (suc n) bytes p =
    let is_last = not (bit_and (get_or bytes (p.pos + 6) 0) 0x01 == 0) in
    let rest = λ (a : Address). read_route n bytes (next_route p a) in
    if leb (p.pos + 7) (length bytes)
    then address_at bytes p.pos >>= (λ a. if is_last then ok (next_route p a) else rest a)
    else ok p

-- The variables before the loop.
abbrev pub start_route : Route
start_route = record {
  digipeaters = replicate max_digipeaters blank;
  num_digipeaters = 0;
  pos = 14;
}

-- `if (data[13] & 0x01) == 0 { while ... }`
pub read_digipeaters : List ℕ → Result Route
read_digipeaters bytes =
    if bit_and (get_or bytes 13 0) 0x01 == 0
    then read_route max_digipeaters bytes start_route
    else ok start_route

-- The fields behind the addresses.
pub finish : List ℕ → Address → Address → Route → Result Frame
finish bytes dest src p =
    if ltb (length bytes) (p.pos + 2)
    then err too_short
    else if ltb max_info_len (length (drop (p.pos + 2) bytes))
    then err info_too_long
    else ok (record {
      dest = dest;
      src = src;
      digipeaters = p.digipeaters;
      num_digipeaters = p.num_digipeaters;
      control = get_or bytes p.pos 0;
      pid = get_or bytes (p.pos + 1) 0;
      info = drop (p.pos + 2) bytes;
    })

pub try_parse : List ℕ → Result Frame
try_parse bytes = if ltb (length bytes) 15 then err too_short else do
  dest ← address_at bytes 0
  src ← address_at bytes 7
  path ← read_digipeaters bytes
  finish bytes dest src path

-- `Frame::parse`, by `Result::ok`.
pub parse : List ℕ → Option Frame
parse bytes = elim (try_parse bytes) [ ok f ↦ some f | err e ↦ none ]

-- `Frame::is_ui`
pub is_ui : Frame → Bool
is_ui f = f.control == 0x03
