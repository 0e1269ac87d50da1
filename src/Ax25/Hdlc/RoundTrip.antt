-- ===== src/Ax25/Hdlc/RoundTrip.antt =====
-- A decoder that reads what `hdlc_encode` wrote reports the frame that was encoded.
use packet_radio_rs.Base.{
  ℕ, ◌-◌, ◌/◌, ◌%◌, ◌^◌, ◌≤◌, ◌<◌, ◌≡◌, refl, sym, ap, ap₂, ◌∙◌, arith, some, List, [], ◌∷◌, ◌++◌,
  All, All-append, length, take, length-append, take-append, take-take, replicate, length-replicate,
}
use packet_radio_rs.Ax25.Limits.{max_frame_len}
use packet_radio_rs.Ax25.Crc.{crc16_ccitt}
use packet_radio_rs.Ax25.Crc.Residue.{crc16_ccitt_residue}
use packet_radio_rs.Ax25.Hdlc.{
  HdlcDecoder, hunting, receiving, new, check_frame, run, frames, hdlc_encode, feed_bit,
  feed_shifted, feed_in, shift_in, start_frame,
}
use packet_radio_rs.Ax25.Hdlc.Stuffing.{bits_of, stuff, ones_after, flag_bits, with_crc, on_air}
use packet_radio_rs.Ax25.Hdlc.Encode.{hdlc_encode-Carries}
use packet_radio_rs.Ax25.Hdlc.Registers.{InFrame, reg_bound-le, frames-append}
use packet_radio_rs.Ax25.Hdlc.Receive.{Got, receive_bytes, ones_after-le}
use packet_radio_rs.Ax25.Hdlc.Flag.{framing, synced, Runs, Runs-append, synced_flag, framing_flag}

-- The next flag leaves the decoder ready for a frame, and reports nothing.
pub record IsReady (d : HdlcDecoder) : Type 0 where
  pub buf : List ℕ
  pub size : length buf ≡ max_frame_len
  pub syncs : Runs d flag_bits (synced buf) []

hunting_flag :
    (buf : List ℕ)
    → Runs
        (record {
          state = hunting;
          shift_reg = 0;
          ones_count = 0;
          frame_buf = buf;
          current_byte = 0;
          bit_index = 0;
          frame_len = 0;
        })
        flag_bits
        (synced buf)
        []
unfolding run frames feed_bit feed_shifted feed_in shift_in check_frame start_frame
hunting_flag buf = record { reached = refl; reported = refl }

pub new-IsReady : IsReady new
unfolding new
new-IsReady = record {
  buf = replicate max_frame_len 0;
  size = length-replicate {A = ℕ} max_frame_len 0;
  syncs = hunting_flag (replicate max_frame_len 0);
}

synced-IsReady : (buf : List ℕ) → length buf ≡ max_frame_len → IsReady (synced buf)
synced-IsReady buf h = record { buf = buf; size = h; syncs = synced_flag buf }

-- The four flags in front of a frame.
preamble :
    {d : HdlcDecoder} (i : IsReady d)
    → Runs d (flag_bits ++ (flag_bits ++ (flag_bits ++ flag_bits))) (synced i.buf) []
preamble i =
    let again = synced_flag i.buf in
    Runs-append i.syncs (Runs-append again (Runs-append again again))

-- What `check_frame` finds behind a frame and its CRC.
check_frame-with_crc :
    (bytes buf : List ℕ) (len : ℕ)
    → 15 ≤ length bytes
    → len ≡ length (with_crc bytes)
    → take len buf ≡ with_crc bytes
    → check_frame receiving (framing buf len 0 0 0 0) ≡ some bytes
unfolding check_frame
check_frame-with_crc bytes buf len h e t =
    let crc = crc16_ccitt bytes in
    let trailer : List ℕ = (crc % 2 ^ 8) ∷ ((crc / 2 ^ 8) % 2 ^ 8) ∷ [] in
    let long = length-append bytes trailer in
    let front : len - 2 ≡ length bytes = omega arith in
    let residue : crc16_ccitt (take len buf) ≡ 0x0F47 =
      ap crc16_ccitt t ∙ crc16_ccitt_residue bytes in
    let kept : take (len - 2) buf ≡ bytes =
      sym (take-take (len - 2) len buf (omega arith))
      ∙ ap₂ take front t
      ∙ take-append bytes trailer in
    rw (residue, kept) (ground arith)

-- Behind the data and its CRC, the closing flag reports the data.
closing :
    (bytes : List ℕ) (ones : ℕ) (d : HdlcDecoder)
    → 15 ≤ length bytes
    → ones ≤ 4
    → InFrame ones d
    → Got (with_crc bytes) d
    → Runs d flag_bits (synced d.frame_buf) (bytes ∷ [])
closing bytes ones d h o f g =
    let reported = check_frame-with_crc bytes d.frame_buf d.frame_len h g.filled g.held in
    let shape : framing d.frame_buf d.frame_len d.shift_reg ones 0 0 ≡ d =
      ground (arith, f.inside, f.counted, g.cleared, g.no_bits) in
    let small : d.shift_reg < 252 = omega (arith, reg_bound-le ones, f.bounded) in
    rw reported at (rw shape at (framing_flag d.frame_buf d.frame_len d.shift_reg ones o small))

with_crc-bytes : (bytes : List ℕ) → All (λ b. b < 256) bytes → All (λ b. b < 256) (with_crc bytes)
with_crc-bytes bytes h =
    let crc = crc16_ccitt bytes in
    All-append (λ b. b < 256) bytes ((crc % 2 ^ 8) ∷ ((crc / 2 ^ 8) % 2 ^ 8) ∷ []) h (omega arith)

-- What `hdlc_encode` can send and `feed_bit` can receive.
abbrev pub CanReceive : List ℕ → Type 0
CanReceive bytes = All (λ b. b < 256) bytes × (15 ≤ length bytes) × (length bytes ≤ 328)

-- The frame behind its flags.
framed :
    (bytes buf : List ℕ)
    → length buf ≡ max_frame_len
    → CanReceive bytes
    → (buf' : List ℕ) × (length buf' ≡ max_frame_len)
      × Runs
          (synced buf)
          (stuff 0 (bits_of (with_crc bytes)) ++ flag_bits)
          (synced buf')
          (bytes ∷ [])
framed bytes buf size (small, long, short) =
    let bits = stuff 0 (bits_of (with_crc bytes)) in
    let crc = crc16_ccitt bytes in
    let trailer : List ℕ = (crc % 2 ^ 8) ∷ ((crc / 2 ^ 8) % 2 ^ 8) ∷ [] in
    let start : InFrame 0 (synced buf) = record {
      inside = refl;
      counted = refl;
      bounded = omega arith;
      byte_fits = omega arith;
    } in
    let empty : Got [] (synced buf) = record {
      size = size;
      filled = refl;
      held = refl;
      no_bits = refl;
      cleared = refl;
    } in
    let r =
      receive_bytes (with_crc bytes) 0 [] (synced buf) (omega arith) (with_crc-bytes bytes small)
        start empty (omega (arith, length-append bytes trailer)) in
    let d = run (synced buf) bits in
    let last =
      closing bytes (ones_after 0 (bits_of (with_crc bytes))) d long
        (ones_after-le (bits_of (with_crc bytes)) 0 (omega arith)) r.frame r.bytes in
    (d.frame_buf, r.bytes.size, Runs-append (record { reached = refl; reported = r.silent }) last)

-- A new decoder reports a frame between two flags.
pub frames-flagged :
    (bytes : List ℕ)
    → CanReceive bytes
    → frames new (flag_bits ++ (stuff 0 (bits_of (with_crc bytes)) ++ flag_bits)) ≡ bytes ∷ []
frames-flagged bytes c =
    let (buf, size, r) = framed bytes new-IsReady.buf new-IsReady.size c in
    (Runs-append new-IsReady.syncs r).reported

-- A ready decoder reports a frame on the air once, and is ready again.
on_air-Runs :
    {d : HdlcDecoder} (bytes : List ℕ)
    → IsReady d
    → CanReceive bytes
    → (buf : List ℕ) × (length buf ≡ max_frame_len)
      × Runs d (on_air bytes) (synced buf) (bytes ∷ [])
on_air-Runs bytes i c =
    let (buf, size, r) = framed bytes i.buf i.size c in (buf, size, Runs-append (preamble i) r)

-- What `hdlc_encode` makes of 15 to 328 bytes, fed to a new decoder bit by bit, comes out as
-- exactly one frame, the bytes that were encoded.
pub frames-hdlc_encode :
    (bytes : List ℕ)
    → CanReceive bytes
    → let f = hdlc_encode bytes in frames new (take f.bit_count f.bits) ≡ bytes ∷ []
frames-hdlc_encode bytes c =
    let f = hdlc_encode bytes in
    let encoded : take f.bit_count f.bits ≡ on_air bytes =
      (hdlc_encode-Carries bytes (omega (arith, c.2))).carried in
    let (buf, size, r) = on_air-Runs bytes new-IsReady c in rw encoded r.reported

-- The bits of several encoded frames, one behind the other.
abbrev pub transmission : List (List ℕ) → List ℕ
transmission [] = []
transmission (bytes ∷ rest) =
    let f = hdlc_encode bytes in take f.bit_count f.bits ++ transmission rest

transmission-Runs :
    (sent : List (List ℕ)) (d : HdlcDecoder)
    → IsReady d
    → All CanReceive sent
    → frames d (transmission sent) ≡ sent
transmission-Runs [] d i c = unfold frames in refl
transmission-Runs (bytes ∷ rest) d i (c, cs) =
    let (buf, size, r) = on_air-Runs bytes i c in
    let later = transmission-Runs rest (synced buf) (synced-IsReady buf size) cs in
    rw (hdlc_encode-Carries bytes (omega (arith, c.2))).carried
      (frames-append (on_air bytes) (transmission rest) d ∙ rw (r.reported, r.reached, later) refl)

-- A decoder that hears any number of encoded frames reports all of them, in order, and nothing
-- else.
pub frames-transmission :
    (sent : List (List ℕ)) → All CanReceive sent → frames new (transmission sent) ≡ sent
frames-transmission sent c = transmission-Runs sent new new-IsReady c
