-- ===== src/Ax25/Hdlc/Flag.antt =====
-- What the eight bits of a flag do to the decoder.
use packet_radio_rs.Base.{
  ℕ, zero, suc, ◌+◌, ◌/◌, ◌≤◌, ◌<◌, ◌≡◌, refl, ap, ap₂, ◌∙◌, arith, Option, none, not, true, false,
  List, [], ◌∷◌, ◌++◌, ◌==◌, replicate, bit_or,
}
use packet_radio_rs.Ax25.Hdlc.{
  HdlcDecoder, receiving, shift_in, feed_bit, feed_shifted, feed_in, finish_bit, check_frame,
  start_frame, run, frames, report,
}
use packet_radio_rs.Ax25.Hdlc.Stuffing.{flag_bits}
use packet_radio_rs.Ax25.Hdlc.Registers.{shift_in-true, shift_in-false, run-append, frames-append}

-- The decoder inside a frame.
abbrev pub framing : List ℕ → ℕ → ℕ → ℕ → ℕ → ℕ → HdlcDecoder
framing buf len reg ones cur idx = record {
  state = receiving;
  shift_reg = reg;
  ones_count = ones;
  frame_buf = buf;
  current_byte = cur;
  bit_index = idx;
  frame_len = len;
}

-- The decoder right behind a flag.
abbrev pub synced : List ℕ → HdlcDecoder
synced buf = framing buf 0 0x7E 0 0 0

-- From `d` the bits lead to `e`, and the frames `fs` are reported on the way.
pub record Runs (d : HdlcDecoder) (bits : List ℕ) (e : HdlcDecoder) (fs : List (List ℕ))
    : Type 0 where
  pub reached : run d bits ≡ e
  pub reported : frames d bits ≡ fs

pub Runs-cons :
    {d e g : HdlcDecoder} {o : Option (List ℕ)} {xs : List ℕ} {fs : List (List ℕ)} (x : ℕ)
    → feed_bit d (not (x == 0)) ≡ (e, o)
    → Runs e xs g fs
    → Runs d (x ∷ xs) g (report o fs)
unfolding run frames
Runs-cons {o} {xs} x step rest = record {
  reached = ap (λ (p : HdlcDecoder × Option (List ℕ)). run p.0 xs) step ∙ rest.reached;
  reported =
      ap (λ (p : HdlcDecoder × Option (List ℕ)). report p.1 (frames p.0 xs)) step
      ∙ ap (report o) rest.reported;
}

pub Runs-append :
    {d e g : HdlcDecoder} {xs ys : List ℕ} {fs gs : List (List ℕ)}
    → Runs d xs e fs
    → Runs e ys g gs
    → Runs d (xs ++ ys) g (fs ++ gs)
Runs-append {d} {xs} {ys} p q = record {
  reached = run-append xs ys d ∙ ap (λ t. run t ys) p.reached ∙ q.reached;
  reported =
      frames-append xs ys d ∙ ap₂ ◌++◌ p.reported (ap (λ t. frames t ys) p.reached ∙ q.reported);
}

pub Runs-nil : (d : HdlcDecoder) → Runs d [] d []
unfolding run frames
Runs-nil d = record { reached = refl; reported = refl }

-- A flag behind a flag changes nothing.
pub synced_flag : (buf : List ℕ) → Runs (synced buf) flag_bits (synced buf) []
unfolding run frames feed_bit feed_shifted feed_in finish_bit shift_in check_frame start_frame
synced_flag buf = record { reached = refl; reported = refl }

-- The shift register behind `n` ones.
abbrev shift_ones : ℕ → ℕ → ℕ
shift_ones zero reg = reg
shift_ones (suc n) reg = shift_ones n (reg / 2 + 128)

abbrev shift_byte : ℕ → ℕ → ℕ
shift_byte zero cur = cur
shift_byte (suc n) cur = shift_byte n (bit_or (cur / 2) 0x80)

framing_one :
    (buf : List ℕ) (len reg ones cur idx : ℕ)
    → reg < 256
    → ones < 7
    → idx + 1 < 8
    → feed_bit (framing buf len reg ones cur idx) true
      ≡ (framing buf len (reg / 2 + 128) (ones + 1) (bit_or (cur / 2) 0x80) (idx + 1), none)
unfolding feed_bit feed_shifted feed_in finish_bit
framing_one buf len reg ones cur idx r o i = rw (shift_in-true reg r) (ground arith)

framing_ones :
    (n : ℕ) (buf : List ℕ) (len reg ones cur idx : ℕ)
    → reg < 256
    → ones + n ≤ 7
    → idx + n < 8
    → Runs
        (framing buf len reg ones cur idx)
        (replicate n 1)
        (framing buf len (shift_ones n reg) (ones + n) (shift_byte n cur) (idx + n))
        []
framing_ones zero buf len reg ones cur idx r o i =
    let e : ones + 0 ≡ ones = omega arith in
    let f : idx + 0 ≡ idx = omega arith in rw (e, f) (Runs-nil _)
framing_ones (suc n) buf len reg ones cur idx r o i =
    let one = framing_one buf len reg ones cur idx r (omega arith) (omega arith) in
    let rest =
      framing_ones n buf len (reg / 2 + 128) (ones + 1) (bit_or (cur / 2) 0x80) (idx + 1)
        (omega arith) (omega arith) (omega arith) in
    let e : ones + suc n ≡ ones + 1 + n = omega arith in
    let f : idx + suc n ≡ idx + 1 + n = omega arith in rw (e, f) (Runs-cons 1 one rest)

-- The zero that completes a flag.
framing_end :
    (buf : List ℕ) (len reg ones cur idx : ℕ)
    → reg / 2 ≡ 0x7E
    → feed_bit (framing buf len reg ones cur idx) false
      ≡ (synced buf, check_frame receiving (framing buf len 0x7E ones cur idx))
unfolding feed_bit feed_shifted start_frame
framing_end buf len reg ones cur idx r = rw (shift_in-false reg, r) refl

-- The zero that begins a flag, at the end of a byte, behind at most four ones.
framing_begin :
    (buf : List ℕ) (len reg ones : ℕ)
    → ones ≤ 4
    → reg < 252
    → feed_bit (framing buf len reg ones 0 0) false ≡ (framing buf len (reg / 2) 0 0 1, none)
unfolding feed_bit feed_shifted feed_in finish_bit
framing_begin buf len reg ones o r = rw (shift_in-false reg) (ground arith)

-- `check_frame` reads the buffer and the number of bytes only.
check_frame-fields :
    (buf : List ℕ) (len reg ones cur idx : ℕ)
    → check_frame receiving (framing buf len reg ones cur idx)
      ≡ check_frame receiving (framing buf len 0 0 0 0)
unfolding check_frame
check_frame-fields buf len reg ones cur idx = refl

-- A flag at the end of a byte closes the frame.
pub framing_flag :
    (buf : List ℕ) (len reg ones : ℕ)
    → ones ≤ 4
    → reg < 252
    → Runs
        (framing buf len reg ones 0 0)
        flag_bits
        (synced buf)
        (report (check_frame receiving (framing buf len 0 0 0 0)) [])
framing_flag buf len reg ones o r =
    let half = reg / 2 in
    let six = framing_ones 6 buf len half 0 0 1 (omega arith) (omega arith) (omega arith) in
    let last = framing_end buf len (shift_ones 6 half) 6 (shift_byte 6 0) 7 (omega arith) in
    let closed = Runs-append six (Runs-cons 0 last (Runs-nil _)) in
    rw check_frame-fields at (Runs-cons 0 (framing_begin buf len reg ones o r) closed)
