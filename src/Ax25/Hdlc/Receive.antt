-- ===== src/Ax25/Hdlc/Receive.antt =====
-- The decoder assembles the bytes whose stuffed bits it reads.
use mathlib.Core.List.{append-nil, append_assoc}
use packet_radio_rs.Base.{
  ℕ, ◌+◌, ◌≤◌, ◌<◌, ◌≡◌, refl, ap, ap₂, subst, ◌∙◌, arith, List, [], ◌∷◌, ◌++◌, All, length, take,
  set, length-set, length-append, take-set_add_one,
}
use packet_radio_rs.Ax25.Limits.{max_frame_len}
use packet_radio_rs.Ax25.Hdlc.{HdlcDecoder, run, frames}
use packet_radio_rs.Ax25.Hdlc.Stuffing.{
  low_bits, bits_of, next_ones, stuffed, stuff, ones_after, stuff-append, ones_after-append,
}
use packet_radio_rs.Ax25.Hdlc.Registers.{
  InFrame, Assembly, assembly, take_bit, After, After-append, feed_data, run-append, frames-append,
}

abbrev IsBit : ℕ → Type 0
IsBit bit = bit < 2

abbrev take_bits : Assembly → List ℕ → Assembly
take_bits a [] = a
take_bits a (x ∷ xs) = take_bits (take_bit a x) xs

next_ones-le : (ones bit : ℕ) → ones ≤ 4 → next_ones ones bit ≤ 4
next_ones-le ones bit h = ground arith

pub ones_after-le : (xs : List ℕ) (ones : ℕ) → ones ≤ 4 → ones_after ones xs ≤ 4
unfolding ones_after
ones_after-le [] ones h = h
ones_after-le (x ∷ xs) ones h = ones_after-le xs (next_ones ones x) (next_ones-le ones x h)

-- Before the last bit of a byte the number of bytes stays as it is.
len-take_bit :
    (a : Assembly) (bit : ℕ)
    → a.idx + 1 < 8
    → ((take_bit a bit).len ≡ a.len) × ((take_bit a bit).idx ≡ a.idx + 1)
len-take_bit a bit h = ground arith

feed_list :
    (xs : List ℕ) (ones : ℕ) (d : HdlcDecoder)
    → ones ≤ 4
    → All IsBit xs
    → InFrame ones d
    → d.frame_len < max_frame_len
    → d.bit_index + length xs ≤ 8
    → After (ones_after ones xs) (take_bits (assembly d) xs) d (stuff ones xs)
unfolding stuff ones_after
feed_list [] ones d h b f r fits = record {
  frame = unfold run in f;
  assembled = unfold run in refl;
  silent = unfold frames in refl;
}
feed_list (x ∷ []) ones d h b f r fits = rw append-nil (feed_data ones x d h b.0 f r)
feed_list (x ∷ y ∷ ys) ones d h b f r fits =
    let one = feed_data ones x d h b.0 f r in
    let next = run d (stuffed ones x) in
    let same = len-take_bit (assembly d) x (omega arith) in
    let len : next.frame_len ≡ d.frame_len = ap (λ (a : Assembly). a.len) one.assembled ∙ same.0 in
    let idx : next.bit_index ≡ d.bit_index + 1 =
      ap (λ (a : Assembly). a.idx) one.assembled ∙ same.1 in
    let rest =
      feed_list (y ∷ ys) (next_ones ones x) next (next_ones-le ones x h) b.1 one.frame (omega arith)
        (omega arith) in
    After-append d (stuffed ones x) (stuff (next_ones ones x) (y ∷ ys)) one (
      subst
        (λ a.
          After (ones_after (next_ones ones x) (y ∷ ys)) (take_bits a (y ∷ ys)) next
            (stuff (next_ones ones x) (y ∷ ys)))
        one.assembled rest)

low_bits-IsBit : (byte : ℕ) → All IsBit (low_bits 8 byte)
low_bits-IsBit byte = omega arith

take_bits-low_bits :
    (buf : List ℕ) (len byte : ℕ)
    → byte < 256
    → take_bits (record { buf = buf; len = len; cur = 0; idx = 0 }) (low_bits 8 byte)
      ≡ record { buf = set buf len byte; len = len + 1; cur = 0; idx = 0 }
take_bits-low_bits buf len byte h = ground arith

-- The bytes `got` of the frame have been received, and none of the next.
pub record Got (got : List ℕ) (d : HdlcDecoder) : Type 0 where
  pub size : length d.frame_buf ≡ max_frame_len
  pub filled : d.frame_len ≡ length got
  pub held : take d.frame_len d.frame_buf ≡ got
  pub no_bits : d.bit_index ≡ 0
  pub cleared : d.current_byte ≡ 0

Got-set :
    (got : List ℕ) (byte : ℕ) (d e : HdlcDecoder)
    → Got got d
    → length got < max_frame_len
    → assembly e
      ≡ record { buf = set d.frame_buf d.frame_len byte; len = d.frame_len + 1; cur = 0; idx = 0 }
    → Got (got ++ byte ∷ []) e
Got-set got byte d e g room eq =
    let buf : e.frame_buf ≡ set d.frame_buf d.frame_len byte = ap (λ (a : Assembly). a.buf) eq in
    let len : e.frame_len ≡ d.frame_len + 1 = ap (λ (a : Assembly). a.len) eq in
    record {
      size = ap length buf ∙ length-set d.frame_buf d.frame_len byte ∙ g.size;
      filled = omega (arith, g.filled, length-append got (byte ∷ []));
      held =
          ap₂ take len buf
          ∙ take-set_add_one d.frame_buf d.frame_len byte (omega (arith, g.size, g.filled))
          ∙ ap (λ t. t ++ byte ∷ []) g.held;
      no_bits = ap (λ (a : Assembly). a.idx) eq;
      cleared = ap (λ (a : Assembly). a.cur) eq;
    }

-- Behind the stuffed bits of some bytes.
pub record Received (ones : ℕ) (got : List ℕ) (d : HdlcDecoder) (bits : List ℕ) : Type 0 where
  pub frame : InFrame ones (run d bits)
  pub bytes : Got got (run d bits)
  pub silent : frames d bits ≡ []

receive_byte :
    (byte ones : ℕ) (got : List ℕ) (d : HdlcDecoder)
    → ones ≤ 4
    → byte < 256
    → InFrame ones d
    → Got got d
    → length got < max_frame_len
    → Received
        (ones_after ones (low_bits 8 byte))
        (got ++ byte ∷ [])
        d
        (stuff ones (low_bits 8 byte))
receive_byte byte ones got d h small f g room =
    let all =
      feed_list (low_bits 8 byte) ones d h (low_bits-IsBit byte) f (omega (arith, g.filled))
        (omega (arith, g.no_bits)) in
    let start : assembly d ≡ record { buf = d.frame_buf; len = d.frame_len; cur = 0; idx = 0 } =
      ground (arith, g.no_bits, g.cleared) in
    record {
      frame = all.frame;
      bytes = Got-set got byte d _ g room (
          all.assembled
          ∙ ap (λ a. take_bits a (low_bits 8 byte)) start
          ∙ take_bits-low_bits d.frame_buf d.frame_len byte small);
      silent = all.silent;
    }

-- Bytes that fit the buffer are received, and nothing is reported on the way.
pub receive_bytes :
    (bytes : List ℕ) (ones : ℕ) (got : List ℕ) (d : HdlcDecoder)
    → ones ≤ 4
    → All (λ b. b < 256) bytes
    → InFrame ones d
    → Got got d
    → length got + length bytes ≤ max_frame_len
    → Received (ones_after ones (bits_of bytes)) (got ++ bytes) d (stuff ones (bits_of bytes))
receive_bytes [] ones got d h small f g room =
    unfold stuff ones_after run frames in
    record { frame = f; bytes = rw append-nil g; silent = refl }
receive_bytes (x ∷ xs) ones got d h small f g room =
    let low = low_bits 8 x in
    let next = run d (stuff ones low) in
    let one = receive_byte x ones got d h small.0 f g (omega arith) in
    let rest =
      receive_bytes xs (ones_after ones low) (got ++ x ∷ []) next (ones_after-le low ones h) small.1
        one.frame one.bytes (omega (arith, length-append got (x ∷ []))) in
    rw (stuff-append low (bits_of xs) ones, ones_after-append low (bits_of xs) ones)
      record {
        frame =
            rw (run-append (stuff ones low) (stuff (ones_after ones low) (bits_of xs)) d)
              rest.frame;
        bytes =
            rw (run-append (stuff ones low) (stuff (ones_after ones low) (bits_of xs)) d)
              (rw append_assoc at rest.bytes);
        silent =
            frames-append (stuff ones low) (stuff (ones_after ones low) (bits_of xs)) d
            ∙ rw (one.silent, rest.silent) refl;
      }
