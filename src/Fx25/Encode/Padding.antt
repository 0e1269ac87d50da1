-- ===== src/Fx25/Encode/Padding.antt =====
-- `flag_pad_bits` changes only the bits between its bounds.
use mathlib.Core.List.{append_assoc}
use packet_radio_rs.Base.{
  ℕ, zero, suc, ◌+◌, ◌-◌, ◌*◌, ◌/◌, ◌%◌, ◌^◌, ◌<◌, ◌≤◌, ◌≡◌, refl, sym, ap, ◌∙◌, arith, Bool,
  Bool-cases, inl, inr, true, false, List, [], ◌∷◌, ◌++◌, length, length-append, length-set,
  length-replicate, get_or, set, take, take-set_behind, take-take, drop, drop-set, replicate, All,
  All-append, bit_or, leb, ◌==◌, if◌then◌else◌, dec_lt, ◌⊎◌,
}
use packet_radio_rs.Ax25.Hdlc.Stuffing.{low_bits, bits_of, length-bits_of}
use packet_radio_rs.Fx25.Encode.{bit_at, clear_bit, pad_from, flag_pad_bits, message_block}
use packet_radio_rs.Fx25.Encode.Bits.{
  low_bits-bit_or, low_bits-clear_bit, bits_of-set, bit_or-lt, bit_and-lt, get_or-All, set-All,
  bit_mask-lt,
}

-- The byte that is written: one bit of the old one is set or cleared.
record IsWrite (byte r w : ℕ) : Type 0 where
  v : ℕ
  bits : low_bits 8 w ≡ set (low_bits 8 byte) r v
  small : w < 256

write_lem :
    (c : Bool) (byte r : ℕ)
    → byte < 256
    → r < 8
    → IsWrite byte r (if c then clear_bit byte r else bit_or byte (2 ^ r))
unfolding clear_bit
write_lem true byte r h l = record {
  v = 0;
  bits = low_bits-clear_bit r byte l;
  small = bit_and-lt 8 byte (255 - 2 ^ r) h (omega arith);
}
write_lem false byte r h l = record {
  v = 1;
  bits = low_bits-bit_or 8 r byte;
  small = bit_or-lt 8 byte (2 ^ r) h (bit_mask-lt r l);
}

-- What is in front of `pos` and behind `k` bytes stays.
pub record Keeps (buf : List ℕ) (pos k : ℕ) (out : List ℕ) : Type 0 where
  pub size : length out ≡ length buf
  pub bytes : All (λ b. b < 256) out
  pub front : take pos (bits_of out) ≡ take pos (bits_of buf)
  pub behind : drop k out ≡ drop k buf

pad_from-Keeps :
    (n pos idx k : ℕ) (buf : List ℕ)
    → (n ≡ 0) ⊎ (pos + n ≤ k * 8)
    → All (λ b. b < 256) buf
    → Keeps buf pos k (pad_from n pos idx buf)
unfolding pad_from
pad_from-Keeps zero pos idx k buf l h = record {
  size = refl;
  bytes = h;
  front = refl;
  behind = refl;
}
pad_from-Keeps (suc n) pos idx k buf l h =
    let byte = get_or buf (pos / 8) 0 in
    let w =
      if bit_at 0x7E idx == 0 then clear_bit byte (pos % 8) else bit_or byte (2 ^ (pos % 8)) in
    let write =
      write_lem (bit_at 0x7E idx == 0) byte (pos % 8) (get_or-All buf (pos / 8) h) (omega arith) in
    let next = set buf (pos / 8) w in
    let inside : pos + suc n ≤ k * 8 = elim l [ inl e ↦ absurd (omega arith) | inr e ↦ e ] in
    let r =
      pad_from-Keeps n (pos + 1) ((idx + 1) % 8) k next (inr (omega (arith, inside)))
        (set-All buf (pos / 8) w h write.small) in
    let out = pad_from n (pos + 1) ((idx + 1) % 8) next in
    elim (Bool-cases (leb (length buf) (pos / 8))) [
      | inl full ↦ rw full (record { size = refl; bytes = h; front = refl; behind = refl })
      | inr room ↦
          let fits : pos / 8 < length buf = ground (arith, room) in
          let place : pos / 8 * 8 + pos % 8 ≡ pos = omega arith in
          let changed : bits_of next ≡ set (bits_of buf) pos write.v =
            bits_of-set buf (pos / 8) (pos % 8) w write.v fits (omega arith) write.bits
            ∙ ap (λ (t : ℕ). set (bits_of buf) t write.v) place in
          rw room (record {
            size = r.size ∙ length-set buf (pos / 8) w;
            bytes = r.bytes;
            front =
                sym (take-take pos (pos + 1) (bits_of out) (omega arith))
                ∙ ap (take pos) r.front
                ∙ take-take pos (pos + 1) (bits_of next) (omega arith)
                ∙ ap (take pos) changed
                ∙ take-set_behind (bits_of buf) pos pos write.v (omega arith);
            behind = r.behind ∙ drop-set buf (pos / 8) k w (omega (arith, inside));
          })
    ]

bits_of-append : (xs ys : List ℕ) → bits_of (xs ++ ys) ≡ bits_of xs ++ bits_of ys
bits_of-append [] ys = refl
bits_of-append (x ∷ xs) ys =
    ap (λ t. low_bits 8 x ++ t) (bits_of-append xs ys)
    ∙ sym (append_assoc (low_bits 8 x) (bits_of xs) (bits_of ys))

take_front : (xs ys : List ℕ) (n : ℕ) → n ≤ length xs → take n (xs ++ ys) ≡ take n xs
take_front xs ys zero h = refl
take_front [] ys (suc n) h = absurd (omega arith)
take_front (x ∷ xs) ys (suc n) h = ap (◌∷◌ x) (take_front xs ys n (omega arith))

-- The first bits of some bytes are bits of the first bytes.
pub take-bits_of :
    (xs ys : List ℕ) (n : ℕ) → n ≤ 8 * length xs → take n (bits_of (xs ++ ys)) ≡ take n (bits_of xs)
take-bits_of xs ys n h =
    ap (take n) (bits_of-append xs ys)
    ∙ take_front (bits_of xs) (bits_of ys) n (omega (arith, length-bits_of xs, h))

drop_zeros :
    (xs : List ℕ) (m k : ℕ)
    → length xs ≤ k
    → drop k (xs ++ replicate m 0) ≡ replicate (m - (k - length xs)) 0
drop_zeros [] m zero h = ap (λ (t : ℕ). replicate t 0) (omega arith)
drop_zeros [] zero (suc k) h =
    let none_left : 0 ≡ 0 - (suc k - 0) = omega arith in ap (λ (t : ℕ). replicate t 0) none_left
drop_zeros [] (suc m) (suc k) h =
    drop_zeros [] m k (omega arith) ∙ ap (λ (t : ℕ). replicate t 0) (omega arith)
drop_zeros (x ∷ xs) m zero h = absurd (omega arith)
drop_zeros (x ∷ xs) m (suc k) h =
    drop_zeros xs m k (omega arith) ∙ ap (λ (t : ℕ). replicate t 0) (omega arith)

zeros-All : (n : ℕ) → All (λ b. b < 256) (replicate n 0)
zeros-All zero = tt
zeros-All (suc n) = (omega arith, zeros-All n)

-- The message block: 255 bytes that begin with the bits of the data, zero behind `k` bytes.
pub record IsMessage (hdlc : List ℕ) (count k : ℕ) (message : List ℕ) : Type 0 where
  pub size : length message ≡ 255
  pub bytes : All (λ b. b < 256) message
  pub front : take count (bits_of message) ≡ take count (bits_of hdlc)
  pub behind : drop k message ≡ replicate (255 - k) 0

pub message_block-IsMessage :
    (hdlc : List ℕ) (count k : ℕ)
    → All (λ b. b < 256) hdlc
    → length hdlc ≤ k
    → k ≤ 255
    → count ≤ 8 * length hdlc
    → IsMessage hdlc count k (message_block hdlc count k)
unfolding message_block flag_pad_bits
message_block-IsMessage hdlc count k h l m c =
    let zeros : List ℕ = replicate (255 - length hdlc) 0 in
    let r =
      pad_from-Keeps (k * 8 - count) count 0 k (hdlc ++ zeros)
        (elim (dec_lt count (k * 8)) [
          | yes in_range ↦ inr (omega (arith, in_range))
          | no out ↦ inl (omega arith)
        ])
        (All-append (λ b. b < 256) hdlc zeros h (zeros-All (255 - length hdlc))) in
    record {
      size = omega (
        arith,
        r.size,
        length-append hdlc zeros,
        length-replicate {A = ℕ} (255 - length hdlc) 0,
        l,
        m,
      );
      bytes = r.bytes;
      front = r.front ∙ take-bits_of hdlc zeros count c;
      behind =
          r.behind
          ∙ drop_zeros hdlc (255 - length hdlc) k l
          ∙ ap (λ (t : ℕ). replicate t 0) (omega (arith, l, m));
    }
