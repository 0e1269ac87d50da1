-- ===== src/Ax25/Hdlc/Encode.antt =====
-- `hdlc_encode` writes the stuffed bits, and they fit its array.
use mathlib.Core.List.{append-nil, append_assoc}
use packet_radio_rs.Base.{
  ℕ, ◌+◌, ◌/◌, ◌%◌, ◌^◌, ◌≤◌, ◌<◌, ◌≡◌, refl, sym, ap, ◌∙◌, arith, List, [], ◌∷◌, ◌++◌, length,
  take, length-append, length-set, take-set_add_one, set, length-replicate, bit_and_mask,
}
use packet_radio_rs.Ax25.Limits.{max_encoded_bits}
use packet_radio_rs.Ax25.Crc.{crc16_ccitt}
use packet_radio_rs.Ax25.Hdlc.{
  EncodedFrame, new_frame, push_bit, bit_at, emit_flag, emit_flag_bits, Stuffer, stuff_bit,
  stuff_byte, stuff_bytes, hdlc_encode,
}
use packet_radio_rs.Ax25.Hdlc.Stuffing.{
  low_bits, bits_of, next_ones, stuffed, stuff, ones_after, flag_bits, with_crc, on_air,
  length-stuff, length-bits_of,
}

push_bit_room :
    (f : EncodedFrame) (x : ℕ)
    → f.bit_count < max_encoded_bits
    → (push_bit f x).0 ≡ record { bits = set f.bits f.bit_count x; bit_count = f.bit_count + 1 }
unfolding push_bit
push_bit_room f x h = ground arith

push_list : EncodedFrame → List ℕ → EncodedFrame
push_list f [] = f
push_list f (x ∷ xs) = push_list (push_bit f x).0 xs

push_list-append :
    (xs ys : List ℕ) (f : EncodedFrame) → push_list f (xs ++ ys) ≡ push_list (push_list f xs) ys
unfolding push_list
push_list-append [] ys f = refl
push_list-append (x ∷ xs) ys f = push_list-append xs ys (push_bit f x).0

emit_flag-push_list : (f : EncodedFrame) → emit_flag f ≡ push_list f flag_bits
unfolding emit_flag emit_flag_bits push_list
emit_flag-push_list f = refl

stuff_bit-push_list :
    (f : EncodedFrame) (ones bit : ℕ)
    → stuff_bit (record { frame = f; ones_count = ones }) bit
      ≡ record { frame = push_list f (stuffed ones bit); ones_count = next_ones ones bit }
unfolding stuff_bit push_list
stuff_bit-push_list f ones bit = ground arith

stuff_list : Stuffer → List ℕ → Stuffer
stuff_list s [] = s
stuff_list s (x ∷ xs) = stuff_list (stuff_bit s x) xs

stuff_list-push_list :
    (xs : List ℕ) (f : EncodedFrame) (ones : ℕ)
    → stuff_list (record { frame = f; ones_count = ones }) xs
      ≡ record { frame = push_list f (stuff ones xs); ones_count = ones_after ones xs }
unfolding stuff_list stuff ones_after
stuff_list-push_list [] f ones = unfold push_list in refl
stuff_list-push_list (x ∷ xs) f ones =
    ap (λ s. stuff_list s xs) (stuff_bit-push_list f ones x)
    ∙ stuff_list-push_list xs (push_list f (stuffed ones x)) (next_ones ones x)
    ∙ rw (push_list-append (stuffed ones x) (stuff (next_ones ones x) xs) f)

stuff_list-append :
    (xs ys : List ℕ) (s : Stuffer) → stuff_list s (xs ++ ys) ≡ stuff_list (stuff_list s xs) ys
unfolding stuff_list
stuff_list-append [] ys s = refl
stuff_list-append (x ∷ xs) ys s = stuff_list-append xs ys (stuff_bit s x)

bit_at_lem : (byte k : ℕ) → bit_at byte k ≡ byte / 2 ^ k % 2
bit_at_lem byte k = bit_and_mask 1 (byte / 2 ^ k)

stuff_byte-stuff_list :
    (byte : ℕ) (s : Stuffer) → stuff_byte 8 0 byte s ≡ stuff_list s (low_bits 8 byte)
unfolding stuff_byte stuff_list
stuff_byte-stuff_list byte s =
    let bit_0 : bit_at byte 0 ≡ byte % 2 = omega (arith, bit_at_lem byte 0) in
    let bit_1 : bit_at byte 1 ≡ byte / 2 % 2 = omega (arith, bit_at_lem byte 1) in
    let bit_2 : bit_at byte 2 ≡ byte / 2 / 2 % 2 = omega (arith, bit_at_lem byte 2) in
    let bit_3 : bit_at byte 3 ≡ byte / 2 / 2 / 2 % 2 = omega (arith, bit_at_lem byte 3) in
    let bit_4 : bit_at byte 4 ≡ byte / 2 / 2 / 2 / 2 % 2 = omega (arith, bit_at_lem byte 4) in
    let bit_5 : bit_at byte 5 ≡ byte / 2 / 2 / 2 / 2 / 2 % 2 = omega (arith, bit_at_lem byte 5) in
    let bit_6 : bit_at byte 6 ≡ byte / 2 / 2 / 2 / 2 / 2 / 2 % 2 =
      omega (arith, bit_at_lem byte 6) in
    let bit_7 : bit_at byte 7 ≡ byte / 2 / 2 / 2 / 2 / 2 / 2 / 2 % 2 =
      omega (arith, bit_at_lem byte 7) in
    rw (bit_0, bit_1, bit_2, bit_3, bit_4, bit_5, bit_6, bit_7) refl

stuff_bytes-stuff_list :
    (bytes : List ℕ) (s : Stuffer) → stuff_bytes bytes s ≡ stuff_list s (bits_of bytes)
unfolding stuff_bytes
stuff_bytes-stuff_list [] s = unfold stuff_list in refl
stuff_bytes-stuff_list (x ∷ xs) s =
    ap (stuff_bytes xs) (stuff_byte-stuff_list x s)
    ∙ stuff_bytes-stuff_list xs (stuff_list s (low_bits 8 x))
    ∙ sym (stuff_list-append (low_bits 8 x) (bits_of xs) s)

abbrev preamble : EncodedFrame → EncodedFrame
preamble f = emit_flag (emit_flag (emit_flag (emit_flag f)))

preamble-push_list :
    (f : EncodedFrame) (xs : List ℕ)
    → push_list (preamble f) xs
      ≡ push_list f (flag_bits ++ (flag_bits ++ (flag_bits ++ (flag_bits ++ xs))))
unfolding push_list emit_flag emit_flag_bits
preamble-push_list f xs = refl

-- `hdlc_encode` pushes the bits on the air one by one.
hdlc_encode-push_list : (bytes : List ℕ) → hdlc_encode bytes ≡ push_list new_frame (on_air bytes)
unfolding hdlc_encode
hdlc_encode-push_list bytes =
    let start = preamble new_frame in
    let bits = bits_of (with_crc bytes) in
    ap (λ (s : Stuffer). emit_flag s.frame)
      (stuff_bytes-stuff_list (with_crc bytes) (record { frame = start; ones_count = 0 })
        ∙ stuff_list-push_list bits start 0)
    ∙ emit_flag-push_list (push_list start (stuff 0 bits))
    ∙ sym (push_list-append (stuff 0 bits) flag_bits start)
    ∙ preamble-push_list new_frame (stuff 0 bits ++ flag_bits)

-- The valid bits of the array.
pub record Carries (xs : List ℕ) (f : EncodedFrame) : Type 0 where
  pub size : length f.bits ≡ max_encoded_bits
  pub counted : f.bit_count ≡ length xs
  pub carried : take f.bit_count f.bits ≡ xs

push_bit-Carries :
    (xs : List ℕ) (f : EncodedFrame) (x : ℕ)
    → length xs < max_encoded_bits
    → Carries xs f
    → Carries (xs ++ x ∷ []) (push_bit f x).0
push_bit-Carries xs f x h c = rw (push_bit_room f x (omega (arith, c.counted))) record {
  size = length-set f.bits f.bit_count x ∙ c.size;
  counted = omega (arith, c.counted, length-append xs (x ∷ []));
  carried =
      take-set_add_one f.bits f.bit_count x (omega (arith, c.size, c.counted))
      ∙ ap (λ t. t ++ x ∷ []) c.carried;
}

push_list-Carries :
    (ys xs : List ℕ) (f : EncodedFrame)
    → length xs + length ys ≤ max_encoded_bits
    → Carries xs f
    → Carries (xs ++ ys) (push_list f ys)
unfolding push_list
push_list-Carries [] xs f h c = rw append-nil c
push_list-Carries (y ∷ ys) xs f h c = rw append_assoc at (
    push_list-Carries ys (xs ++ y ∷ []) (push_bit f y).0 (omega (arith, length-append xs (y ∷ [])))
      (push_bit-Carries xs f y (omega arith) c))

new_frame-Carries : Carries [] new_frame
unfolding new_frame
new_frame-Carries = record {
  size = length-replicate {A = ℕ} max_encoded_bits 0;
  counted = refl;
  carried = refl;
}

with_crc-length : (bytes : List ℕ) → length (with_crc bytes) ≡ length bytes + 2
with_crc-length bytes =
    let crc = crc16_ccitt bytes in
    length-append bytes ((crc % 2 ^ 8) ∷ ((crc / 2 ^ 8) % 2 ^ 8) ∷ [])

length-on_air : (bytes : List ℕ) → length bytes ≤ 330 → length (on_air bytes) ≤ 4096
length-on_air bytes h =
    let bits = bits_of (with_crc bytes) in
    omega (
      arith,
      length-append (stuff 0 bits) flag_bits,
      length-stuff bits 0,
      length-bits_of (with_crc bytes),
      with_crc-length bytes,
    )

-- Of at most 330 bytes, the longest frame there is, `hdlc_encode` gives the four flags, the stuffed
-- bits of the bytes and their CRC, and the closing flag: nothing is cut off by the array.
pub hdlc_encode-Carries :
    (bytes : List ℕ) → length bytes ≤ 330 → Carries (on_air bytes) (hdlc_encode bytes)
hdlc_encode-Carries bytes h = rw (hdlc_encode-push_list bytes) (
    push_list-Carries (on_air bytes) [] new_frame (omega (arith, length-on_air bytes h))
      new_frame-Carries)
