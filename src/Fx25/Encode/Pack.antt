-- ===== src/Fx25/Encode/Pack.antt =====
-- `hdlc_stuff_to_bytes` packs a flag, the stuffed bits and a flag.
use mathlib.Core.List.{append-nil, append_assoc}
use packet_radio_rs.Base.{
  ℕ, zero, suc, ◌+◌, ◌-◌, ◌*◌, ◌/◌, ◌%◌, ◌^◌, ◌<◌, ◌≤◌, ◌≡◌, refl, sym, ap, ap₂, ◌∙◌, arith, min,
  Bool, Bool-cases, inl, inr, true, false, List, [], ◌∷◌, ◌++◌, length, length-append, length-set,
  get_or, set, set-append, replicate, All, All-append, bit_or, ltb, ◌==◌, if◌then◌else◌,
}
use packet_radio_rs.Ax25.Hdlc.Stuffing.{
  low_bits, bits_of, next_ones, stuffed, stuff, ones_after, flag_bits,
}
use packet_radio_rs.Fx25.Encode.{
  hdlc_buf_size, Packed, push_bit, bit_at, push_flag, stuff_bit, stuff_byte, stuff_bytes,
  hdlc_stuff_to_bytes, bits_from,
}
use packet_radio_rs.Fx25.Encode.Bits.{
  bits_from-low_bits, low_bits-bit_or, bits_of-set, bit_or-lt, get_or-All, set-All, bit_mask-lt,
}

-- The bits that were written to the 300 bytes, as long as they fit.
pub record Packs (p : Packed) (xs : List ℕ) : Type 0 where
  pub size : length p.out ≡ hdlc_buf_size
  pub pos : p.bit_pos ≡ min (length xs) 2400
  pub bytes : All (λ b. b < 256) p.out
  pub content : length xs ≤ 2400 → bits_of p.out ≡ xs ++ replicate (2400 - length xs) 0

-- One more bit where there is room.
bits_written :
    (out xs : List ℕ) (pos bit : ℕ)
    → length out ≡ hdlc_buf_size
    → pos ≡ length xs
    → length xs < 2400
    → bit < 2
    → bits_of out ≡ xs ++ replicate (2400 - length xs) 0
    → bits_of (
        if bit == 0
        then out
        else set out (pos / 8) (bit_or (get_or out (pos / 8) 0) (2 ^ (pos % 8))))
      ≡ (xs ++ bit ∷ []) ++ replicate (2400 - length (xs ++ bit ∷ [])) 0
bits_written out xs pos bit size at room small e =
    let n = 2399 - length xs in
    let more : 2400 - length xs ≡ suc n = omega (arith, room) in
    let fewer : 2400 - length (xs ++ bit ∷ []) ≡ n = omega (arith, length-append xs (bit ∷ [])) in
    let before : bits_of out ≡ xs ++ 0 ∷ replicate n 0 =
      e ∙ ap (λ (t : ℕ). xs ++ replicate t 0) more in
    let after : xs ++ bit ∷ replicate n 0
        ≡ (xs ++ bit ∷ []) ++ replicate (2400 - length (xs ++ bit ∷ [])) 0 =
      sym (append_assoc xs (bit ∷ []) (replicate n 0))
      ∙ ap (λ (t : ℕ). (xs ++ bit ∷ []) ++ replicate t 0) (sym fewer) in
    let place : pos / 8 * 8 + pos % 8 ≡ length xs = omega (arith, at) in
    let byte = get_or out (pos / 8) 0 in
    elim (Bool-cases (bit == 0)) [
      | inl z ↦
          let is_zero : 0 ≡ bit = ground (arith, z) in
          rw z (before ∙ ap (λ (t : ℕ). xs ++ t ∷ replicate n 0) is_zero ∙ after)
      | inr o ↦
          let is_one : 1 ≡ bit = ground (arith, o, small) in
          rw o (
            bits_of-set out (pos / 8) (pos % 8) (bit_or byte (2 ^ (pos % 8))) 1
              (omega (arith, at, room, size)) (omega arith) (low_bits-bit_or 8 (pos % 8) byte)
            ∙ ap₂ (λ (t : List ℕ) (k : ℕ). set t k 1) before place
            ∙ set-append xs (replicate n 0) 0 1
            ∙ ap (λ (t : ℕ). xs ++ t ∷ replicate n 0) is_one
            ∙ after)
    ]

push_bit-Packs :
    (p : Packed) (xs : List ℕ) (bit : ℕ)
    → bit < 2
    → Packs p xs
    → Packs (push_bit p bit) (xs ++ bit ∷ [])
unfolding push_bit
push_bit-Packs p xs bit small h =
    let longer = length-append xs (bit ∷ []) in
    let byte = get_or p.out (p.bit_pos / 8) 0 in
    let v = bit_or byte (2 ^ (p.bit_pos % 8)) in
    let v-lt =
      bit_or-lt 8 byte (2 ^ (p.bit_pos % 8)) (get_or-All p.out (p.bit_pos / 8) h.bytes)
        (bit_mask-lt (p.bit_pos % 8) (omega arith)) in
    elim (Bool-cases (ltb (p.bit_pos / 8) (length p.out))) [
      | inl room ↦
          let inside : length xs < 2400 = ground (arith, room, h.pos, h.size) in
          rw room (record {
            size = ground (arith, length-set p.out (p.bit_pos / 8) v, h.size);
            pos = omega (arith, h.pos, inside, longer);
            bytes =
                either p.out (set p.out (p.bit_pos / 8) v) (bit == 0) h.bytes
                  (set-All p.out (p.bit_pos / 8) v h.bytes v-lt);
            content = λ l.
                bits_written p.out xs p.bit_pos bit h.size (omega (arith, h.pos, inside)) inside
                  small (h.content (omega (arith, inside)));
          })
      | inr full ↦
          let outside : 2400 ≤ length xs = ground (arith, full, h.pos, h.size) in
          rw full (record {
            size = h.size;
            pos = omega (arith, h.pos, outside, longer);
            bytes = h.bytes;
            content = λ l. absurd (omega (arith, outside, longer, l));
          })
    ]
  where
    either :
        (a b : List ℕ) (c : Bool)
        → All (λ b. b < 256) a
        → All (λ b. b < 256) b
        → All (λ b. b < 256) (if c then a else b)
    either a b true h k = h
    either a b false h k = k

push_list : Packed → List ℕ → Packed
push_list p [] = p
push_list p (x ∷ xs) = push_list (push_bit p x) xs

push_list-append :
    (xs ys : List ℕ) (p : Packed) → push_list p (xs ++ ys) ≡ push_list (push_list p xs) ys
unfolding push_list
push_list-append [] ys p = refl
push_list-append (x ∷ xs) ys p = push_list-append xs ys (push_bit p x)

push_list-Packs :
    (xs ys : List ℕ) (p : Packed)
    → All (λ b. b < 2) xs
    → Packs p ys
    → Packs (push_list p xs) (ys ++ xs)
unfolding push_list
push_list-Packs [] ys p b h = rw append-nil h
push_list-Packs (x ∷ xs) ys p (b, bs) h =
    rw append_assoc at
      (push_list-Packs xs (ys ++ x ∷ []) (push_bit p x) bs (push_bit-Packs p ys x b h))

stuff_bit-push_list :
    (p : Packed) (ones bit : ℕ)
    → bit < 2
    → stuff_bit (p, ones) bit ≡ (push_list p (stuffed ones bit), next_ones ones bit)
unfolding stuff_bit push_list
stuff_bit-push_list p ones zero h = refl
stuff_bit-push_list p ones (suc zero) h = elim (Bool-cases (ones + 1 == 5)) [
  | inl five ↦ rw five refl
  | inr less ↦ rw less refl
]
stuff_bit-push_list p ones (suc (suc bit)) h = absurd (omega arith)

stuff_list : Packed × ℕ → List ℕ → Packed × ℕ
stuff_list s [] = s
stuff_list s (x ∷ xs) = stuff_list (stuff_bit s x) xs

stuff_list-append :
    (xs ys : List ℕ) (s : Packed × ℕ) → stuff_list s (xs ++ ys) ≡ stuff_list (stuff_list s xs) ys
unfolding stuff_list
stuff_list-append [] ys s = refl
stuff_list-append (x ∷ xs) ys s = stuff_list-append xs ys (stuff_bit s x)

stuff_list-push_list :
    (xs : List ℕ) (p : Packed) (ones : ℕ)
    → All (λ b. b < 2) xs
    → stuff_list (p, ones) xs ≡ (push_list p (stuff ones xs), ones_after ones xs)
unfolding stuff_list stuff ones_after
stuff_list-push_list [] p ones b = unfold push_list in refl
stuff_list-push_list (x ∷ xs) p ones (b, bs) =
    ap (λ s. stuff_list s xs) (stuff_bit-push_list p ones x b)
    ∙ stuff_list-push_list xs (push_list p (stuffed ones x)) (next_ones ones x) bs
    ∙ rw (push_list-append (stuffed ones x) (stuff (next_ones ones x) xs) p) refl

stuff_byte-stuff_list :
    (n i byte : ℕ) (s : Packed × ℕ) → stuff_byte n i byte s ≡ stuff_list s (bits_from n i byte)
unfolding stuff_byte stuff_list bits_from
stuff_byte-stuff_list zero i byte s = refl
stuff_byte-stuff_list (suc n) i byte s =
    stuff_byte-stuff_list n (i + 1) byte (stuff_bit s (bit_at byte i))

stuff_bytes-stuff_list :
    (bytes : List ℕ) (s : Packed × ℕ) → stuff_bytes bytes s ≡ stuff_list s (bits_of bytes)
unfolding stuff_bytes
stuff_bytes-stuff_list [] s = unfold stuff_list in refl
stuff_bytes-stuff_list (x ∷ xs) s =
    let whole : x / 1 ≡ x = omega arith in
    ap (stuff_bytes xs) (
      stuff_byte-stuff_list 8 0 x s
      ∙ ap (stuff_list s) (bits_from-low_bits 8 0 x ∙ ap (low_bits 8) whole))
    ∙ stuff_bytes-stuff_list xs (stuff_list s (low_bits 8 x))
    ∙ sym (stuff_list-append (low_bits 8 x) (bits_of xs) s)

bits_of-IsBit : (bytes : List ℕ) → All (λ b. b < 2) (bits_of bytes)
bits_of-IsBit [] = tt
bits_of-IsBit (x ∷ xs) =
    All-append (λ b. b < 2) (low_bits 8 x) (bits_of xs) (omega arith) (bits_of-IsBit xs)

stuffed-IsBit : (ones bit : ℕ) → bit < 2 → All (λ b. b < 2) (stuffed ones bit)
stuffed-IsBit ones zero h = omega arith
stuffed-IsBit ones (suc bit) h = elim (Bool-cases (suc bit == 1)) [
  | inr other ↦ absurd (ground (arith, other))
  | inl one ↦ elim (Bool-cases (ones + 1 == 5)) [
    | inl five ↦ rw (one, five) (omega arith)
    | inr less ↦ rw (one, less) (omega arith)
  ]
]

stuff-IsBit : (xs : List ℕ) (ones : ℕ) → All (λ b. b < 2) xs → All (λ b. b < 2) (stuff ones xs)
unfolding stuff
stuff-IsBit [] ones b = tt
stuff-IsBit (x ∷ xs) ones (b, bs) =
    All-append (λ b. b < 2) (stuffed ones x) (stuff (next_ones ones x) xs) (stuffed-IsBit ones x b)
      (stuff-IsBit xs (next_ones ones x) bs)

-- What the encoder puts around the stuffed bits.
abbrev pub wrapped : List ℕ → List ℕ
wrapped bytes = flag_bits ++ (stuff 0 (bits_of bytes) ++ flag_bits)

flag_pushed : (p : Packed) → push_flag 8 0 p ≡ push_list p flag_bits
unfolding push_flag push_list
flag_pushed p = refl

empty-Packs : Packs (record { out = replicate hdlc_buf_size 0; bit_pos = 0 }) []
empty-Packs = record { size = refl; pos = refl; bytes = omega arith; content = λ l. refl }

pub hdlc_stuff_to_bytes-Packs :
    (bytes : List ℕ) → Packs (hdlc_stuff_to_bytes bytes (replicate hdlc_buf_size 0)) (wrapped bytes)
unfolding hdlc_stuff_to_bytes
hdlc_stuff_to_bytes-Packs bytes =
    let blank : Packed = record { out = replicate hdlc_buf_size 0; bit_pos = 0 } in
    let opened = push_flag 8 0 blank in
    let stuffed_bits = stuff 0 (bits_of bytes) in
    let pushed : push_flag 8 0 (stuff_bytes bytes (opened, 0)).0
        ≡ push_list (push_list opened stuffed_bits) flag_bits =
      flag_pushed (stuff_bytes bytes (opened, 0)).0
      ∙ ap (λ (s : Packed × ℕ). push_list s.0 flag_bits)
          (stuff_bytes-stuff_list bytes (opened, 0)
            ∙ stuff_list-push_list (bits_of bytes) opened 0 (bits_of-IsBit bytes)) in
    let one = push_list-Packs flag_bits [] blank (omega arith) empty-Packs in
    let two =
      push_list-Packs stuffed_bits flag_bits (push_list blank flag_bits)
        (stuff-IsBit (bits_of bytes) 0 (bits_of-IsBit bytes)) one in
    let three =
      push_list-Packs flag_bits (flag_bits ++ stuffed_bits)
        (push_list (push_list blank flag_bits) stuffed_bits) (omega arith) two in
    rw (pushed, flag_pushed blank) (rw append_assoc at three)
