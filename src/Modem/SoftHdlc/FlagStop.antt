-- ===== src/Modem/SoftHdlc/FlagStop.antt =====
-- Reassembly ends at the first flag in the bit buffer, and `handle_flag` does not empty the buffer.
use mathlib.Core.List.{append_assoc}
use packet_radio_rs.Base.{
  ℕ, zero, suc, ◌+◌, ◌-◌, ◌*◌, ◌%◌, ◌^◌, ◌≤◌, ◌<◌, ◌≡◌, refl, sym, ap, subst, ◌∙◌, arith, true,
  false, List, [], ◌∷◌, ◌++◌, bit_or, bit_xor, lt→ltb, leb, ◌==◌, All, if◌then◌else◌, Bool-cases,
  inl, inr, length, length-append, get_or, set, take, replicate,
}
use packet_radio_rs.Modem.SoftHdlc.Defs.{SoftHdlcDecoder}
use packet_radio_rs.Modem.SoftHdlc.Recovery.{
  Assembly, assemble_bit, assemble, empty_assembly, flip, flip_all, reassembled,
  reassemble_and_check_crc, Trial, attempt,
}

-- The end of a flag: six ones and a zero.
abbrev pub flag_end : List ℕ → List ℕ
flag_end rest = replicate 6 1 ++ 0 ∷ rest

abbrev marked : Assembly → ℕ → Assembly
marked a ones = record a { ones = ones }

assemble_bit-ones : (a : Assembly) (bit : ℕ) → (assemble_bit a bit).ones ≡ a.ones
unfolding assemble_bit
assemble_bit-ones a bit = ground arith

-- Once six ones were read, the next zero ends the loop, with what the bits in front of it made.
stops :
    (n : ℕ) (a : Assembly) (rest : List ℕ)
    → 6 ≤ a.ones + n
    → a.ones + n < 256
    → assemble a (replicate n 1 ++ 0 ∷ rest) ≡ assemble a (replicate n 1 ++ [])
unfolding assemble
stops zero a rest h k =
    let five : (a.ones == 5) ≡ false = ground arith in
    let six : leb 6 a.ones ≡ true = ground arith in rw (five, six) refl
stops (suc n) a rest h k =
    let next = assemble_bit (marked a ((a.ones + 1) % 2 ^ 8)) 1 in
    let ones : next.ones ≡ a.ones + 1 =
      assemble_bit-ones (marked a ((a.ones + 1) % 2 ^ 8)) 1 ∙ omega (arith, k) in
    stops n next rest (omega (arith, ones, h)) (omega (arith, ones, k))

-- So nothing behind the first flag matters.
pub assemble-flag :
    (bits : List ℕ) (a : Assembly) (rest : List ℕ)
    → a.ones + length bits < 250
    → assemble a (bits ++ flag_end rest) ≡ assemble a (bits ++ replicate 6 1)
unfolding assemble
assemble-flag [] a rest h = stops 6 a rest (omega arith) (omega arith)
assemble-flag (bit ∷ bits) a rest h =
    let zero_next = assemble_bit (marked a 0) bit in
    let one_next = assemble_bit (marked a ((a.ones + 1) % 2 ^ 8)) bit in
    let skip = assemble-flag bits (marked a 0) rest (omega (arith, h)) in
    let on_zero =
      assemble-flag bits zero_next rest (omega (arith, h, assemble_bit-ones (marked a 0) bit)) in
    let on_one =
      assemble-flag bits one_next rest
        (omega (arith, h, assemble_bit-ones (marked a ((a.ones + 1) % 2 ^ 8)) bit)) in
    elim (Bool-cases (bit == 0)) [
      | inl z ↦ rw (z, skip, on_zero) refl
      | inr o ↦ rw (o, on_one) refl
    ]

-- Eight bits make a byte.
assemble_bit_size :
    (a : Assembly) (bit : ℕ)
    → a.byte_bits < 8
    → (8 * length (assemble_bit a bit).frame + (assemble_bit a bit).byte_bits
        ≤ 8 * length a.frame + a.byte_bits + 1)
      × ((assemble_bit a bit).byte_bits < 8)
unfolding assemble_bit
assemble_bit_size a bit h =
    let byte = if bit == 0 then a.current_byte else bit_or a.current_byte (2 ^ a.byte_bits) in
    ground (arith, length-append a.frame (byte ∷ []))

assemble_size :
    (bits : List ℕ) (a : Assembly)
    → a.byte_bits < 8
    → 8 * length (assemble a bits) ≤ 8 * length a.frame + a.byte_bits + length bits
unfolding assemble
assemble_size [] a h = omega arith
assemble_size (bit ∷ bits) a h =
    let m = marked a (if bit == 0 then 0 else (a.ones + 1) % 2 ^ 8) in
    let (grown, small) = assemble_bit_size m bit h in
    let next = assemble_size bits (assemble_bit m bit) small in
    let skip = assemble_size bits (marked a 0) h in ground (arith, grown, next, skip)

-- A frame needs 17 bytes.
short_fails :
    (d : SoftHdlcDecoder)
    → length (reassembled d.hard_bits d.bit_count) < 17
    → (reassemble_and_check_crc d).0 ≡ false
unfolding reassemble_and_check_crc
short_fails d h = rw (lt→ltb _ 17 h) refl

set_behind :
    (pre ys : List ℕ) (i v : ℕ)
    → length pre ≤ i
    → set (pre ++ ys) i v ≡ pre ++ set ys (i - length pre) v
set_behind [] ys i v h = ap (λ (k : ℕ). set ys k v) (omega arith)
set_behind (p ∷ pre) ys zero v h = absurd (omega arith)
set_behind (p ∷ pre) ys (suc i) v h =
    ap (◌∷◌ p)
      (set_behind pre ys i v (omega arith) ∙ ap (λ (k : ℕ). pre ++ set ys k v) (omega arith))

-- Flips behind a prefix leave it.
flip_all_behind :
    (flips pre ys : List ℕ)
    → All (λ i. length pre ≤ i) flips
    → (zs : List ℕ) × (flip_all flips (pre ++ ys) ≡ pre ++ zs)
unfolding flip_all flip
flip_all_behind [] pre ys h = (ys, refl)
flip_all_behind (i ∷ flips) pre ys (h, hs) =
    let v = bit_xor (get_or (pre ++ ys) i 0) 1 in
    let (zs, e) = flip_all_behind flips pre (set ys (i - length pre) v) hs in
    (zs, ap (flip_all flips) (set_behind pre ys i v h) ∙ e)

take_behind :
    (pre ys : List ℕ) (n : ℕ)
    → length pre ≤ n
    → take n (pre ++ ys) ≡ pre ++ take (n - length pre) ys
take_behind [] ys n h = ap (λ (k : ℕ). take k ys) (omega arith)
take_behind (p ∷ pre) ys zero h = absurd (omega arith)
take_behind (p ∷ pre) ys (suc n) h =
    ap (◌∷◌ p) (take_behind pre ys n (omega arith) ∙ ap (λ (k : ℕ). pre ++ take k ys) (omega arith))

-- The bytes up to a flag near the start of the buffer are too few.
flag_short :
    (bits rest : List ℕ)
    → length bits < 130
    → length (assemble empty_assembly (bits ++ flag_end rest)) < 17
flag_short bits rest h =
    let size = assemble_size (bits ++ replicate 6 1) empty_assembly (omega arith) in
    omega (
      arith,
      ap length (assemble-flag bits empty_assembly rest (omega (arith, h))),
      size,
      length-append bits (replicate 6 1),
      h,
    )

-- If a flag (six ones and a zero) ends within the first 136 buffered bits, no trial that flips only
-- bits behind that flag finds a frame, whatever was received behind it.
pub attempt_behind_flag :
    (t : Trial) (d : SoftHdlcDecoder) (bits rest : List ℕ)
    → d.hard_bits ≡ bits ++ flag_end rest
    → length bits < 130
    → length bits + 7 ≤ d.bit_count
    → All (λ i. length bits + 7 ≤ i) t.flips
    → (attempt t d).0 ≡ false
unfolding attempt
attempt_behind_flag t d bits rest e short enough behind =
    let pre = bits ++ flag_end [] in
    let seven : length pre ≡ length bits + 7 = length-append bits (flag_end []) in
    let regroup : bits ++ flag_end rest ≡ pre ++ rest =
      sym (append_assoc bits (flag_end []) rest) in
    let (zs, flipped) =
      flip_all_behind t.flips pre rest
        (subst (λ (n : ℕ). All (λ i. n ≤ i) t.flips) (sym seven) behind) in
    let kept : take d.bit_count (flip_all t.flips d.hard_bits)
        ≡ bits ++ flag_end (take (d.bit_count - length pre) zs) =
      ap (λ xs. take d.bit_count (flip_all t.flips xs)) (e ∙ regroup)
      ∙ ap (take d.bit_count) flipped
      ∙ take_behind pre zs d.bit_count (omega (arith, seven, enough))
      ∙ append_assoc bits (flag_end []) (take (d.bit_count - length pre) zs) in
    short_fails (record d { hard_bits = flip_all t.flips d.hard_bits })
      (unfold reassembled in
        subst (λ xs. length (assemble empty_assembly xs) < 17) (sym kept)
          (flag_short bits (take (d.bit_count - length pre) zs) short))
