-- ===== src/Modem/SoftHdlc/SingleBit.antt =====
-- `try_syndrome_correction` corrects any single wrong bit.
use packet_radio_rs.Base.{
  ℕ, zero, suc, ◌+◌, ◌-◌, ◌*◌, ◌/◌, ◌%◌, ◌^◌, ◌≤◌, ◌<◌, ◌≡◌, refl, sym, ap, ap₂, ◌∙◌, arith, true,
  false, some, List, [], ◌∷◌, ◌++◌, bit_xor, bit_xor-zero, bit_xor_assoc, bit_xor_comm,
  bit_xor_self, bit_xor_cancel, ltb, ◌==◌, ==-ne, length, get_or, get_or-set, set, set-set,
  set_self, take,
}
use packet_radio_rs.Ax25.Crc.{crc_bytes, crc16_ccitt}
use packet_radio_rs.Modem.SoftHdlc.Defs.{SoftHdlcDecoder, crc_residue, crc_poly_reflected}
use packet_radio_rs.Modem.SoftHdlc.Recovery.{
  flip_in, find_error, correct_bit, try_syndrome_correction,
}
use packet_radio_rs.Modem.SoftHdlc.Trials.{IsFrame}
use packet_radio_rs.Modem.SoftHdlc.Syndrome.{
  zero_steps, zero_steps_nonzero, find_error_lem, crc_bytes_one_bit,
}

-- A list in front of and behind a place.
at_place :
    (xs : List ℕ) (i : ℕ)
    → i < length xs
    → (pre : List ℕ) × (post : List ℕ) × (xs ≡ pre ++ get_or xs i 0 ∷ post)
      × (length xs ≡ i + suc (length post))
      × ((v : ℕ) → set xs i v ≡ pre ++ v ∷ post)
at_place [] i h = absurd (omega arith)
at_place (x ∷ xs) zero h = ([], xs, refl, omega arith, λ v. refl)
at_place (x ∷ xs) (suc i) h =
    let (pre, post, whole, size, write) = at_place xs i (omega arith) in
    (x ∷ pre, post, ap (◌∷◌ x) whole, omega (arith, size), λ v. ap (◌∷◌ x) (write v))

-- The steps from the last bit to bit `i` of a frame of `n` bytes.
abbrev distance : ℕ → ℕ → ℕ
distance n i = n * 8 - 1 - i

-- The CRC of a frame with one wrong bit.
crc_flip_in :
    (g : List ℕ) (i : ℕ)
    → i < length g * 8
    → crc16_ccitt (flip_in g i)
      ≡ bit_xor (crc16_ccitt g) (zero_steps (distance (length g) i) crc_poly_reflected)
unfolding crc16_ccitt flip_in
crc_flip_in g i h =
    let byte = get_or g (i / 8) 0 in
    let (pre, post, whole, size, write) = at_place g (i / 8) (omega arith) in
    let steps : 8 * length post + (7 - i % 8) ≡ distance (length g) i = omega (arith, size, h) in
    let e = zero_steps (distance (length g) i) crc_poly_reflected in
    let flipped : crc_bytes 0xFFFF (set g (i / 8) (bit_xor byte (2 ^ (i % 8))))
        ≡ bit_xor (crc_bytes 0xFFFF g) e =
      ap (crc_bytes 0xFFFF) (write (bit_xor byte (2 ^ (i % 8))))
      ∙ crc_bytes_one_bit pre post byte (i % 8) 0xFFFF (omega arith)
      ∙ ap₂
          (λ (xs : List ℕ) (k : ℕ). bit_xor (crc_bytes 0xFFFF xs) (zero_steps k crc_poly_reflected))
          (sym whole) steps in
    ap (λ (t : ℕ). bit_xor t 0xFFFF) flipped
    ∙ bit_xor_assoc (crc_bytes 0xFFFF g) e 0xFFFF
    ∙ ap (bit_xor (crc_bytes 0xFFFF g)) (bit_xor_comm e 0xFFFF)
    ∙ sym (bit_xor_assoc (crc_bytes 0xFFFF g) 0xFFFF e)

flip_in_twice : (g : List ℕ) (i : ℕ) → i < length g * 8 → flip_in (flip_in g i) i ≡ g
unfolding flip_in
flip_in_twice g i h =
    let byte = get_or g (i / 8) 0 in
    let mask = 2 ^ (i % 8) in
    let back : bit_xor (bit_xor byte mask) mask ≡ byte =
      bit_xor_assoc byte mask mask ∙ ap (bit_xor byte) (bit_xor_self mask) ∙ bit_xor-zero byte in
    ap (λ (v : ℕ). set (set g (i / 8) (bit_xor byte mask)) (i / 8) (bit_xor v mask))
      (get_or-set g (i / 8) (bit_xor byte mask) 0 (omega arith))
    ∙ set-set g (i / 8) (bit_xor byte mask) (bit_xor (bit_xor byte mask) mask)
    ∙ ap (set g (i / 8)) back
    ∙ set_self g (i / 8) 0

take-set_inside : (xs : List ℕ) (n i v : ℕ) → i < n → take n (set xs i v) ≡ set (take n xs) i v
take-set_inside xs zero i v h = absurd (omega arith)
take-set_inside [] (suc n) i v h = refl
take-set_inside (x ∷ xs) (suc n) zero v h = refl
take-set_inside (x ∷ xs) (suc n) (suc i) v h = ap (◌∷◌ x) (take-set_inside xs n i v (omega arith))

get_or-take_inside : (xs : List ℕ) (n i : ℕ) → i < n → get_or (take n xs) i 0 ≡ get_or xs i 0
get_or-take_inside xs zero i h = absurd (omega arith)
get_or-take_inside [] (suc n) i h = refl
get_or-take_inside (x ∷ xs) (suc n) zero h = refl
get_or-take_inside (x ∷ xs) (suc n) (suc i) h = get_or-take_inside xs n i (omega arith)

take-flip_in :
    (buf : List ℕ) (n i : ℕ) → i < n * 8 → take n (flip_in buf i) ≡ flip_in (take n buf) i
unfolding flip_in
take-flip_in buf n i h =
    take-set_inside buf n (i / 8) (bit_xor (get_or buf (i / 8) 0) (2 ^ (i % 8))) (omega arith)
    ∙ ap (λ (v : ℕ). set (take n buf) (i / 8) (bit_xor v (2 ^ (i % 8))))
        (sym (get_or-take_inside buf n (i / 8) (omega arith)))

-- The right bit is flipped back.
correct_bit_lem :
    (g : List ℕ) (d : SoftHdlcDecoder) (i : ℕ)
    → IsFrame g
    → i < length g * 8
    → d.frame_len ≡ length g
    → take (length g) d.frame_buf ≡ flip_in g i
    → let r = correct_bit d i in
      (r.0 ≡ some (length g - 2, 1, 1)) × (take (length g) r.1.frame_buf ≡ g)
unfolding correct_bit
correct_bit_lem g d i f h n e =
    let restored : take (length g) (flip_in d.frame_buf i) ≡ g =
      take-flip_in d.frame_buf (length g) i h ∙ ap (λ t. flip_in t i) e ∙ flip_in_twice g i h in
    let right : (crc16_ccitt g == crc_residue) ≡ true = ground (arith, f.residue) in
    rw (n, restored, right, f.address_valid) (refl, restored)

-- If a frame of 17 to 400 bytes with the CRC's residue that passes `is_valid_ax25_frame` stands in
-- the frame buffer with exactly one bit inverted, `try_syndrome_correction` reports its length without
-- the CRC, one flip and cost 1, and leaves the frame itself in the buffer.
pub try_syndrome_correction_one_bit :
    (g : List ℕ) (d : SoftHdlcDecoder) (i : ℕ)
    → IsFrame g
    → length g ≤ 400
    → i < length g * 8
    → d.frame_len ≡ length g
    → take (length g) d.frame_buf ≡ flip_in g i
    → let r = try_syndrome_correction d in
      (r.0 ≡ some (length g - 2, 1, 1)) × (take (length g) r.1.frame_buf ≡ g)
unfolding try_syndrome_correction
try_syndrome_correction_one_bit g d i f l h n e =
    let k = distance (length g) i in
    let error = zero_steps k crc_poly_reflected in
    let crc : crc16_ccitt (flip_in g i) ≡ bit_xor crc_residue error =
      crc_flip_in g i h ∙ ap (λ (t : ℕ). bit_xor t error) f.residue in
    let syndrome : bit_xor (crc16_ccitt (take d.frame_len d.frame_buf)) crc_residue ≡ error =
      ap (λ (m : ℕ). bit_xor (crc16_ccitt (take m d.frame_buf)) crc_residue) n
      ∙ ap (λ (xs : List ℕ). bit_xor (crc16_ccitt xs) crc_residue) e
      ∙ ap (λ (t : ℕ). bit_xor t crc_residue) crc
      ∙ bit_xor_comm (bit_xor crc_residue error) crc_residue
      ∙ bit_xor_cancel crc_residue error in
    let long : ltb d.frame_len 17 ≡ false = ground (arith, n, f.long) in
    let wrong : (error == 0) ≡ false = ==-ne error 0 (zero_steps_nonzero k) in
    let found : find_error (d.frame_len * 8) 0 crc_poly_reflected error ≡ some k =
      find_error_lem k (d.frame_len * 8) (omega (arith, h, n)) (omega (arith, l)) in
    let place : d.frame_len * 8 - 1 - k ≡ i = omega (arith, h, n) in
    rw (syndrome, long, wrong, found, place) (correct_bit_lem g d i f h n e)
