-- ===== src/Fx25/Encode/Bits.antt =====
-- Bytes as bits: what the writes of core/src/fx25/encode.rs do to the bits of a buffer.
use native.Mathlib.Nat.{pow-suc, div-div-eq-div-mul, one-le-pow}
use packet_radio_rs.Base.{
  ℕ, zero, suc, ◌+◌, ◌-◌, ◌*◌, ◌/◌, ◌%◌, ◌^◌, ◌<◌, ◌≡◌, refl, sym, ap, ap₂, ◌∙◌, arith, List, [],
  ◌∷◌, ◌++◌, length, get_or, set, bit_and, bit_or, bit_and_step, bit_or_step, bit_and_mask,
  bit_and-zero, bit_or-zero, All,
}
use packet_radio_rs.Ax25.Hdlc.Stuffing.{low_bits, bits_of}
use packet_radio_rs.Fx25.Encode.{bits_from, bytes_bits, clear_bit}

pub bits_from-low_bits : (n b v : ℕ) → bits_from n b v ≡ low_bits n (v / 2 ^ b)
unfolding bits_from
bits_from-low_bits zero b v = refl
bits_from-low_bits (suc n) b v =
    let half : v / 2 ^ (b + 1) ≡ v / 2 ^ b / 2 =
      ap (λ (t : ℕ). v / t) (ap (λ (t : ℕ). 2 ^ t) (omega arith) ∙ pow-suc 2 b)
      ∙ sym (div-div-eq-div-mul v (2 ^ b) 2) in
    ap₂ ◌∷◌ (bit_and_mask 1 (v / 2 ^ b)) (bits_from-low_bits n (b + 1) v ∙ ap (low_bits n) half)

pub bytes_bits-bits_of : (bytes : List ℕ) → bytes_bits bytes ≡ bits_of bytes
unfolding bytes_bits
bytes_bits-bits_of [] = refl
bytes_bits-bits_of (b ∷ bytes) =
    let whole : b / 1 ≡ b = omega arith in
    ap₂ ◌++◌ (bits_from-low_bits 8 0 b ∙ ap (low_bits 8) whole) (bytes_bits-bits_of bytes)

-- Setting a bit.
pub low_bits-bit_or : (n r b : ℕ) → low_bits n (bit_or b (2 ^ r)) ≡ set (low_bits n b) r 1
low_bits-bit_or zero r b = refl
low_bits-bit_or (suc n) zero b =
    let s = bit_or_step b 1 in
    let low : bit_or b 1 % 2 ≡ 1 = omega (arith, s) in
    let high : bit_or b 1 / 2 ≡ b / 2 = omega (arith, s, bit_or-zero (b / 2)) in
    ap₂ ◌∷◌ low (ap (low_bits n) high)
low_bits-bit_or (suc n) (suc r) b =
    let s = bit_or_step b (2 ^ suc r) in
    let p : 2 ^ suc r ≡ 2 ^ r * 2 = pow-suc 2 r in
    let half : 2 ^ suc r / 2 ≡ 2 ^ r = omega (arith, p) in
    let t = ap (bit_or (b / 2)) half in
    let low : bit_or b (2 ^ suc r) % 2 ≡ b % 2 = omega (arith, s, p) in
    let high : bit_or b (2 ^ suc r) / 2 ≡ bit_or (b / 2) (2 ^ r) = omega (arith, s, t, p) in
    ap₂ ◌∷◌ low (ap (low_bits n) high ∙ low_bits-bit_or n r (b / 2))

-- A mask of ones keeps all bits.
low_bits-mask : (n b : ℕ) → low_bits n (bit_and b (2 ^ n - 1)) ≡ low_bits n b
low_bits-mask zero b = refl
low_bits-mask (suc n) b =
    let s = bit_and_step b (2 ^ suc n - 1) in
    let p : 2 ^ suc n ≡ 2 ^ n * 2 = pow-suc 2 n in
    let half : (2 ^ suc n - 1) / 2 ≡ 2 ^ n - 1 = omega (arith, p, one-le-pow n 2) in
    let t = ap (bit_and (b / 2)) half in
    let low : bit_and b (2 ^ suc n - 1) % 2 ≡ b % 2 = omega (arith, s, p, one-le-pow n 2) in
    let high : bit_and b (2 ^ suc n - 1) / 2 ≡ bit_and (b / 2) (2 ^ n - 1) =
      omega (arith, s, t, p, one-le-pow n 2) in
    ap₂ ◌∷◌ low (ap (low_bits n) high ∙ low_bits-mask n (b / 2))

-- Clearing a bit.
low_bits-bit_and :
    (n r b : ℕ) → r < n → low_bits n (bit_and b (2 ^ n - 1 - 2 ^ r)) ≡ set (low_bits n b) r 0
low_bits-bit_and zero r b h = refl
low_bits-bit_and (suc n) zero b h =
    let s = bit_and_step b (2 ^ suc n - 1 - 1) in
    let p : 2 ^ suc n ≡ 2 ^ n * 2 = pow-suc 2 n in
    let half : (2 ^ suc n - 1 - 1) / 2 ≡ 2 ^ n - 1 = omega (arith, p, one-le-pow n 2) in
    let t = ap (bit_and (b / 2)) half in
    let low : bit_and b (2 ^ suc n - 1 - 1) % 2 ≡ 0 = omega (arith, s, p, one-le-pow n 2) in
    let high : bit_and b (2 ^ suc n - 1 - 1) / 2 ≡ bit_and (b / 2) (2 ^ n - 1) =
      omega (arith, s, t, p, one-le-pow n 2) in
    ap₂ ◌∷◌ low (ap (low_bits n) high ∙ low_bits-mask n (b / 2))
low_bits-bit_and (suc n) (suc r) b h =
    let mask = 2 ^ suc n - 1 - 2 ^ suc r in
    let s = bit_and_step b mask in
    let p : 2 ^ suc n ≡ 2 ^ n * 2 = pow-suc 2 n in
    let q : 2 ^ suc r ≡ 2 ^ r * 2 = pow-suc 2 r in
    let room : 2 ^ r < 2 ^ n = pow_lt r n (omega (arith, h)) in
    let half : mask / 2 ≡ 2 ^ n - 1 - 2 ^ r = omega (arith, p, q, room) in
    let t = ap (bit_and (b / 2)) half in
    let odd : mask % 2 ≡ 1 = omega (arith, p, q, room) in
    let low : bit_and b mask % 2 ≡ b % 2 = omega (arith, s, odd) in
    let high : bit_and b mask / 2 ≡ bit_and (b / 2) (2 ^ n - 1 - 2 ^ r) = omega (arith, s, t) in
    ap₂ ◌∷◌ low (ap (low_bits n) high ∙ low_bits-bit_and n r (b / 2) (omega (arith, h)))
  where
    pow_lt : (r n : ℕ) → r < n → 2 ^ r < 2 ^ n
    pow_lt r zero h = absurd (omega arith)
    pow_lt zero (suc n) h = omega (arith, pow-suc 2 n, one-le-pow n 2)
    pow_lt (suc r) (suc n) h =
        omega (arith, pow-suc 2 n, pow-suc 2 r, pow_lt r n (omega (arith, h)))

pub low_bits-clear_bit : (r b : ℕ) → r < 8 → low_bits 8 (clear_bit b r) ≡ set (low_bits 8 b) r 0
unfolding clear_bit
low_bits-clear_bit r b h = low_bits-bit_and 8 r b h

set_front : (xs ys : List ℕ) (i v : ℕ) → i < length xs → set (xs ++ ys) i v ≡ set xs i v ++ ys
set_front [] ys i v h = absurd (omega arith)
set_front (x ∷ xs) ys zero v h = refl
set_front (x ∷ xs) ys (suc i) v h = ap (◌∷◌ x) (set_front xs ys i v (omega arith))

-- A byte that differs in one bit changes that bit of the buffer.
pub bits_of-set :
    (out : List ℕ) (k r w v : ℕ)
    → k < length out
    → r < 8
    → low_bits 8 w ≡ set (low_bits 8 (get_or out k 0)) r v
    → bits_of (set out k w) ≡ set (bits_of out) (k * 8 + r) v
bits_of-set [] k r w v h s e = absurd (omega arith)
bits_of-set (x ∷ out) zero r w v h s e =
    let first : r ≡ 0 * 8 + r = omega arith in
    ap (λ t. t ++ bits_of out) e
    ∙ sym (set_front (low_bits 8 x) (bits_of out) r v s)
    ∙ ap (λ (t : ℕ). set (low_bits 8 x ++ bits_of out) t v) first
bits_of-set (x ∷ out) (suc k) r w v h s e =
    let place : suc k * 8 + r ≡ suc (suc (suc (suc (suc (suc (suc (suc (k * 8 + r)))))))) =
      omega arith in
    ap (λ t. low_bits 8 x ++ t) (bits_of-set out k r w v (omega arith) s e)
    ∙ sym (ap (λ (t : ℕ). set (low_bits 8 x ++ bits_of out) t v) place)

pub bit_or-lt : (k a b : ℕ) → a < 2 ^ k → b < 2 ^ k → bit_or a b < 2 ^ k
bit_or-lt zero a b p q =
    let za : a ≡ 0 = omega (arith, p) in
    let zb : b ≡ 0 = omega (arith, q) in omega (arith, ap₂ bit_or za zb, bit_or-zero 0)
bit_or-lt (suc k) a b p q = omega (
  arith,
  bit_or_step a b,
  pow-suc 2 k,
  bit_or-lt k (a / 2) (b / 2) (omega (arith, pow-suc 2 k)) (omega (arith, pow-suc 2 k)),
)

pub bit_and-lt : (k a b : ℕ) → a < 2 ^ k → b < 2 ^ k → bit_and a b < 2 ^ k
bit_and-lt zero a b p q =
    let za : a ≡ 0 = omega (arith, p) in
    let zb : b ≡ 0 = omega (arith, q) in omega (arith, ap₂ bit_and za zb, bit_and-zero 0)
bit_and-lt (suc k) a b p q = omega (
  arith,
  bit_and_step a b,
  pow-suc 2 k,
  bit_and-lt k (a / 2) (b / 2) (omega (arith, pow-suc 2 k)) (omega (arith, pow-suc 2 k)),
)

-- Bytes that are read and written.
pub get_or-All : (xs : List ℕ) (i : ℕ) → All (λ b. b < 256) xs → get_or xs i 0 < 256
get_or-All [] i h = omega arith
get_or-All (x ∷ xs) zero (h, hs) = h
get_or-All (x ∷ xs) (suc i) (h, hs) = get_or-All xs i hs

pub set-All :
    (xs : List ℕ) (i v : ℕ) → All (λ b. b < 256) xs → v < 256 → All (λ b. b < 256) (set xs i v)
set-All [] i v h p = h
set-All (x ∷ xs) zero v (h, hs) p = (p, hs)
set-All (x ∷ xs) (suc i) v (h, hs) p = (h, set-All xs i v hs p)

pub bit_mask-lt : (r : ℕ) → r < 8 → 2 ^ r < 256
bit_mask-lt zero h = omega arith
bit_mask-lt (suc zero) h = omega arith
bit_mask-lt (suc (suc zero)) h = omega arith
bit_mask-lt (suc (suc (suc zero))) h = omega arith
bit_mask-lt (suc (suc (suc (suc zero)))) h = omega arith
bit_mask-lt (suc (suc (suc (suc (suc zero))))) h = omega arith
bit_mask-lt (suc (suc (suc (suc (suc (suc zero)))))) h = omega arith
bit_mask-lt (suc (suc (suc (suc (suc (suc (suc zero))))))) h = omega arith
bit_mask-lt (suc (suc (suc (suc (suc (suc (suc (suc r)))))))) h = absurd (omega arith)
