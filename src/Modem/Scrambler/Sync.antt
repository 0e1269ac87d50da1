-- ===== src/Modem/Scrambler/Sync.antt =====
-- The descrambler gives back what was scrambled, at once from the same register and after 17 bits
-- from any.
use packet_radio_rs.Base.{
  ℕ, zero, suc, ◌+◌, ◌*◌, ◌/◌, ◌%◌, ◌^◌, ◌-◌, ◌≤◌, ◌<◌, ◌≡◌, refl, sym, ap, ap₂, subst, ◌∙◌, arith,
  Bool, not, List, [], ◌∷◌, bit_and, bit_xor, bit_and_mask, bit_or_fields, bit_xor_step,
  bit_xor_self, ◌==◌, drop,
}
use Prim.Native.Nat.{◌∣◌}
use native.Mathlib.Nat.{
  div-add-mod', mul-add-mod_self_right, mul_assoc, pow-suc, mod-mod_of_dvd, dvd_refl,
  dvd-mul_right_of_dvd,
}
use packet_radio_rs.Modem.Scrambler.{
  Descrambler, Scrambler, bit_value, tapped, shift_in, descramble, scramble, descramble_all,
  scramble_all,
}

-- A register keeps 17 bits: the newest comes in below.
shift_in_lem : (reg b : ℕ) → reg < 2 ^ 17 → b < 2 → shift_in reg b ≡ (reg * 2 + b) % 2 ^ 17
unfolding shift_in
shift_in_lem reg b h k =
    let plain : reg * 2 % 2 ^ 32 ≡ reg * 2 = omega arith in
    rw (plain, bit_or_fields 1 reg b k) (bit_and_mask 17 (reg * 2 + b))

xor_small : (a b : ℕ) → a < 2 → b < 2 → bit_xor a b ≡ (a + b) % 2
xor_small a b h k =
    omega (arith, bit_xor_step a b, bit_xor_self 0, ap₂ bit_xor (half_of a h) (half_of b k))
  where
    half_of : (x : ℕ) → x < 2 → x / 2 ≡ 0
    half_of x l = omega arith

-- The two taps.
abbrev taps : ℕ → ℕ
taps reg = (reg / 2 ^ 11 % 2 + reg / 2 ^ 16 % 2) % 2

tapped_lem : (reg : ℕ) (b : Bool) → tapped reg b ≡ (bit_value b + taps reg) % 2
unfolding tapped
tapped_lem reg b =
    let low = bit_value b in
    let one = bit_and (reg / 2 ^ 11) 1 in
    let two = bit_and (reg / 2 ^ 16) 1 in
    let small : low < 2 = ground arith in
    let first : one ≡ reg / 2 ^ 11 % 2 = bit_and_mask 1 (reg / 2 ^ 11) in
    let second : two ≡ reg / 2 ^ 16 % 2 = bit_and_mask 1 (reg / 2 ^ 16) in
    let inner : bit_xor low one ≡ (low + one) % 2 =
      xor_small low one small (omega (arith, first)) in
    xor_small (bit_xor low one) two (omega (arith, inner)) (omega (arith, second))
    ∙ omega (arith, inner, first, second)

tapped_lt : (reg : ℕ) (b : Bool) → tapped reg b < 2
tapped_lt reg b = omega (arith, tapped_lem reg b)

-- Tapping twice gives the bit back.
tapped_twice : (reg : ℕ) (b : Bool) → not (tapped reg (not (tapped reg b == 0)) == 0) ≡ b
tapped_twice reg b = ground (arith, tapped_lem reg b, tapped_lem reg (not (tapped reg b == 0)))

-- The output of the scrambler as a bit and as a number.
output_bit : (reg : ℕ) (b : Bool) → bit_value (not (tapped reg b == 0)) ≡ tapped reg b
output_bit reg b = ground (arith, tapped_lt reg b)

-- Two registers that agree in their last bits agree in one more after the same bit.
shift_agree : (m a b c : ℕ) → a % m ≡ b % m → (a * 2 + c) % (m * 2) ≡ (b * 2 + c) % (m * 2)
shift_agree m a b c h = widen a ∙ ap (λ (t : ℕ). (t * 2 + c) % (m * 2)) h ∙ sym (widen b)
  where
    widen : (x : ℕ) → (x * 2 + c) % (m * 2) ≡ (x % m * 2 + c) % (m * 2)
    widen x =
        let parts : x / m * (m * 2) + (x % m * 2 + c) ≡ x * 2 + c =
          omega (arith, div-add-mod' x m, sym (mul_assoc (x / m) m 2)) in
        ap (λ (t : ℕ). t % (m * 2)) (sym parts)
        ∙ mul-add-mod_self_right (x / m) (m * 2) (x % m * 2 + c)

pow_dvd : (a r n : ℕ) → a + r ≡ n → 2 ^ a ∣ 2 ^ n
pow_dvd a zero n h =
    subst (λ (t : ℕ). 2 ^ a ∣ 2 ^ t) (◌∙◌ {A = ℕ} (omega arith) h) (dvd_refl (2 ^ a))
pow_dvd a (suc r) n h =
    subst (λ (t : ℕ). 2 ^ a ∣ 2 ^ t) (◌∙◌ {A = ℕ} (omega arith) h)
      (subst (λ (t : ℕ). 2 ^ a ∣ t) (sym (pow-suc 2 (a + r)))
        (dvd-mul_right_of_dvd (2 ^ a) (pow_dvd a r (a + r) refl) 2))

-- The register after one more bit: 17 bits are kept, so that agreement below them survives.
agree_next :
    (n a b : ℕ) (c : ℕ)
    → suc n ≤ 17
    → a < 2 ^ 17
    → b < 2 ^ 17
    → c < 2
    → a % 2 ^ n ≡ b % 2 ^ n
    → shift_in a c % 2 ^ suc n ≡ shift_in b c % 2 ^ suc n
agree_next n a b c l p q k h =
    kept a p
    ∙ ap (λ (t : ℕ). (a * 2 + c) % t) (pow-suc 2 n)
    ∙ shift_agree (2 ^ n) a b c h
    ∙ sym (kept b q ∙ ap (λ (t : ℕ). (b * 2 + c) % t) (pow-suc 2 n))
  where
    kept : (x : ℕ) → x < 2 ^ 17 → shift_in x c % 2 ^ suc n ≡ (x * 2 + c) % 2 ^ suc n
    kept x r =
        ap (λ (t : ℕ). t % 2 ^ suc n) (shift_in_lem x c r k)
        ∙ mod-mod_of_dvd (2 ^ suc n) (x * 2 + c) (pow_dvd (suc n) (17 - suc n) 17 (omega arith))

shift_in_lt : (reg b : ℕ) → reg < 2 ^ 17 → b < 2 → shift_in reg b < 2 ^ 17
shift_in_lt reg b h k = omega (arith, shift_in_lem reg b h k)

-- Registers of 17 bits that agree but for their first `k` bits: from the `k`th bit on the
-- descrambler gives back what was scrambled.
descramble-scramble_from :
    (k : ℕ) (s : Scrambler) (d : Descrambler) (bits : List Bool)
    → k ≤ 17
    → s.shift_reg < 2 ^ 17
    → d.shift_reg < 2 ^ 17
    → s.shift_reg % 2 ^ (17 - k) ≡ d.shift_reg % 2 ^ (17 - k)
    → drop k (descramble_all d (scramble_all s bits)) ≡ drop k bits
unfolding descramble_all scramble_all descramble scramble
descramble-scramble_from k s d [] l p q h = refl
descramble-scramble_from zero s d (b ∷ bits) l p q h =
    let same : s.shift_reg ≡ d.shift_reg = omega (arith, h, p, q) in
    let out = tapped s.shift_reg b in
    let next = shift_in s.shift_reg out in
    let small = shift_in_lt s.shift_reg out p (tapped_lt s.shift_reg b) in
    rw (sym same, tapped_twice s.shift_reg b, output_bit s.shift_reg b)
      (ap (◌∷◌ b) (
        descramble-scramble_from zero (record { shift_reg = next }) (record { shift_reg = next })
          bits (omega arith) small small refl))
descramble-scramble_from (suc k) s d (b ∷ bits) l p q h =
    let out = tapped s.shift_reg b in
    let small = tapped_lt s.shift_reg b in
    let left : 17 - k ≡ suc (17 - suc k) = omega arith in
    rw (output_bit s.shift_reg b) (
      descramble-scramble_from k (record { shift_reg = shift_in s.shift_reg out })
        (record { shift_reg = shift_in d.shift_reg out }) bits (omega arith)
        (shift_in_lt s.shift_reg out p small) (shift_in_lt d.shift_reg out q small)
        (rw left (agree_next (17 - suc k) s.shift_reg d.shift_reg out (omega arith) p q small h)))

-- The descrambler, started from any register of 17 bits, gives back all scrambled bits but the
-- first 17.
pub descramble_all-scramble_all_sync :
    (s : Scrambler) (d : Descrambler) (bits : List Bool)
    → s.shift_reg < 2 ^ 17
    → d.shift_reg < 2 ^ 17
    → drop 17 (descramble_all d (scramble_all s bits)) ≡ drop 17 bits
descramble_all-scramble_all_sync s d bits p q =
    descramble-scramble_from 17 s d bits (omega arith) p q (omega arith)

-- A descrambler with the scrambler's register gives back every bit.
pub descramble_all-scramble_all :
    (reg : ℕ) (bits : List Bool)
    → reg < 2 ^ 17
    → descramble_all (record { shift_reg = reg }) (scramble_all (record { shift_reg = reg }) bits)
      ≡ bits
descramble_all-scramble_all reg bits p =
    descramble-scramble_from 0 (record { shift_reg = reg }) (record { shift_reg = reg }) bits
      (omega arith) p p refl
