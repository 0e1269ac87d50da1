-- ===== src/Base/Bits.antt =====
-- Laws of the native `bit_and`, `bit_or` and `bit_xor` at variables, from their binary digits.
use Prim.Native.Nat.{
  ℕ, zero, suc, ◌+◌, ◌*◌, ◌/◌, ◌%◌, ◌^◌, ◌-◌, ◌≤◌, ◌<◌, min, max, bit_and, bit_or, bit_xor, digits,
  bitwise, differ, bit_and-bitwise, bit_or-bitwise, bit_xor-bitwise,
}
use mathlib.Core.Path.{◌≡◌, refl, sym, ap, ap₂, ◌∙◌}
use native.Mathlib.Omega.{arith}
use native.Mathlib.Nat.{le_refl, pow-suc, pow-succ', one-le-pow, div-div-eq-div-mul, mul_assoc}

-- The fuel of `digits` beyond the first argument changes nothing.
module _ (z : ℕ → ℕ) (f : ℕ → ℕ → ℕ) where
  digits_enough : (n m a b : ℕ) → a ≤ n → a ≤ m → digits z f n a b ≡ digits z f m a b
  digits_enough zero zero zero b p q = refl
  digits_enough zero m (suc a) b p q = absurd (omega arith)
  digits_enough (suc n) zero (suc a) b p q = absurd (omega arith)
  digits_enough zero (suc m) zero b p q = refl
  digits_enough (suc n) zero zero b p q = refl
  digits_enough (suc n) (suc m) zero b p q = refl
  digits_enough (suc n) (suc m) (suc a) b p q =
      omega (arith, digits_enough n m (suc a / 2) (b / 2) (omega arith) (omega arith))

  bitwise_step_suc :
      (a b : ℕ)
      → bitwise z f (suc a) b ≡ bitwise z f (suc a / 2) (b / 2) * 2 + f (suc a % 2) (b % 2)
  bitwise_step_suc a b =
      omega (arith, digits_enough a (suc a / 2) (suc a / 2) (b / 2) (omega arith) (le_refl _))

differ_small : (x y : ℕ) → x < 2 → y < 2 → differ x y ≡ (x + y) % 2
differ_small zero y p q = omega arith
differ_small (suc zero) zero p q = refl
differ_small (suc zero) (suc zero) p q = refl
differ_small (suc zero) (suc (suc y)) p q = absurd (omega arith)
differ_small (suc (suc x)) y p q = absurd (omega arith)

differ_digits : (x y : ℕ) → differ (x % 2) (y % 2) ≡ (x + y) % 2
differ_digits x y = omega (arith, differ_small (x % 2) (y % 2) (omega arith) (omega arith))

pub bit_and_step : (a b : ℕ) → bit_and a b ≡ bit_and (a / 2) (b / 2) * 2 + min (a % 2) (b % 2)
bit_and_step zero b = omega (arith, bit_and-bitwise 0 b, bit_and-bitwise 0 (b / 2))
bit_and_step (suc a) b = simp bit_and-bitwise (bitwise_step_suc (λ y. 0) min a b)

pub bit_or_step : (a b : ℕ) → bit_or a b ≡ bit_or (a / 2) (b / 2) * 2 + max (a % 2) (b % 2)
bit_or_step zero b = omega (arith, bit_or-bitwise 0 b, bit_or-bitwise 0 (b / 2))
bit_or_step (suc a) b = simp bit_or-bitwise (bitwise_step_suc (λ y. y) max a b)

pub bit_xor_step : (a b : ℕ) → bit_xor a b ≡ bit_xor (a / 2) (b / 2) * 2 + (a + b) % 2
bit_xor_step zero b = omega (arith, bit_xor-bitwise 0 b, bit_xor-bitwise 0 (b / 2))
bit_xor_step (suc a) b =
    simp bit_xor-bitwise
      (omega (arith, bitwise_step_suc (λ y. y) differ a b, differ_digits (suc a) b))

pub zero-bit_xor : (b : ℕ) → bit_xor 0 b ≡ b
zero-bit_xor b = bit_xor-bitwise 0 b

-- Each law by induction on a bound of the operands, a digit at a time.
bit_xor_comm_upto : (n a b : ℕ) → a ≤ n → b ≤ n → bit_xor a b ≡ bit_xor b a
bit_xor_comm_upto zero zero zero p q = refl
bit_xor_comm_upto zero (suc a) b p q = absurd (omega arith)
bit_xor_comm_upto zero zero (suc b) p q = absurd (omega arith)
bit_xor_comm_upto (suc n) a b p q = omega (
  arith,
  bit_xor_step a b,
  bit_xor_step b a,
  bit_xor_comm_upto n (a / 2) (b / 2) (omega arith) (omega arith),
)

pub bit_xor_comm : (a b : ℕ) → bit_xor a b ≡ bit_xor b a
bit_xor_comm a b = bit_xor_comm_upto (a + b) a b (omega arith) (omega arith)

pub bit_xor-zero : (a : ℕ) → bit_xor a 0 ≡ a
bit_xor-zero a = omega (arith, bit_xor_comm a 0, zero-bit_xor a)

pub bit_xor-half : (a b : ℕ) → bit_xor a b / 2 ≡ bit_xor (a / 2) (b / 2)
bit_xor-half a b = omega (arith, bit_xor_step a b)

parity_left : (a b c : ℕ) → (bit_xor a b + c) % 2 ≡ (a + b + c) % 2
parity_left a b c = omega (arith, bit_xor_step a b)

parity_right : (a b c : ℕ) → (a + bit_xor b c) % 2 ≡ (a + b + c) % 2
parity_right a b c = omega (arith, bit_xor_step b c)

bit_xor_assoc_upto :
    (n a b c : ℕ) → a ≤ n → b ≤ n → c ≤ n → bit_xor (bit_xor a b) c ≡ bit_xor a (bit_xor b c)
bit_xor_assoc_upto zero zero zero zero p q r = refl
bit_xor_assoc_upto zero (suc a) b c p q r = absurd (omega arith)
bit_xor_assoc_upto zero zero (suc b) c p q r = absurd (omega arith)
bit_xor_assoc_upto zero zero zero (suc c) p q r = absurd (omega arith)
bit_xor_assoc_upto (suc n) a b c p q r =
    bit_xor_step (bit_xor a b) c
    ∙ ap₂ (λ x y. bit_xor x (c / 2) * 2 + y) (bit_xor-half a b) (parity_left a b c)
    ∙ ap₂ (λ x y. x * 2 + y)
        (bit_xor_assoc_upto n (a / 2) (b / 2) (c / 2) (omega arith) (omega arith) (omega arith))
        refl
    ∙ sym (
        bit_xor_step a (bit_xor b c)
        ∙ ap₂ (λ x y. bit_xor (a / 2) x * 2 + y) (bit_xor-half b c) (parity_right a b c))

pub bit_xor_assoc : (a b c : ℕ) → bit_xor (bit_xor a b) c ≡ bit_xor a (bit_xor b c)
bit_xor_assoc a b c = bit_xor_assoc_upto (a + b + c) a b c (omega arith) (omega arith) (omega arith)

pub bit_xor_interchange :
    (a b c d : ℕ) → bit_xor (bit_xor a b) (bit_xor c d) ≡ bit_xor (bit_xor a c) (bit_xor b d)
bit_xor_interchange a b c d =
    bit_xor_assoc a b (bit_xor c d)
    ∙ ap (bit_xor a)
        (sym (bit_xor_assoc b c d) ∙ ap (λ t. bit_xor t d) (bit_xor_comm b c) ∙ bit_xor_assoc c b d)
    ∙ sym (bit_xor_assoc a c (bit_xor b d))

bit_xor_self_upto : (n a : ℕ) → a ≤ n → bit_xor a a ≡ 0
bit_xor_self_upto zero zero p = refl
bit_xor_self_upto zero (suc a) p = absurd (omega arith)
bit_xor_self_upto (suc n) a p =
    omega (arith, bit_xor_step a a, bit_xor_self_upto n (a / 2) (omega arith))

pub bit_xor_self : (a : ℕ) → bit_xor a a ≡ 0
bit_xor_self a = bit_xor_self_upto a a (omega arith)

-- Two numbers with exclusive or 0 are equal.
pub bit_xor-eq_zero : (a b : ℕ) → bit_xor a b ≡ 0 → a ≡ b
bit_xor-eq_zero a b h =
    sym (bit_xor-zero a)
    ∙ ap (bit_xor a) (sym (bit_xor_self b))
    ∙ sym (bit_xor_assoc a b b)
    ∙ ap (λ t. bit_xor t b) h
    ∙ zero-bit_xor b

pub bit_xor_cancel : (a b : ℕ) → bit_xor a (bit_xor a b) ≡ b
bit_xor_cancel a b =
    sym (bit_xor_assoc a a b) ∙ ap (λ t. bit_xor t b) (bit_xor_self a) ∙ zero-bit_xor b

pub bit_xor-lt : (k a b : ℕ) → a < 2 ^ k → b < 2 ^ k → bit_xor a b < 2 ^ k
bit_xor-lt zero a b p q = ground (arith, bit_xor_self 0)
bit_xor-lt (suc k) a b p q = omega (
  arith,
  bit_xor_step a b,
  pow-suc 2 k,
  bit_xor-lt k (a / 2) (b / 2) (omega (arith, pow-suc 2 k)) (omega (arith, pow-suc 2 k)),
)

bit_and_zero_upto : (n a : ℕ) → a ≤ n → bit_and a 0 ≡ 0
bit_and_zero_upto zero zero p = refl
bit_and_zero_upto zero (suc a) p = absurd (omega arith)
bit_and_zero_upto (suc n) a p =
    omega (arith, bit_and_step a 0, bit_and_zero_upto n (a / 2) (omega arith))

pub bit_and-zero : (a : ℕ) → bit_and a 0 ≡ 0
bit_and-zero a = bit_and_zero_upto a a (omega arith)

bit_or_zero_upto : (n a : ℕ) → a ≤ n → bit_or a 0 ≡ a
bit_or_zero_upto zero zero p = refl
bit_or_zero_upto zero (suc a) p = absurd (omega arith)
bit_or_zero_upto (suc n) a p =
    omega (arith, bit_or_step a 0, bit_or_zero_upto n (a / 2) (omega arith))

pub bit_or-zero : (a : ℕ) → bit_or a 0 ≡ a
bit_or-zero a = bit_or_zero_upto a a (omega arith)

bit_and_low : (k hi lo : ℕ) → lo < 2 ^ k → bit_and (hi * 2 ^ k + lo) (2 ^ k - 1) ≡ lo
bit_and_low zero hi lo h = omega (arith, bit_and-zero (hi * 1 + lo))
bit_and_low (suc k) hi lo h = ground (
  arith,
  bit_and_step (hi * 2 ^ suc k + lo) (2 ^ suc k - 1),
  pow-suc 2 k,
  ap (λ (t : ℕ). hi * t) (pow-suc 2 k),
  one-le-pow k 2,
  bit_and_low k hi (lo / 2) (omega (arith, pow-suc 2 k)),
)

-- A mask of `k` ones keeps the remainder by `2 ^ k`.
pub bit_and_mask : (k a : ℕ) → bit_and a (2 ^ k - 1) ≡ a % 2 ^ k
bit_and_mask k a = ground (arith, one-le-pow k 2, bit_and_low k (a / 2 ^ k) (a % 2 ^ k))

-- `hi` shifted by `k` and a field of `k` bits do not overlap.
pub bit_or_fields : (k hi lo : ℕ) → lo < 2 ^ k → bit_or (hi * 2 ^ k) lo ≡ hi * 2 ^ k + lo
bit_or_fields zero hi lo h = ground (arith, bit_or-zero hi)
bit_or_fields (suc k) hi lo h = ground (
  arith,
  bit_or_step (hi * 2 ^ suc k) lo,
  pow-suc 2 k,
  ap (λ (t : ℕ). hi * t) (pow-suc 2 k),
  bit_or_fields k hi (lo / 2) (omega (arith, pow-suc 2 k)),
)

bit_or_comm_upto : (n a b : ℕ) → a ≤ n → b ≤ n → bit_or a b ≡ bit_or b a
bit_or_comm_upto zero zero zero p q = refl
bit_or_comm_upto zero (suc a) b p q = absurd (omega arith)
bit_or_comm_upto zero zero (suc b) p q = absurd (omega arith)
bit_or_comm_upto (suc n) a b p q = omega (
  arith,
  bit_or_step a b,
  bit_or_step b a,
  bit_or_comm_upto n (a / 2) (b / 2) (omega arith) (omega arith),
)

pub bit_or_comm : (a b : ℕ) → bit_or a b ≡ bit_or b a
bit_or_comm a b = bit_or_comm_upto (a + b) a b (omega arith) (omega arith)

-- Setting the top bit of a byte whose top bit is clear.
pub bit_or_0x80 : (a : ℕ) → a < 128 → bit_or a 0x80 ≡ a + 128
bit_or_0x80 a h = omega (arith, bit_or_comm a 128, bit_or_fields 7 1 a h)

bit_and_double : (a b : ℕ) → bit_and a (b * 2) ≡ bit_and (a / 2) b * 2
bit_and_double a b =
    let e : b * 2 / 2 ≡ b = omega arith in
    omega (arith, bit_and_step a (b * 2), ap (bit_and (a / 2)) e)

shift_one : (k a : ℕ) → a / 2 / 2 ^ k % 2 * 2 ^ k * 2 ≡ a / 2 ^ suc k % 2 * 2 ^ suc k
shift_one k a =
    let p : 2 ^ suc k ≡ 2 ^ k * 2 = pow-suc 2 k in
    let q : 2 ^ suc k ≡ 2 * 2 ^ k = pow-succ' 2 k in
    let d : a / 2 / 2 ^ k ≡ a / 2 ^ suc k =
      div-div-eq-div-mul a 2 (2 ^ k) ∙ ap (λ (t : ℕ). a / t) (sym q) in
    ap (λ (t : ℕ). t % 2 * 2 ^ k * 2) d
    ∙ mul_assoc (a / 2 ^ suc k % 2) (2 ^ k) 2
    ∙ ap (λ (t : ℕ). a / 2 ^ suc k % 2 * t) (sym p)

-- One bit of a number.
pub bit_and_high : (k a : ℕ) → bit_and a (2 ^ k) ≡ a / 2 ^ k % 2 * 2 ^ k
bit_and_high zero a = omega (arith, bit_and_mask 1 a)
bit_and_high (suc k) a =
    ap (bit_and a) (pow-suc 2 k)
    ∙ bit_and_double a (2 ^ k)
    ∙ ap (λ (t : ℕ). t * 2) (bit_and_high k (a / 2))
    ∙ shift_one k a

-- The top bit of a byte.
pub bit_and_0x80 : (a : ℕ) → bit_and a 0x80 ≡ a / 128 % 2 * 128
bit_and_0x80 a = bit_and_high 7 a
