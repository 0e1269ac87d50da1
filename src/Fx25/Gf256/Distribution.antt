-- ===== src/Fx25/Gf256/Distribution.antt =====
-- Multiplication in GF(256) distributes over addition: it is repeated multiplication by alpha, which
-- is linear.
use native.Mathlib.Nat.{div-div-eq-div-mul, pow-succ'}
use packet_radio_rs.Base.{
  ℕ, zero, suc, ◌+◌, ◌*◌, ◌/◌, ◌%◌, ◌^◌, ◌≤◌, ◌<◌, ◌≡◌, refl, sym, ap, ap₂, ◌∙◌, arith, ◌==◌,
  if◌then◌else◌, ltb, bit_xor, bit_xor_step, bit_xor-half, bit_xor_interchange, bit_xor-zero,
  bit_xor-lt, ltb→lt, Bool-cases, inl, inr,
}
use packet_radio_rs.Fx25.Gf256.{gf_add, gf_mul}
use packet_radio_rs.Fx25.Gf256.Tables.{exp_at, log_at, exp_step, exp-log, xtime}
use packet_radio_rs.Fx25.Gf256.Laws.{gf_mul_nonzero, gf_mul_zero, zero_gf_mul, exp_mod}

bit_xor-shift : (k a b : ℕ) → bit_xor a b / 2 ^ k ≡ bit_xor (a / 2 ^ k) (b / 2 ^ k)
bit_xor-shift zero a b = whole (bit_xor a b) ∙ sym (ap₂ bit_xor (whole a) (whole b))
  where
    whole : (x : ℕ) → x / 1 ≡ x
    whole x = omega arith
bit_xor-shift (suc k) a b =
    down (bit_xor a b)
    ∙ ap (λ (t : ℕ). t / 2 ^ k) (bit_xor-half a b)
    ∙ bit_xor-shift k (a / 2) (b / 2)
    ∙ sym (ap₂ bit_xor (down a) (down b))
  where
    down : (x : ℕ) → x / 2 ^ suc k ≡ x / 2 / 2 ^ k
    down x = ap (λ (t : ℕ). x / t) (pow-succ' 2 k) ∙ sym (div-div-eq-div-mul x 2 (2 ^ k))

-- What is added when the top bit leaves the byte.
abbrev reduction : ℕ → ℕ
reduction a = if ltb a 128 then 0 else 0x11D

reduction_add :
    (a b : ℕ) → a < 256 → b < 256 → reduction (bit_xor a b) ≡ bit_xor (reduction a) (reduction b)
reduction_add a b p q =
    top_of (bit_xor a b) (bit_xor-lt 8 a b p q)
    ∙ ap top (bit_xor-shift 7 a b)
    ∙ top_add (a / 128) (b / 128) (omega arith) (omega arith)
    ∙ sym (ap₂ bit_xor (top_of a p) (top_of b q))
  where
    top : ℕ → ℕ
    top t = if t == 0 then 0 else 0x11D

    top_of : (x : ℕ) → x < 256 → reduction x ≡ top (x / 128)
    top_of x h = ground arith

    top_add : (s t : ℕ) → s < 2 → t < 2 → top (bit_xor s t) ≡ bit_xor (top s) (top t)
    top_add zero zero h k = refl
    top_add zero (suc zero) h k = refl
    top_add (suc zero) zero h k = refl
    top_add (suc zero) (suc zero) h k = refl
    top_add (suc (suc s)) t h k = absurd (omega arith)
    top_add s (suc (suc t)) h k = absurd (omega arith)

xtime_add : (a b : ℕ) → a < 256 → b < 256 → xtime (bit_xor a b) ≡ bit_xor (xtime a) (xtime b)
xtime_add a b p q =
    ap₂ bit_xor doubled (reduction_add a b p q)
    ∙ bit_xor_interchange (a * 2) (b * 2) (reduction a) (reduction b)
  where
    doubled : bit_xor a b * 2 ≡ bit_xor (a * 2) (b * 2)
    doubled = sym (
        bit_xor_step (a * 2) (b * 2)
        ∙ ap₂ (λ (x y : ℕ). bit_xor x y * 2 + (a * 2 + b * 2) % 2) (half a) (half b)
        ∙ omega arith)
      where
        half : (x : ℕ) → x * 2 / 2 ≡ x
        half x = omega arith

xtime-lt : (a : ℕ) → a < 256 → xtime a < 256
xtime-lt a h = elim (Bool-cases (ltb a 128)) [
  | inl low ↦ let small : a < 128 = ltb→lt a 128 low in rw (low, bit_xor-zero (a * 2)) (omega arith)
  | inr high ↦
      let large : 128 ≤ a = ground (arith, high) in
      let one : a * 2 / 2 ^ 8 ≡ 1 = omega arith in
      let gone : bit_xor (a * 2) 0x11D / 2 ^ 8 ≡ 0 =
        bit_xor-shift 8 (a * 2) 0x11D ∙ ap (λ (t : ℕ). bit_xor t 1) one in
      rw high (omega (arith, gone))
]

-- Multiplication by alpha, `i` times.
times : ℕ → ℕ → ℕ
times zero b = b
times (suc i) b = xtime (times i b)

times-lt : (i b : ℕ) → b < 256 → times i b < 256
unfolding times
times-lt zero b h = h
times-lt (suc i) b h = xtime-lt (times i b) (times-lt i b h)

times_add :
    (i a b : ℕ) → a < 256 → b < 256 → times i (bit_xor a b) ≡ bit_xor (times i a) (times i b)
unfolding times
times_add zero a b p q = refl
times_add (suc i) a b p q =
    ap xtime (times_add i a b p q)
    ∙ xtime_add (times i a) (times i b) (times-lt i a p) (times-lt i b q)

times_zero : (i : ℕ) → times i 0 ≡ 0
unfolding times
times_zero zero = refl
times_zero (suc i) = ap xtime (times_zero i)

exp_times : (i j : ℕ) → j < 255 → exp_at ((i + j) % 255) ≡ times i (exp_at j)
unfolding times
exp_times zero j h = ap exp_at (omega arith)
exp_times (suc i) j h =
    ap exp_at (omega arith)
    ∙ sym (exp_mod ((i + j) % 255 + 1) (omega arith))
    ∙ exp_step ((i + j) % 255) (omega arith)
    ∙ ap xtime (exp_times i j h)

gf_mul-times : (a b : ℕ) → 0 < a → a < 256 → b < 256 → gf_mul a b ≡ times (log_at a) b
gf_mul-times a zero p q r = gf_mul_zero a ∙ sym (times_zero (log_at a))
gf_mul-times a (suc b) p q r =
    let (e, i) = exp-log a p q in
    let (e', j) = exp-log (suc b) (omega arith) r in
    gf_mul_nonzero a (suc b) p (omega arith)
    ∙ exp_mod (log_at a + log_at (suc b)) (omega (arith, i, j))
    ∙ exp_times (log_at a) (log_at (suc b)) j
    ∙ ap (times (log_at a)) e'

-- Multiplication of bytes distributes over addition.
pub gf_mul-gf_add :
    (a b c : ℕ)
    → a < 256
    → b < 256
    → c < 256
    → gf_mul a (gf_add b c) ≡ gf_add (gf_mul a b) (gf_mul a c)
unfolding gf_add
gf_mul-gf_add zero b c p q r =
    zero_gf_mul (bit_xor b c) ∙ sym (ap₂ bit_xor (zero_gf_mul b) (zero_gf_mul c))
gf_mul-gf_add (suc a) b c p q r =
    gf_mul-times (suc a) (bit_xor b c) (omega arith) p (bit_xor-lt 8 b c q r)
    ∙ times_add (log_at (suc a)) b c q r
    ∙ sym (
        ap₂ bit_xor (gf_mul-times (suc a) b (omega arith) p q)
          (gf_mul-times (suc a) c (omega arith) p r))
