-- ===== src/Fx25/Gf256/Laws.antt =====
-- Multiplication and division in GF(256), by the logarithms.
use packet_radio_rs.Base.{
  ℕ, zero, suc, ◌+◌, ◌-◌, ◌%◌, ◌≤◌, ◌<◌, ◌≡◌, refl, sym, ap, ap₂, subst, ◌∙◌, arith, false, dec_lt,
  ◌==◌, ==-ne,
}
use packet_radio_rs.Fx25.Gf256.{
  gf_exp, exp_entries, next_val, gf_mul, gf_inv, gf_div, gf_log, fill_log,
}
use packet_radio_rs.Fx25.Gf256.Tables.{exp_at, log_at, log-exp, exp_period, exp_byte, exp-log}

pub gf_mul_zero : (a : ℕ) → gf_mul a 0 ≡ 0
unfolding gf_mul
gf_mul_zero zero = refl
gf_mul_zero (suc a) = rw (==-ne (suc a) 0 (ground arith)) refl

pub zero_gf_mul : (b : ℕ) → gf_mul 0 b ≡ 0
unfolding gf_mul
zero_gf_mul b = refl

pub gf_mul_nonzero : (a b : ℕ) → 0 < a → 0 < b → gf_mul a b ≡ exp_at (log_at a + log_at b)
unfolding gf_mul
gf_mul_nonzero a b p q =
    let na : (a == 0) ≡ false = ground arith in
    let nb : (b == 0) ≡ false = ground arith in rw (na, nb) refl

first : exp_at 0 ≡ 1
unfolding gf_exp exp_entries next_val
first = refl

-- The entries have period 255.
pub exp_mod : (i : ℕ) → i < 512 → exp_at i ≡ exp_at (i % 255)
exp_mod i h = elim (dec_lt i 255) [
  | yes small ↦ ap exp_at (omega arith)
  | no large ↦ elim (dec_lt i 510) [
    | yes once ↦ down i (omega arith) h ∙ ap exp_at (omega arith)
    | no twice ↦
        down i (omega arith) h
        ∙ down (i - 255) (omega arith) (omega arith)
        ∙ ap exp_at (omega arith)
  ]
]
  where
    down : (k : ℕ) → 255 ≤ k → k < 512 → exp_at k ≡ exp_at (k - 255)
    down k l u = ap exp_at (omega arith) ∙ exp_period (k - 255) (omega arith)

pub gf_mul_comm : (a b : ℕ) → gf_mul a b ≡ gf_mul b a
gf_mul_comm zero b = zero_gf_mul b ∙ sym (gf_mul_zero b)
gf_mul_comm (suc a) zero = gf_mul_zero (suc a) ∙ sym (zero_gf_mul (suc a))
gf_mul_comm (suc a) (suc b) =
    gf_mul_nonzero (suc a) (suc b) (omega arith) (omega arith)
    ∙ ap exp_at (omega arith)
    ∙ sym (gf_mul_nonzero (suc b) (suc a) (omega arith) (omega arith))

-- A product of entries is an entry.
pub gf_mul-exp :
    (i j : ℕ) → i < 255 → j < 255 → gf_mul (exp_at i) (exp_at j) ≡ exp_at ((i + j) % 255)
gf_mul-exp i j h k =
    gf_mul_nonzero (exp_at i) (exp_at j) (exp_byte i (omega arith)).0 (exp_byte j (omega arith)).0
    ∙ ap₂ (λ (x y : ℕ). exp_at (x + y)) (log-exp i (omega arith)) (log-exp j (omega arith))
    ∙ exp_mod (i % 255 + j % 255) (omega arith)
    ∙ ap exp_at (omega arith)

assoc_entries :
    (i j k : ℕ)
    → i < 255
    → j < 255
    → k < 255
    → gf_mul (gf_mul (exp_at i) (exp_at j)) (exp_at k)
      ≡ gf_mul (exp_at i) (gf_mul (exp_at j) (exp_at k))
assoc_entries i j k p q r =
    ap (λ t. gf_mul t (exp_at k)) (gf_mul-exp i j p q)
    ∙ gf_mul-exp ((i + j) % 255) k (omega arith) r
    ∙ ap exp_at (omega arith)
    ∙ sym
        (ap (gf_mul (exp_at i)) (gf_mul-exp j k q r) ∙ gf_mul-exp i ((j + k) % 255) p (omega arith))

-- Multiplication of bytes is associative.
pub gf_mul_assoc :
    (a b c : ℕ) → a < 256 → b < 256 → c < 256 → gf_mul (gf_mul a b) c ≡ gf_mul a (gf_mul b c)
gf_mul_assoc zero b c p q r =
    ap (λ t. gf_mul t c) (zero_gf_mul b) ∙ zero_gf_mul c ∙ sym (zero_gf_mul (gf_mul b c))
gf_mul_assoc (suc a) zero c p q r =
    ap (λ t. gf_mul t c) (gf_mul_zero (suc a))
    ∙ zero_gf_mul c
    ∙ sym (ap (gf_mul (suc a)) (zero_gf_mul c) ∙ gf_mul_zero (suc a))
gf_mul_assoc (suc a) (suc b) zero p q r =
    gf_mul_zero (gf_mul (suc a) (suc b))
    ∙ sym (ap (gf_mul (suc a)) (gf_mul_zero (suc b)) ∙ gf_mul_zero (suc a))
gf_mul_assoc (suc a) (suc b) (suc c) p q r =
    let (e, i) = exp-log (suc a) (omega arith) p in
    let (e', j) = exp-log (suc b) (omega arith) q in
    let (e'', k) = exp-log (suc c) (omega arith) r in
    subst (λ x. gf_mul (gf_mul x (suc b)) (suc c) ≡ gf_mul x (gf_mul (suc b) (suc c))) e
      (subst
        (λ y.
          gf_mul (gf_mul (exp_at (log_at (suc a))) y) (suc c)
          ≡ gf_mul (exp_at (log_at (suc a))) (gf_mul y (suc c)))
        e'
        (subst
          (λ z.
            gf_mul (gf_mul (exp_at (log_at (suc a))) (exp_at (log_at (suc b)))) z
            ≡ gf_mul (exp_at (log_at (suc a))) (gf_mul (exp_at (log_at (suc b))) z))
          e'' (assoc_entries (log_at (suc a)) (log_at (suc b)) (log_at (suc c)) i j k)))

pub gf_mul-lt : (a b : ℕ) → a < 256 → b < 256 → gf_mul a b < 256
gf_mul-lt zero b p q = rw (zero_gf_mul b) (omega arith)
gf_mul-lt (suc a) zero p q = rw (gf_mul_zero (suc a)) (omega arith)
gf_mul-lt (suc a) (suc b) p q =
    let i = (exp-log (suc a) (omega arith) p).1 in
    let j = (exp-log (suc b) (omega arith) q).1 in
    rw (gf_mul_nonzero (suc a) (suc b) (omega arith) (omega arith))
      (exp_byte (log_at (suc a) + log_at (suc b)) (omega (arith, i, j))).1

-- A byte other than zero times its inverse is one.
pub gf_mul-gf_inv : (a : ℕ) → 0 < a → a < 256 → gf_mul a (gf_inv a) ≡ 1
unfolding gf_inv
gf_mul-gf_inv a p q =
    let (e, i) = exp-log a p q in
    let inv = 255 - log_at a in
    gf_mul_nonzero a (exp_at inv) p (exp_byte inv (omega arith)).0
    ∙ ap (λ (t : ℕ). exp_at (log_at a + t)) (log-exp inv (omega arith))
    ∙ exp_mod (log_at a + inv % 255) (omega arith)
    ∙ ap exp_at (omega arith)
    ∙ first

-- Division undoes multiplication by a byte other than zero.
pub gf_div-gf_mul : (a b : ℕ) → a < 256 → 0 < b → b < 256 → gf_div (gf_mul a b) b ≡ a
unfolding gf_div
gf_div-gf_mul zero b p q r = rw (zero_gf_mul b) refl
gf_div-gf_mul (suc a) b p q r =
    let (e, i) = exp-log (suc a) (omega arith) p in
    let j = (exp-log b q r).1 in
    let sum = log_at (suc a) + log_at b in
    let product = gf_mul_nonzero (suc a) b (omega arith) q in
    let nonzero : (exp_at sum == 0) ≡ false =
      ground (arith, (exp_byte sum (omega (arith, i, j))).0) in
    rw (product, nonzero, log-exp sum (omega (arith, i, j)))
      (exp_mod (sum % 255 + 255 - log_at b) (omega (arith, i, j))
        ∙ ap exp_at (omega (arith, i, j))
        ∙ e)

log_one : log_at 1 ≡ 0
unfolding gf_log fill_log gf_exp exp_entries next_val
log_one = refl

pub gf_mul_one : (a : ℕ) → 0 < a → a < 256 → gf_mul a 1 ≡ a
gf_mul_one a p q =
    gf_mul_nonzero a 1 p (omega arith)
    ∙ ap (λ (t : ℕ). exp_at (log_at a + t)) log_one
    ∙ ap exp_at (omega arith)
    ∙ (exp-log a p q).0
