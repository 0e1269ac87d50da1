-- ===== src/Fx25/Gf256/Tables.antt =====
-- The tables of GF(256), checked entry by entry.
use packet_radio_rs.Base.{
  ℕ, zero, suc, ◌+◌, ◌-◌, ◌*◌, ◌%◌, ◌<◌, ◌≡◌, refl, sym, ap, subst, ◌∙◌, arith, Bool, true, false,
  List, bit_xor, ◌==◌, if◌then◌else◌, get_or, ltb, ltb→lt, Bool-cases, inl, inr,
}
use packet_radio_rs.Fx25.Gf256.{next_val, exp_entries, gf_exp, fill_log, gf_log}

-- A test at all numbers below a bound.
all_below : ℕ → (ℕ → Bool) → Bool
all_below zero test = true
all_below (suc n) test = if test n then all_below n test else false

all_below_lem :
    (n : ℕ) (test : ℕ → Bool) → all_below n test ≡ true → (i : ℕ) → i < n → test i ≡ true
unfolding all_below
all_below_lem (suc n) test h i l = elim (Bool-cases (test n)) [
  | inl holds ↦
      let below : all_below n test ≡ true =
        sym (ap (λ b. if b then all_below n test else false) holds) ∙ h in
      elim (Bool-cases (ltb i n)) [
        | inl less ↦ all_below_lem n test below i (ltb→lt i n less)
        | inr last ↦
            let same : i ≡ n = ground (arith, last) in
            subst (λ (k : ℕ). test k ≡ true) (sym same) holds
      ]
  | inr fails ↦
      let wrong : false ≡ true = sym (ap (λ b. if b then all_below n test else false) fails) ∙ h in
      ground (arith, wrong)
]
all_below_lem zero test h i l = absurd (omega arith)

-- The logarithm of every entry, over two periods.
log_test : List ℕ → List ℕ → Bool
log_test exp log = all_below 510 (λ i. get_or log (get_or exp i 0) 0 == i % 255)

log_checked : log_test gf_exp gf_log ≡ true
unfolding log_test all_below gf_exp gf_log exp_entries fill_log next_val
log_checked = refl

-- Every byte but zero is the entry of its logarithm, which is below 255.
exp_test : List ℕ → List ℕ → Bool
exp_test exp log = all_below 255 (λ a.
    if get_or exp (get_or log (a + 1) 0) 0 == a + 1 then ltb (get_or log (a + 1) 0) 255 else false)

exp_checked : exp_test gf_exp gf_log ≡ true
unfolding exp_test all_below gf_exp gf_log exp_entries fill_log next_val
exp_checked = refl

-- Every entry is a byte other than zero.
byte_test : List ℕ → Bool
byte_test exp =
    all_below 512 (λ i. if ltb 0 (get_or exp i 0) then ltb (get_or exp i 0) 256 else false)

byte_checked : byte_test gf_exp ≡ true
unfolding byte_test all_below gf_exp exp_entries next_val
byte_checked = refl

-- Multiplication by alpha, as a shift with reduction.
abbrev pub xtime : ℕ → ℕ
xtime a = bit_xor (a * 2) (if ltb a 128 then 0 else 0x11D)

-- Every entry but the last is followed by its product with alpha, and repeats after 255 entries.
step_test : List ℕ → Bool
step_test exp = all_below 511 (λ i. get_or exp (i + 1) 0 == xtime (get_or exp i 0))

step_checked : step_test gf_exp ≡ true
unfolding step_test all_below gf_exp exp_entries next_val
step_checked = refl

period_test : List ℕ → Bool
period_test exp = all_below 257 (λ i. get_or exp (i + 255) 0 == get_or exp i 0)

period_checked : period_test gf_exp ≡ true
unfolding period_test all_below gf_exp exp_entries next_val
period_checked = refl

-- `EXP[i]` and `LOG[a]`.
abbrev pub exp_at : ℕ → ℕ
exp_at i = get_or gf_exp i 0

abbrev pub log_at : ℕ → ℕ
log_at a = get_or gf_log a 0

equal : (a b : ℕ) → (a == b) ≡ true → a ≡ b
equal a b h = ground (arith, h)

pub log-exp : (i : ℕ) → i < 510 → log_at (exp_at i) ≡ i % 255
unfolding log_test
log-exp i h = equal (log_at (exp_at i)) (i % 255) (all_below_lem 510 _ log_checked i h)

pub exp_step : (i : ℕ) → i < 511 → exp_at (i + 1) ≡ xtime (exp_at i)
unfolding step_test
exp_step i h = equal (exp_at (i + 1)) (xtime (exp_at i)) (all_below_lem 511 _ step_checked i h)

pub exp_period : (i : ℕ) → i < 257 → exp_at (i + 255) ≡ exp_at i
unfolding period_test
exp_period i h = equal (exp_at (i + 255)) (exp_at i) (all_below_lem 257 _ period_checked i h)

both : (b : Bool) (c : Bool) → (if b then c else false) ≡ true → (b ≡ true) × (c ≡ true)
both true c h = (refl, h)
both false c h = ground (arith, h)

pub exp_byte : (i : ℕ) → i < 512 → (0 < exp_at i) × (exp_at i < 256)
unfolding byte_test
exp_byte i h =
    let (p, q) =
      both (ltb 0 (exp_at i)) (ltb (exp_at i) 256) (all_below_lem 512 _ byte_checked i h) in
    (ltb→lt 0 (exp_at i) p, ltb→lt (exp_at i) 256 q)

pub exp-log : (a : ℕ) → 0 < a → a < 256 → (exp_at (log_at a) ≡ a) × (log_at a < 255)
unfolding exp_test
exp-log a l h =
    let e : a - 1 + 1 ≡ a = omega arith in
    let (p, q) =
      both (exp_at (log_at (a - 1 + 1)) == a - 1 + 1) (ltb (log_at (a - 1 + 1)) 255)
        (all_below_lem 255 _ exp_checked (a - 1) (omega arith)) in
    subst (λ (t : ℕ). (exp_at (log_at t) ≡ t) × (log_at t < 255)) e
      (equal (exp_at (log_at (a - 1 + 1))) (a - 1 + 1) p, ltb→lt (log_at (a - 1 + 1)) 255 q)
