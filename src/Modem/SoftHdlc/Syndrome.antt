-- ===== src/Modem/SoftHdlc/Syndrome.antt =====
-- The syndrome of one wrong bit is a number of CRC steps with no data, and says which bit it is.
use packet_radio_rs.Base.{
  ℕ, zero, suc, ◌+◌, ◌-◌, ◌*◌, ◌^◌, ◌≤◌, ◌<◌, ◌≡◌, ◌≢◌, refl, sym, ap, ap₂, subst, ◌∙◌, arith, Bool,
  true, false, some, List, [], ◌∷◌, ◌++◌, bit_xor, bit_xor-zero, ◌==◌, ==-ne, if◌then◌else◌, length,
}
use packet_radio_rs.Ax25.Crc.{crc_bit, crc_bits, crc_bytes}
use packet_radio_rs.Ax25.Crc.Linear.{
  crc_bits-xor, crc_bits-lt, crc_bytes-append, crc_bits-eq_zero, crc_bits_injective,
}
use packet_radio_rs.Modem.SoftHdlc.Defs.{crc_poly_reflected}
use packet_radio_rs.Modem.SoftHdlc.Recovery.{zero_step, find_error}

-- `n` steps with no data.
pub zero_steps : ℕ → ℕ → ℕ
zero_steps zero e = e
zero_steps (suc n) e = zero_steps n (zero_step e)

zero_step_lem : (e : ℕ) → zero_step e ≡ crc_bit e 0
unfolding zero_step crc_bit
zero_step_lem e = rw (bit_xor-zero e) refl

pub zero_steps_lem : (n e : ℕ) → zero_steps n e ≡ crc_bits n e 0
unfolding zero_steps crc_bits
zero_steps_lem zero e = refl
zero_steps_lem (suc n) e =
    zero_steps_lem n (zero_step e) ∙ ap (λ (t : ℕ). crc_bits n t 0) (zero_step_lem e)

same_steps : (e m n : ℕ) → m ≡ n → zero_steps m e ≡ zero_steps n e
same_steps e m n h = ap (λ (k : ℕ). zero_steps k e) h

zero_steps-add : (m n e : ℕ) → zero_steps n (zero_steps m e) ≡ zero_steps (m + n) e
unfolding zero_steps
zero_steps-add zero n e = same_steps e n (0 + n) (omega arith)
zero_steps-add (suc m) n e =
    let k : suc m + n ≡ suc (m + n) = omega arith in
    zero_steps-add m n (zero_step e) ∙ sym (ap (λ (t : ℕ). zero_steps t e) k)

zero_steps-lt : (n e : ℕ) → e < 2 ^ 16 → zero_steps n e < 2 ^ 16
zero_steps-lt n e h = subst (λ (t : ℕ). t < 2 ^ 16) (sym (zero_steps_lem n e)) (crc_bits-lt n e 0 h)

pub zero_steps_nonzero : (n : ℕ) → zero_steps n crc_poly_reflected ≢ 0
zero_steps_nonzero n h =
    let e : crc_poly_reflected ≡ 0 =
      crc_bits-eq_zero n crc_poly_reflected (omega arith)
        (sym (zero_steps_lem n crc_poly_reflected) ∙ h) in
    omega (arith, e)

zero_steps_injective :
    (n a b : ℕ) → a < 2 ^ 16 → b < 2 ^ 16 → zero_steps n a ≡ zero_steps n b → a ≡ b
zero_steps_injective n a b p q e =
    crc_bits_injective n a b 0 p q (sym (zero_steps_lem n a) ∙ e ∙ zero_steps_lem n b)

-- Whether the polynomial comes back within `n` steps from `e`.
comes_back : ℕ → ℕ → Bool
comes_back zero e = false
comes_back (suc n) e =
    let rest = comes_back n (zero_step e) in if e == crc_poly_reflected then true else rest

never : comes_back 3200 (zero_step crc_poly_reflected) ≡ false
unfolding comes_back zero_step
never = refl

comes_back_lem : (n m e : ℕ) → m < n → comes_back n e ≡ false → zero_steps m e ≢ crc_poly_reflected
unfolding comes_back zero_steps
comes_back_lem zero m e h b = absurd (omega arith)
comes_back_lem (suc n) zero e h b = ground (arith, b)
comes_back_lem (suc n) (suc m) e h b =
    comes_back_lem n m (zero_step e) (omega arith) (ground (arith, b))

-- The first 3200 steps give different registers.
different :
    (i m : ℕ) → i < m → m < 3200 → zero_steps i crc_poly_reflected ≢ zero_steps m crc_poly_reflected
different i m h l e =
    let rest = m - i in
    let split : zero_steps i (zero_steps rest crc_poly_reflected)
        ≡ zero_steps m crc_poly_reflected =
      zero_steps-add rest i crc_poly_reflected
      ∙ ap (λ (k : ℕ). zero_steps k crc_poly_reflected) (omega (arith, h)) in
    let back : crc_poly_reflected ≡ zero_steps rest crc_poly_reflected =
      zero_steps_injective i crc_poly_reflected (zero_steps rest crc_poly_reflected) (omega arith)
        (zero_steps-lt rest crc_poly_reflected (omega arith)) (e ∙ sym split) in
    let one : rest ≡ suc (rest - 1) = omega (arith, h) in
    comes_back_lem 3200 (rest - 1) (zero_step crc_poly_reflected) (omega (arith, l)) never
      (unfold zero_steps in sym (back ∙ ap (λ (k : ℕ). zero_steps k crc_poly_reflected) one))

-- The search finds the first step that gives the syndrome.
find_error_from :
    (m n k e : ℕ)
    → m < n
    → ((i : ℕ) → i < m → zero_steps i e ≢ zero_steps m e)
    → find_error n k e (zero_steps m e) ≡ some (k + m)
unfolding find_error zero_steps
find_error_from m zero k e h d = absurd (omega arith)
find_error_from zero (suc n) k e h d =
    let hit : (e == e) ≡ true = ground arith in rw hit (ap some (omega arith))
find_error_from (suc m) (suc n) k e h d =
    let miss : (e == zero_steps m (zero_step e)) ≡ false =
      ==-ne e (zero_steps m (zero_step e)) (d 0 (omega arith)) in
    rw miss (
      find_error_from m n (k + 1) (zero_step e) (omega arith) (λ i l. d (suc i) (omega arith))
      ∙ ap some (omega arith))

pub find_error_lem :
    (m n : ℕ)
    → m < n
    → n ≤ 3200
    → find_error n 0 crc_poly_reflected (zero_steps m crc_poly_reflected) ≡ some m
find_error_lem m n h l =
    find_error_from m n 0 crc_poly_reflected h (λ i k. different i m k (omega (arith, h, l)))
    ∙ ap some (omega arith)

-- A byte with one wrong bit.
one_bit : (r : ℕ) → r < 8 → crc_bits 8 0 (2 ^ r) ≡ zero_steps (7 - r) crc_poly_reflected
unfolding crc_bits crc_bit zero_steps zero_step
one_bit zero h = refl
one_bit (suc zero) h = refl
one_bit (suc (suc zero)) h = refl
one_bit (suc (suc (suc zero))) h = refl
one_bit (suc (suc (suc (suc zero)))) h = refl
one_bit (suc (suc (suc (suc (suc zero))))) h = refl
one_bit (suc (suc (suc (suc (suc (suc zero)))))) h = refl
one_bit (suc (suc (suc (suc (suc (suc (suc zero))))))) h = refl
one_bit (suc (suc (suc (suc (suc (suc (suc (suc r)))))))) h = absurd (omega arith)

-- A difference of the registers goes through the bytes behind it.
crc_bytes-xor :
    (post : List ℕ) (u w : ℕ)
    → crc_bytes (bit_xor u w) post ≡ bit_xor (crc_bytes u post) (zero_steps (8 * length post) w)
unfolding crc_bytes zero_steps
crc_bytes-xor [] u w = refl
crc_bytes-xor (y ∷ post) u w =
    let split : crc_bits 8 (bit_xor u w) y ≡ bit_xor (crc_bits 8 u y) (crc_bits 8 w 0) =
      ap (crc_bits 8 (bit_xor u w)) (sym (bit_xor-zero y)) ∙ crc_bits-xor 8 u y w 0 in
    ap (λ (t : ℕ). crc_bytes t post) split
    ∙ crc_bytes-xor post (crc_bits 8 u y) (crc_bits 8 w 0)
    ∙ ap (bit_xor (crc_bytes (crc_bits 8 u y) post)) (
        ap (zero_steps (8 * length post)) (sym (zero_steps_lem 8 w))
        ∙ zero_steps-add 8 (8 * length post) w
        ∙ same_steps w (8 + 8 * length post) (8 * length (y ∷ post)) (omega arith))

-- The register after bytes one of which has a wrong bit.
pub crc_bytes_one_bit :
    (pre post : List ℕ) (y r c : ℕ)
    → r < 8
    → crc_bytes c (pre ++ bit_xor y (2 ^ r) ∷ post)
      ≡ bit_xor
          (crc_bytes c (pre ++ y ∷ post))
          (zero_steps (8 * length post + (7 - r)) crc_poly_reflected)
unfolding crc_bytes
crc_bytes_one_bit pre post y r c h =
    let u = crc_bytes c pre in
    let split : crc_bits 8 u (bit_xor y (2 ^ r)) ≡ bit_xor (crc_bits 8 u y) (crc_bits 8 0 (2 ^ r)) =
      ap (λ (t : ℕ). crc_bits 8 t (bit_xor y (2 ^ r))) (sym (bit_xor-zero u))
      ∙ crc_bits-xor 8 u y 0 (2 ^ r) in
    crc_bytes-append pre (bit_xor y (2 ^ r) ∷ post) c
    ∙ ap (λ (t : ℕ). crc_bytes t post) split
    ∙ crc_bytes-xor post (crc_bits 8 u y) (crc_bits 8 0 (2 ^ r))
    ∙ ap₂ bit_xor (sym (crc_bytes-append pre (y ∷ post) c)) (
        ap (zero_steps (8 * length post)) (one_bit r h)
        ∙ zero_steps-add (7 - r) (8 * length post) crc_poly_reflected
        ∙ ap (λ (k : ℕ). zero_steps k crc_poly_reflected) (omega arith))
