-- ===== src/Fx25/Gf256/Tests.antt =====
-- GF(256) at concrete elements.
use packet_radio_rs.Base.{◌≡◌, refl, arith, [], ◌∷◌}
use packet_radio_rs.Fx25.Gf256.{
  gf_exp, gf_log, exp_entries, fill_log, next_val, gf_add, gf_mul, gf_inv, gf_div, gf_poly_eval,
  eval_from, gf_sub, gf_pow_alpha,
}
use packet_radio_rs.Fx25.Gf256.Laws.{gf_mul_assoc, gf_mul-gf_inv, gf_div-gf_mul}
use packet_radio_rs.Fx25.Gf256.Distribution.{gf_mul-gf_add}

-- 3x + 5 at x = 1, and alpha to the eighth.
linear_at_one : (gf_poly_eval (3 ∷ 5 ∷ []) 1 ≡ 6) × (gf_pow_alpha 8 ≡ 29) × (gf_sub 3 5 ≡ 6)
unfolding gf_poly_eval eval_from gf_add gf_sub gf_mul gf_pow_alpha gf_exp gf_log exp_entries
    fill_log next_val
linear_at_one = (refl, refl, refl)

gf_mul_assoc_example : gf_mul (gf_mul 200 17) 99 ≡ gf_mul 200 (gf_mul 17 99)
gf_mul_assoc_example = gf_mul_assoc 200 17 99 (omega arith) (omega arith) (omega arith)

gf_mul-gf_inv_example : gf_mul 142 (gf_inv 142) ≡ 1
gf_mul-gf_inv_example = gf_mul-gf_inv 142 (omega arith) (omega arith)

gf_div-gf_mul_example : gf_div (gf_mul 77 200) 200 ≡ 77
gf_div-gf_mul_example = gf_div-gf_mul 77 200 (omega arith) (omega arith) (omega arith)

gf_mul-gf_add_example : gf_mul 29 (gf_add 200 77) ≡ gf_add (gf_mul 29 200) (gf_mul 29 77)
gf_mul-gf_add_example = gf_mul-gf_add 29 200 77 (omega arith) (omega arith) (omega arith)
