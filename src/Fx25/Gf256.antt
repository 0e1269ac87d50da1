-- ===== src/Fx25/Gf256.antt =====
-- The arithmetic of GF(256) of core/src/fx25/gf256.rs.
pub mod Tables
pub mod Laws
pub mod Distribution
mod Tests
use packet_radio_rs.Base.{
  ℕ, zero, suc, ◌+◌, ◌-◌, ◌*◌, ◌%◌, ◌^◌, List, [], ◌∷◌, bit_and, bit_xor, ◌==◌, if◌then◌else◌,
  get_or, set, replicate,
}

-- PRIM_POLY
abbrev prim_poly : ℕ
prim_poly = 0x11D

-- One round of the loop that fills GF_EXP: the next `val`.
unfoldable pub next_val : ℕ → ℕ → ℕ
next_val i val =
    let shifted = val * 2 % 2 ^ 16 in
    let reduced = if bit_and shifted 0x100 == 0 then shifted else bit_xor shifted prim_poly in
    if i == 254 then 1 else reduced

-- The entries of GF_EXP from `i` on, with `n` rounds left.
unfoldable pub exp_entries : ℕ → ℕ → ℕ → List ℕ
exp_entries zero i val = []
exp_entries (suc n) i val = val % 2 ^ 8 ∷ exp_entries n (i + 1) (next_val i val)

-- GF_EXP
unfoldable pub gf_exp : List ℕ
gf_exp = exp_entries 512 0 1

-- The loop that fills GF_LOG, with `n` rounds left.
unfoldable pub fill_log : ℕ → ℕ → List ℕ → List ℕ
fill_log zero i table = table
fill_log (suc n) i table = fill_log n (i + 1) (set table (get_or gf_exp i 0) (i % 2 ^ 8))

-- GF_LOG
unfoldable pub gf_log : List ℕ
gf_log = fill_log 255 0 (replicate 256 0)

unfoldable pub gf_add : ℕ → ℕ → ℕ
gf_add a b = bit_xor a b

pub gf_sub : ℕ → ℕ → ℕ
gf_sub a b = bit_xor a b

unfoldable pub gf_mul : ℕ → ℕ → ℕ
gf_mul a b =
    if a == 0
    then 0
    else if b == 0
    then 0
    else get_or gf_exp (get_or gf_log a 0 + get_or gf_log b 0) 0

-- For `a` other than zero.
pub gf_inv : ℕ → ℕ
gf_inv a = get_or gf_exp (255 - get_or gf_log a 0) 0

-- For `b` other than zero.
unfoldable pub gf_div : ℕ → ℕ → ℕ
gf_div a b = if a == 0 then 0 else get_or gf_exp (get_or gf_log a 0 + 255 - get_or gf_log b 0) 0

unfoldable pub gf_pow_alpha : ℕ → ℕ
gf_pow_alpha n = get_or gf_exp n 0

-- The loop of `gf_poly_eval`.
pub eval_from : ℕ → List ℕ → ℕ → ℕ
eval_from result [] x = result
eval_from result (coeff ∷ rest) x = eval_from (gf_add (gf_mul result x) coeff) rest x

pub gf_poly_eval : List ℕ → ℕ → ℕ
gf_poly_eval [] x = 0
gf_poly_eval (first ∷ rest) x = eval_from first rest x
