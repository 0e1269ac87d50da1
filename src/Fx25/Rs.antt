-- ===== src/Fx25/Rs.antt =====
-- The Reed-Solomon decoder of core/src/fx25/rs.rs. An array is a list of its length; a counted loop
-- recurs on the rounds left.
pub mod Sound
pub mod Encode
pub mod Horner
pub mod Generator
pub mod Division
pub mod RoundTrip
mod Tests
use mathlib.Core.List.{reverse}
use packet_radio_rs.Base.{
  ℕ, zero, suc, ◌+◌, ◌-◌, ◌*◌, ◌/◌, ◌%◌, ◌^◌, min, Bool, true, false, List, [], ◌∷◌, ◌++◌, ltb, leb,
  ◌==◌, if◌then◌else◌, length, get_or, set, take, drop, replicate,
}
use packet_radio_rs.Fx25.Gf256.{gf_add, gf_mul, gf_div, gf_pow_alpha}

-- MAX_CHECK
abbrev pub max_check : ℕ
max_check = 64

-- MAX_N
abbrev pub max_n : ℕ
max_n = 255

pub data RsError : Type 0 where
  too_many_errors chien_search_failed invalid_params : RsError

-- `Result` with `RsError`.
pub data RsResult (A : Type 0) : Type 0 where
  ok : A → RsResult A
  err : RsError → RsResult A

infixl 5 ◌>>=◌
abbrev pub ◌>>=◌ : {A B : Type 0} → RsResult A → (A → RsResult B) → RsResult B
ok a >>= f = f a
err e >>= f = err e

-- The value of a codeword at `x`, by Horner's rule from `val`.
pub horner : List ℕ → ℕ → ℕ → ℕ
horner [] x val = val
horner (c ∷ codeword) x val = horner codeword x (gf_add (gf_mul val x) c)

-- The loop of `compute_syndromes` with `n` rounds left: the syndromes and `all_zero`.
pub syndromes_from : ℕ → ℕ → List ℕ → List ℕ → Bool → List ℕ × Bool
syndromes_from zero s codeword syndromes all_zero = (syndromes, all_zero)
syndromes_from (suc n) s codeword syndromes all_zero =
    let val = horner codeword (gf_pow_alpha ((s + 1) % 2 ^ 8)) 0 in
    syndromes_from n (s + 1) codeword (set syndromes s val) (if val == 0 then all_zero else false)

pub compute_syndromes : List ℕ → ℕ → List ℕ → List ℕ × Bool
compute_syndromes codeword nsym syndromes = syndromes_from nsym 0 codeword syndromes true

-- The variables of `berlekamp_massey`.
pub record Bm : Type 0 where
  pub c : List ℕ
  pub b : List ℕ
  pub l : ℕ
  pub m : ℕ
  pub b_val : ℕ

-- `for i in 1..=l` with `k` rounds left: the discrepancy.
pub delta_from : ℕ → ℕ → ℕ → List ℕ → List ℕ → ℕ → ℕ
delta_from zero i n c syndromes delta = delta
delta_from (suc k) i n c syndromes delta =
    delta_from k (i + 1) n c syndromes
      (gf_add delta (gf_mul (get_or c i 0) (get_or syndromes (n - i) 0)))

-- `for i in m..=nsym` with `k` rounds left.
pub adjust : ℕ → ℕ → ℕ → ℕ → List ℕ → List ℕ → List ℕ
adjust zero i m factor b c = c
adjust (suc k) i m factor b c =
    adjust k (i + 1) m factor b
      (set c i (gf_add (get_or c i 0) (gf_mul factor (get_or b (i - m) 0))))

-- One round of the main loop.
pub bm_step : List ℕ → ℕ → ℕ → Bm → Bm
bm_step syndromes nsym n v =
    let delta = delta_from v.l 1 n v.c syndromes (get_or syndromes n 0) in
    let adjusted = adjust (nsym + 1 - v.m) v.m v.m (gf_div delta v.b_val) v.b v.c in
    if delta == 0
    then record v { m = v.m + 1 }
    else if leb (2 * v.l) n
    then record {
      c = adjusted;
      b = take (nsym + 1) v.c ++ drop (nsym + 1) v.b;
      l = n + 1 - v.l;
      m = 1;
      b_val = delta;
    }
    else record v { c = adjusted; m = v.m + 1 }

pub bm_rounds : ℕ → ℕ → List ℕ → ℕ → Bm → Bm
bm_rounds zero n syndromes nsym v = v
bm_rounds (suc k) n syndromes nsym v =
    bm_rounds k (n + 1) syndromes nsym (bm_step syndromes nsym n v)

-- The number of errors and `lambda`.
pub berlekamp_massey : List ℕ → ℕ → List ℕ → ℕ × List ℕ
berlekamp_massey syndromes nsym lambda =
    let one = set (replicate (max_check + 1) 0) 0 1 in
    let v =
      bm_rounds nsym 0 syndromes nsym (record { c = one; b = one; l = 0; m = 1; b_val = 1 }) in
    (v.l, take (v.l + 1) v.c ++ drop (v.l + 1) lambda)

pub poly_eval_lh : List ℕ → ℕ → ℕ
poly_eval_lh poly x = horner (reverse poly) x 0

-- The loop of `chien_search` with `k` rounds left: the positions and how many were found.
pub chien_from : ℕ → ℕ → List ℕ → ℕ → ℕ → List ℕ → ℕ → List ℕ × ℕ
chien_from zero j lambda num_errors n positions found = (positions, found)
chien_from (suc k) j lambda num_errors n positions found =
    let x = gf_pow_alpha ((if j == 0 then 0 else 255 - j) % 2 ^ 8) in
    let hit = poly_eval_lh (take (num_errors + 1) lambda) x == 0 in
    let later = λ (ps : List ℕ) (f : ℕ). chien_from k (j + 1) lambda num_errors n ps f in
    let marked = set positions found ((n - 1 - j) % 2 ^ 8) in
    if hit
    then (if found + 1 == num_errors then (marked, found + 1) else later marked (found + 1))
    else later positions found

pub chien_search : List ℕ → ℕ → ℕ → List ℕ → RsResult (List ℕ)
chien_search lambda num_errors n positions =
    let (marked, found) = chien_from n 0 lambda num_errors n positions 0 in
    if found == num_errors then ok marked else err chien_search_failed

-- One coefficient of the error evaluator, `for j in 0..=i.min(num_errors)` with `k` rounds left.
pub omega_at : ℕ → ℕ → ℕ → List ℕ → List ℕ → ℕ → ℕ
omega_at zero j i syndromes lambda val = val
omega_at (suc k) j i syndromes lambda val =
    omega_at k (j + 1) i syndromes lambda
      (gf_add val (gf_mul (get_or syndromes (i - j) 0) (get_or lambda j 0)))

pub omega_from : ℕ → ℕ → List ℕ → List ℕ → ℕ → List ℕ → List ℕ
omega_from zero i syndromes lambda num_errors poly = poly
omega_from (suc k) i syndromes lambda num_errors poly =
    omega_from k (i + 1) syndromes lambda num_errors
      (set poly i (omega_at (min i num_errors + 1) 0 i syndromes lambda 0))

-- `x` to the `k`, from `x_pow`.
pub power_from : ℕ → ℕ → ℕ → ℕ
power_from zero x x_pow = x_pow
power_from (suc k) x x_pow = power_from k x (gf_mul x_pow x)

-- The loop over the odd coefficients, `while i <= num_errors`, with at most `k` rounds left.
pub derivative_from : ℕ → ℕ → List ℕ → ℕ → ℕ → ℕ → ℕ
derivative_from zero i lambda num_errors x val = val
derivative_from (suc k) i lambda num_errors x val =
    let rest =
      derivative_from k (i + 2) lambda num_errors x
        (gf_add val (gf_mul (get_or lambda i 0) (power_from (i - 1) x 1))) in
    if leb i num_errors then rest else val

-- The error value at one position.
pub magnitude : List ℕ → List ℕ → ℕ → ℕ → ℕ → ℕ → ℕ
magnitude poly lambda num_errors pos n nsym =
    let power = (n - 1 - pos) % 255 in
    let x = gf_pow_alpha ((if power == 0 then 0 else 255 - power) % 2 ^ 8) in
    let lprime_val = derivative_from num_errors 1 lambda num_errors x 0 in
    if lprime_val == 0 then 0 else gf_div (poly_eval_lh (take nsym poly) x) lprime_val

-- The loop over the positions with `k` rounds left.
pub magnitudes_from : ℕ → ℕ → List ℕ → List ℕ → ℕ → List ℕ → ℕ → ℕ → List ℕ → List ℕ
magnitudes_from zero idx poly lambda num_errors positions n nsym mags = mags
magnitudes_from (suc k) idx poly lambda num_errors positions n nsym mags =
    magnitudes_from k (idx + 1) poly lambda num_errors positions n nsym
      (set mags idx (magnitude poly lambda num_errors (get_or positions idx 0) n nsym))

pub forney : List ℕ → List ℕ → ℕ → List ℕ → ℕ → ℕ → List ℕ → List ℕ
forney syndromes lambda num_errors positions n nsym mags =
    let poly = omega_from nsym 0 syndromes lambda num_errors (replicate max_check 0) in
    magnitudes_from num_errors 0 poly lambda num_errors positions n nsym mags

-- Step 5 of `rs_decode` with `k` rounds left.
pub correct : ℕ → ℕ → ℕ → List ℕ → List ℕ → List ℕ → RsResult (List ℕ)
correct zero i pad positions mags padded = ok padded
correct (suc k) i pad positions mags padded =
    let pos = get_or positions i 0 in
    let rest =
      correct k (i + 1) pad positions mags
        (set padded pos (gf_add (get_or padded pos 0) (get_or mags i 0))) in
    if ltb pos pad then err too_many_errors else if leb max_n pos then err too_many_errors else rest

-- Steps 3 to 6 of `rs_decode`, on the padded block.
pub repair : List ℕ → ℕ → ℕ → List ℕ → ℕ → List ℕ → RsResult (List ℕ)
repair syndromes nsym num_errors lambda pad padded = do
  positions ← chien_search lambda num_errors max_n (replicate max_check 0)
  let mags =
      forney (take nsym syndromes) lambda num_errors positions max_n nsym (replicate max_check 0)
  fixed ← correct num_errors 0 pad positions mags padded
  if (compute_syndromes fixed nsym (replicate max_check 0)).1 then ok fixed else err too_many_errors

-- The number of corrected errors and the codeword after.
pub rs_decode : List ℕ → ℕ → ℕ → RsResult (ℕ × List ℕ)
rs_decode codeword n nsym =
    let pad = max_n - n in
    let padded = replicate pad 0 ++ take n codeword in
    let (syndromes, clean) = compute_syndromes padded nsym (replicate max_check 0) in
    let (num_errors, lambda) = berlekamp_massey syndromes nsym (replicate (max_check + 1) 0) in
    if ltb max_check nsym
    then err invalid_params
    else if nsym == 0
    then err invalid_params
    else if ltb max_n n
    then err invalid_params
    else if clean
    then ok (0, codeword)
    else if num_errors == 0
    then err too_many_errors
    else if ltb (nsym / 2) num_errors
    then err too_many_errors
    else (repair syndromes nsym num_errors lambda pad padded
        >>= (λ fixed. ok (num_errors, drop pad fixed ++ drop n codeword)))
