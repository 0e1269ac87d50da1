-- ===== src/Fx25/Rs/Encode.antt =====
-- `generator_poly` and `rs_encode` of core/src/fx25/rs.rs. The first loop of `generator_poly` is left
-- out, since the second clears the whole array before it starts.
use packet_radio_rs.Base.{
  ℕ, zero, suc, ◌+◌, ◌-◌, ◌%◌, ◌^◌, min, ◌||◌, List, ◌++◌, ltb, ◌==◌, if◌then◌else◌, length, get_or,
  set, take, drop, replicate,
}
use packet_radio_rs.Fx25.Gf256.{gf_add, gf_mul, gf_pow_alpha}
use packet_radio_rs.Fx25.Rs.{max_check, max_n, RsResult, ok, err, invalid_params}

-- `for j in (1..deg).rev()`, from `j` down.
unfoldable pub multiply_down : ℕ → ℕ → List ℕ → List ℕ
multiply_down zero ai gen = gen
multiply_down (suc j) ai gen =
    multiply_down j ai
      (set gen (suc j) (gf_add (get_or gen (suc j) 0) (gf_mul ai (get_or gen j 0))))

-- The polynomial of degree `deg - 1` times `x + ai`.
unfoldable pub multiply_root : ℕ → ℕ → List ℕ → List ℕ
multiply_root deg ai gen =
    multiply_down (deg - 1) ai (set gen deg (gf_mul ai (get_or gen (deg - 1) 0)))

-- The loop over the roots with `n` rounds left.
unfoldable pub generator_from : ℕ → ℕ → List ℕ → List ℕ
generator_from zero i gen = gen
generator_from (suc n) i gen =
    generator_from n (i + 1) (multiply_root i (gf_pow_alpha (i % 2 ^ 8)) gen)

unfoldable pub generator_poly : ℕ → List ℕ
generator_poly nsym = generator_from nsym 1 (set (replicate (max_check + 1) 0) 0 1)

-- `for j in 1..=nsym` with `n` rounds left.
unfoldable pub subtract_from : ℕ → ℕ → ℕ → ℕ → List ℕ → List ℕ → List ℕ
subtract_from zero j i coeff gen dividend = dividend
subtract_from (suc n) j i coeff gen dividend =
    subtract_from n (j + 1) i coeff gen
      (set dividend (i + j) (gf_add (get_or dividend (i + j) 0) (gf_mul coeff (get_or gen j 0))))

-- The long division with `n` rounds left.
unfoldable pub divide_from : ℕ → ℕ → ℕ → List ℕ → List ℕ → List ℕ
divide_from zero i nsym gen dividend = dividend
divide_from (suc n) i nsym gen dividend =
    let coeff = get_or dividend i 0 in
    divide_from n (i + 1) nsym gen
      (if coeff == 0 then dividend else subtract_from nsym 1 i coeff gen dividend)

-- For at most 255 bytes of `data`, which is what the copy into the dividend admits: `parity_out`
-- afterwards.
unfoldable pub rs_encode : List ℕ → ℕ → List ℕ → RsResult (List ℕ)
rs_encode message nsym parity_out =
    let full_k = max_n - nsym in
    let pad = full_k - min (length message) full_k in
    let dividend = replicate pad 0 ++ (message ++ replicate (max_n - pad - length message) 0) in
    let divided = divide_from full_k 0 nsym (generator_poly nsym) dividend in
    if ltb max_check nsym || nsym == 0 || ltb (length parity_out) nsym
    then err invalid_params
    else ok (take nsym (drop full_k divided) ++ drop nsym parity_out)
