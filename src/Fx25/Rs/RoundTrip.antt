-- ===== src/Fx25/Rs/RoundTrip.antt =====
-- What `rs_encode` appends makes a codeword, which `rs_decode` leaves as it is.
use packet_radio_rs.Base.{
  ℕ, zero, suc, ◌+◌, ◌-◌, ◌%◌, ◌^◌, ◌<◌, ◌≤◌, ◌≡◌, refl, sym, ap, ap₂, ◌∙◌, arith, min, Bool, true,
  false, ◌||◌, List, [], ◌∷◌, ◌++◌, All, All-append, length, length-append, length-replicate, set,
  take, drop, drop-append, replicate, ltb, ◌==◌, ==-ne, if◌then◌else◌,
}
use packet_radio_rs.Fx25.Gf256.{gf_add, gf_pow_alpha}
use packet_radio_rs.Fx25.Rs.{
  max_check, max_n, ok, horner, syndromes_from, compute_syndromes, rs_decode,
}
use packet_radio_rs.Fx25.Rs.Encode.{generator_poly, divide_from, rs_encode}
use packet_radio_rs.Fx25.Rs.Sound.{padded_word}
use packet_radio_rs.Fx25.Rs.Horner.{
  IsByte, gf_add_self, gf_add_zero, zero_gf_add, add_front, horner-append, horner-lt, horner_zeros,
  horner-add_front,
}
use packet_radio_rs.Fx25.Rs.Generator.{alpha-lt, generator_poly_lem}
use packet_radio_rs.Fx25.Rs.Division.{divide_from_lem, replicate-All}

-- If every root gives zero, `all_zero` stays as it was.
syndromes_from_clean :
    (n s : ℕ) (codeword syndromes : List ℕ) (b : Bool)
    → ((i : ℕ) → i < n → horner codeword (gf_pow_alpha ((s + i + 1) % 2 ^ 8)) 0 ≡ 0)
    → (syndromes_from n s codeword syndromes b).1 ≡ b
unfolding syndromes_from
syndromes_from_clean zero s codeword syndromes b h = refl
syndromes_from_clean (suc n) s codeword syndromes b h =
    let x = gf_pow_alpha ((s + 1) % 2 ^ 8) in
    let val = horner codeword x 0 in
    let now : val ≡ 0 =
      ap (λ (t : ℕ). horner codeword (gf_pow_alpha (t % 2 ^ 8)) 0) (omega arith)
      ∙ h 0 (omega arith) in
    let kept : (if val == 0 then b else false) ≡ b = ground (arith, now) in
    syndromes_from_clean n (s + 1) codeword (set syndromes s val) (if val == 0 then b else false)
      (λ i l.
        ap (λ (t : ℕ). horner codeword (gf_pow_alpha (t % 2 ^ 8)) 0) (omega arith)
        ∙ h (suc i) (omega arith))
    ∙ kept

-- `rs_decode` accepts a word that is zero at the roots.
rs_decode_clean :
    (codeword : List ℕ) (n nsym : ℕ)
    → 0 < nsym
    → nsym ≤ max_check
    → n ≤ max_n
    → ((s : ℕ) → s < nsym → horner (padded_word n codeword) (gf_pow_alpha (s + 1)) 0 ≡ 0)
    → rs_decode codeword n nsym ≡ ok (0, codeword)
unfolding rs_decode compute_syndromes
rs_decode_clean codeword n nsym p q r h =
    let word = padded_word n codeword in
    let clean : (syndromes_from nsym 0 word (replicate max_check 0) true).1 ≡ true =
      syndromes_from_clean nsym 0 word (replicate max_check 0) true
        (λ i l. ap (λ (t : ℕ). horner word (gf_pow_alpha t) 0) (omega arith) ∙ h i l) in
    let small : ltb max_check nsym ≡ false = ground arith in
    let some_check : (nsym == 0) ≡ false = ==-ne nsym 0 (λ e. absurd (omega arith)) in
    let fits : ltb max_n n ≡ false = ground arith in rw (small, some_check, fits, clean) refl

-- Appending what is left of the division to the data gives zero.
codeword_value :
    (message rest : List ℕ) (pad x : ℕ)
    → All IsByte message
    → All IsByte rest
    → x < 256
    → horner rest x 0 ≡ horner (replicate pad 0 ++ (message ++ replicate (length rest) 0)) x 0
    → horner (replicate pad 0 ++ (message ++ rest)) x 0 ≡ 0
codeword_value message rest pad x bm br hx e =
    let v = horner message x 0 in
    let zeros : List ℕ = replicate (length rest) 0 in
    let vx = horner-lt message x 0 bm hx (omega arith) in
    let skip : (xs : List ℕ) → horner (replicate pad 0 ++ xs) x 0 ≡ horner xs x 0 =
      λ xs. horner-append (replicate pad 0) xs x 0 ∙ ap (horner xs x) (horner_zeros pad x) in
    let remainder : horner rest x 0 ≡ horner zeros x v =
      e ∙ skip (message ++ zeros) ∙ horner-append message zeros x 0 in
    let both : horner rest x v ≡ gf_add (horner zeros x v) (horner rest x 0) =
      ap₂ (λ xs (t : ℕ). horner xs x t) (sym (zeros_front rest)) (sym (gf_add_zero v))
      ∙ horner-add_front zeros rest x v 0 (replicate-All (length rest)) br hx vx (omega arith)
          (length-replicate {A = ℕ} (length rest) 0) in
    skip (message ++ rest)
    ∙ horner-append message rest x 0
    ∙ both
    ∙ ap (gf_add (horner zeros x v)) remainder
    ∙ gf_add_self (horner zeros x v)
  where
    zeros_front : (rest : List ℕ) → add_front (replicate (length rest) 0) rest ≡ rest
    zeros_front [] = refl
    zeros_front (r ∷ rest) = ap₂ ◌∷◌ (zero_gf_add r) (zeros_front rest)

take_all : (xs : List ℕ) (n : ℕ) → length xs ≡ n → take n xs ≡ xs
take_all [] zero h = refl
take_all [] (suc n) h = refl
take_all (x ∷ xs) zero h = absurd (omega arith)
take_all (x ∷ xs) (suc n) h = ap (◌∷◌ x) (take_all xs n (omega arith))

-- The check bytes of some data.
pub record IsParity (message parity : List ℕ) (nsym : ℕ) : Type 0 where
  pub size : length parity ≡ nsym
  pub bytes : All IsByte parity
  pub decodes :
      rs_decode (message ++ parity) (length message + nsym) nsym ≡ ok (0, message ++ parity)

-- The dividend of `rs_encode`, for data that fits.
abbrev dividend_of : List ℕ → ℕ → List ℕ
dividend_of message nsym =
    replicate (max_n - nsym - length message) 0 ++ (message ++ replicate nsym 0)

-- What is left of the division.
record IsRemainder (message : List ℕ) (nsym : ℕ) (rest : List ℕ) : Type 0 where
  size : length rest ≡ nsym
  bytes : All IsByte rest
  value :
      (s : ℕ)
      → s < nsym
      → horner rest (gf_pow_alpha (s + 1)) 0
        ≡ horner (dividend_of message nsym) (gf_pow_alpha (s + 1)) 0

division :
    (message : List ℕ) (nsym : ℕ)
    → All IsByte message
    → nsym ≤ max_check
    → length message + nsym ≤ max_n
    → (rest : List ℕ) × (take nsym (
          drop
            (max_n - nsym)
            (divide_from (max_n - nsym) 0 nsym (generator_poly nsym) (dividend_of message nsym)))
        ≡ rest)
      × IsRemainder message nsym rest
division message nsym bm q fits =
    let full_k = max_n - nsym in
    let pad = full_k - length message in
    let (gs, g, generated) = generator_poly_lem nsym q in
    let zeros : List ℕ = replicate nsym 0 in
    let dividend = dividend_of message nsym in
    let size : length dividend ≡ 255 = omega (
      arith,
      length-append (replicate {A = ℕ} pad 0) (message ++ zeros),
      length-append message zeros,
      length-replicate {A = ℕ} pad 0,
      length-replicate {A = ℕ} nsym 0,
      fits,
    ) in
    let all_bytes =
      All-append IsByte (replicate pad 0) (message ++ zeros) (replicate-All pad)
        (All-append IsByte message zeros bm (replicate-All nsym)) in
    let r =
      divide_from_lem full_k 0 gs (replicate (max_check - nsym) 0) [] dividend refl
        (omega (arith, size, g.size, q)) g.bytes all_bytes in
    let long : length r.rest ≡ nsym = omega (arith, r.size, size, q) in
    let divided : divide_from full_k 0 nsym (generator_poly nsym) dividend ≡ r.done ++ r.rest =
      ap₂ (λ (t : ℕ) gen. divide_from full_k 0 t gen dividend) (sym g.size) generated ∙ r.parts in
    (
      r.rest,
      ap (λ xs. take nsym (drop full_k xs)) divided
          ∙ written r.done r.rest full_k (omega (arith, r.placed)) long,
      record {
        size = long;
        bytes = r.bytes;
        value = λ s l.
            r.value (gf_pow_alpha (s + 1)) (alpha-lt (s + 1) (omega (arith, l, q))) (g.roots s l);
      },
    )
  where
    written :
        (done rest : List ℕ) (n : ℕ)
        → length done ≡ n
        → length rest ≡ nsym
        → take nsym (drop n (done ++ rest)) ≡ rest
    written done rest n h k =
        ap (λ (t : ℕ). take nsym (drop t (done ++ rest))) (sym h)
        ∙ ap (take nsym) (drop-append done rest)
        ∙ take_all rest nsym k

-- The data followed by the remainder is zero at the roots.
remainder-IsParity :
    (message rest : List ℕ) (nsym : ℕ)
    → All IsByte message
    → 0 < nsym
    → nsym ≤ max_check
    → length message + nsym ≤ max_n
    → IsRemainder message nsym rest
    → IsParity message rest nsym
remainder-IsParity message rest nsym bm p q fits r = record {
  size = r.size;
  bytes = r.bytes;
  decodes = rs_decode_clean (message ++ rest) (length message + nsym) nsym p q fits (λ s l.
      let x = gf_pow_alpha (s + 1) in
      let pad = max_n - nsym - length message in
      ap₂ (λ (t : ℕ) xs. horner (replicate t 0 ++ xs) x 0) (omega (arith, fits))
        (take_all (message ++ rest) (length message + nsym)
          (omega (arith, length-append message rest, r.size)))
      ∙ codeword_value message rest pad x bm r.bytes (alpha-lt (s + 1) (omega (arith, l, q))) (
          r.value s l
          ∙ ap (λ (t : ℕ). horner (replicate pad 0 ++ (message ++ replicate t 0)) x 0)
              (sym r.size)));
}

-- With 1 to 64 check bytes asked for, data bytes that fit 255 bytes with them, and room for them in
-- `parity_out`, `rs_encode` writes the check bytes to the front of `parity_out`; and `rs_decode` accepts the data followed by the check bytes
-- as it is, with no correction.
pub rs_decode-rs_encode :
    (message : List ℕ) (nsym : ℕ) (parity_out : List ℕ)
    → All IsByte message
    → 0 < nsym
    → nsym ≤ max_check
    → length message + nsym ≤ max_n
    → nsym ≤ length parity_out
    → (parity : List ℕ) × (rs_encode message nsym parity_out ≡ ok (parity ++ drop nsym parity_out))
      × IsParity message parity nsym
unfolding rs_encode
rs_decode-rs_encode message nsym parity_out bm p q fits room =
    let full_k = max_n - nsym in
    let (rest, left, r) = division message nsym bm q fits in
    let pad : full_k - min (length message) full_k ≡ full_k - length message =
      omega (arith, fits) in
    let behind : max_n - (full_k - length message) - length message ≡ nsym = omega (arith, fits) in
    let dividend : replicate (full_k - min (length message) full_k) 0
          ++ (message
              ++ replicate (max_n - (full_k - min (length message) full_k) - length message) 0)
        ≡ dividend_of message nsym =
      ap (λ (t : ℕ). replicate t 0 ++ (message ++ replicate (max_n - t - length message) 0)) pad
      ∙ ap (λ (t : ℕ). replicate (full_k - length message) 0 ++ (message ++ replicate t 0))
          behind in
    let guards : (ltb max_check nsym || nsym == 0 || ltb (length parity_out) nsym) ≡ false =
      ground arith in
    (
      rest,
      rw guards (
          ap
            (λ xs. ok (
              take nsym (drop full_k (divide_from full_k 0 nsym (generator_poly nsym) xs))
              ++ drop nsym parity_out))
            dividend
          ∙ ap (λ xs. ok (xs ++ drop nsym parity_out)) left),
      remainder-IsParity message rest nsym bm p q fits r,
    )
