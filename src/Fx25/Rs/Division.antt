-- ===== src/Fx25/Rs/Division.antt =====
-- The long division of `rs_encode` keeps the value at the roots of the generator.
use mathlib.Core.List.{append_assoc}
use packet_radio_rs.Base.{
  ℕ, zero, suc, ◌+◌, ◌-◌, ◌<◌, ◌≤◌, ◌≡◌, refl, sym, ap, ap₂, ◌∙◌, arith, List, [], ◌∷◌, ◌++◌, map,
  All, All-append, length, length-append, length-replicate, get_or, get_or-append, set, set-append,
  replicate, ◌==◌, if◌then◌else◌, Bool-cases, inl, inr,
}
use packet_radio_rs.Fx25.Gf256.{gf_add, gf_mul}
use packet_radio_rs.Fx25.Gf256.Laws.{gf_mul_zero, zero_gf_mul, gf_mul_one, gf_mul-lt}
use packet_radio_rs.Fx25.Rs.{horner}
use packet_radio_rs.Fx25.Rs.Encode.{subtract_from, divide_from}
use packet_radio_rs.Fx25.Rs.Horner.{
  IsByte, gf_add_zero, zero_gf_add, gf_add_self, add_front, length-add_front, add_front-All,
  horner-append, horner_zeros, horner-add_front, horner-map,
}
use packet_radio_rs.Fx25.Rs.Generator.{HasRoot}

-- The inner loop adds the scaled coefficients to the places behind a prefix.
subtract_from_lem :
    (gs ys gpre pre zs : List ℕ) (j i coeff : ℕ)
    → length gpre ≡ j
    → length pre ≡ i + j
    → length gs ≤ length ys
    → subtract_from (length gs) j i coeff (gpre ++ (gs ++ zs)) (pre ++ ys)
      ≡ pre ++ add_front ys (map (gf_mul coeff) gs)
unfolding subtract_from
subtract_from_lem [] [] gpre pre zs j i coeff h k l = refl
subtract_from_lem [] (y ∷ ys) gpre pre zs j i coeff h k l = refl
subtract_from_lem (g ∷ gs) [] gpre pre zs j i coeff h k l = absurd (omega arith)
subtract_from_lem (g ∷ gs) (y ∷ ys) gpre pre zs j i coeff h k l =
    let v = gf_add y (gf_mul coeff g) in
    let gen = gpre ++ (g ∷ (gs ++ zs)) in
    let old : get_or (pre ++ y ∷ ys) (i + j) 0 ≡ y =
      ap (λ (t : ℕ). get_or (pre ++ y ∷ ys) t 0) (omega (arith, k))
      ∙ get_or-append pre (y ∷ ys) 0 0 in
    let factor : get_or gen j 0 ≡ g =
      ap (λ (t : ℕ). get_or gen t 0) (omega (arith, h)) ∙ get_or-append gpre (g ∷ (gs ++ zs)) 0 0 in
    let written : set (pre ++ y ∷ ys) (i + j) v ≡ (pre ++ v ∷ []) ++ ys =
      ap (λ (t : ℕ). set (pre ++ y ∷ ys) t v) (sym k)
      ∙ set-append pre ys y v
      ∙ sym (append_assoc pre (v ∷ []) ys) in
    let shifted : gen ≡ (gpre ++ g ∷ []) ++ (gs ++ zs) =
      sym (append_assoc gpre (g ∷ []) (gs ++ zs)) in
    ap₂
      (λ (s t : ℕ).
        subtract_from (length gs) (j + 1) i coeff gen
          (set (pre ++ y ∷ ys) (i + j) (gf_add s (gf_mul coeff t))))
      old factor
    ∙ ap₂ (λ (s t : List ℕ). subtract_from (length gs) (j + 1) i coeff s t) shifted written
    ∙ subtract_from_lem gs ys (gpre ++ g ∷ []) (pre ++ v ∷ []) zs (j + 1) i coeff
        (omega (arith, length-append gpre (g ∷ []), h))
        (omega (arith, length-append pre (v ∷ []), k)) (omega (arith, l))
    ∙ append_assoc pre (v ∷ []) (add_front ys (map (gf_mul coeff) gs))

map-All : (gs : List ℕ) (c : ℕ) → All IsByte gs → c < 256 → All IsByte (map (gf_mul c) gs)
map-All [] c p q = tt
map-All (g ∷ gs) c (p, ps) q = (gf_mul-lt c g q p, map-All gs c ps q)

pub replicate-All : (n : ℕ) → All IsByte (replicate n 0)
replicate-All zero = tt
replicate-All (suc n) = (omega arith, replicate-All n)

length-map_mul : (gs : List ℕ) (c : ℕ) → length (map (gf_mul c) gs) ≡ length gs
length-map_mul [] c = refl
length-map_mul (g ∷ gs) c = ap suc (length-map_mul gs c)

add_front-zeros : (ys es : List ℕ) (n : ℕ) → add_front ys (es ++ replicate n 0) ≡ add_front ys es
add_front-zeros [] es n = refl
add_front-zeros (y ∷ ys) [] zero = refl
add_front-zeros (y ∷ ys) [] (suc n) = ap₂ ◌∷◌ (gf_add_zero y) (add_front-nil ys n)
  where
    add_front-nil : (ys : List ℕ) (n : ℕ) → add_front ys (replicate n 0) ≡ ys
    add_front-nil [] n = refl
    add_front-nil (y ∷ ys) zero = refl
    add_front-nil (y ∷ ys) (suc n) = ap₂ ◌∷◌ (gf_add_zero y) (add_front-nil ys n)
add_front-zeros (y ∷ ys) (e ∷ es) n = ap (◌∷◌ (gf_add y e)) (add_front-zeros ys es n)

-- One step of the division keeps the value at a root.
step_value :
    (gs ys : List ℕ) (c x : ℕ)
    → All IsByte gs
    → All IsByte ys
    → c < 256
    → x < 256
    → HasRoot gs x
    → length gs ≤ length ys
    → horner (add_front ys (map (gf_mul c) gs)) x 0 ≡ horner (c ∷ ys) x 0
step_value gs ys c x bg by hc hx root l =
    let es = map (gf_mul c) gs in
    let n = length ys - length gs in
    let zeros : List ℕ = replicate n 0 in
    let size : length ys ≡ length (es ++ zeros) =
      omega (arith, length-append es zeros, length-map_mul gs c, length-replicate {A = ℕ} n 0, l) in
    let scaled : horner es x c ≡ 0 =
      ap (horner es x) (sym (times_one c hc))
      ∙ horner-map gs c x 1 bg hc hx (omega arith)
      ∙ ap (gf_mul c) root
      ∙ gf_mul_zero c in
    let vanishes : horner (es ++ zeros) x c ≡ 0 =
      horner-append es zeros x c ∙ ap (horner zeros x) scaled ∙ horner_zeros n x in
    let first : gf_add (gf_mul 0 x) c ≡ c = ap (λ t. gf_add t c) (zero_gf_mul x) ∙ zero_gf_add c in
    ap (λ t. horner t x 0) (sym (add_front-zeros ys es n))
    ∙ ap (horner (add_front ys (es ++ zeros)) x) (sym (gf_add_self c))
    ∙ horner-add_front ys (es ++ zeros) x c c by
        (All-append IsByte es zeros (map-All gs c bg hc) (replicate-All n)) hx hc hc size
    ∙ ap (gf_add (horner ys x c)) vanishes
    ∙ gf_add_zero (horner ys x c)
    ∙ unfold horner in ap (horner ys x) (sym first)
  where
    times_one : (c : ℕ) → c < 256 → gf_mul c 1 ≡ c
    times_one zero h = zero_gf_mul 1
    times_one (suc c) h = gf_mul_one (suc c) (omega arith) h

add_front_nothing : (ys gs : List ℕ) → add_front ys (map (gf_mul 0) gs) ≡ ys
add_front_nothing [] gs = refl
add_front_nothing (y ∷ ys) [] = refl
add_front_nothing (y ∷ ys) (g ∷ gs) =
    ap₂ ◌∷◌ (ap (gf_add y) (zero_gf_mul g) ∙ gf_add_zero y) (add_front_nothing ys gs)

-- One round of the division at the head `c` of what is left.
divide_step :
    (gs zs pre ys : List ℕ) (i c : ℕ)
    → length pre ≡ i
    → length gs ≤ length ys
    → (if c == 0
        then pre ++ c ∷ ys
        else subtract_from (length gs) 1 i c (1 ∷ (gs ++ zs)) (pre ++ c ∷ ys))
      ≡ (pre ++ c ∷ []) ++ add_front ys (map (gf_mul c) gs)
divide_step gs zs pre ys i c h l = elim (Bool-cases (c == 0)) [
  | inl z ↦
      let none : c ≡ 0 = ground (arith, z) in
      rw z (
        sym (append_assoc pre (c ∷ []) ys)
        ∙ ap (λ t. (pre ++ c ∷ []) ++ t)
            (sym (ap (λ (t : ℕ). add_front ys (map (gf_mul t) gs)) none ∙ add_front_nothing ys gs)))
  | inr o ↦ rw o (
      ap (subtract_from (length gs) 1 i c (1 ∷ (gs ++ zs))) (sym (append_assoc pre (c ∷ []) ys))
      ∙ subtract_from_lem gs ys (1 ∷ []) (pre ++ c ∷ []) zs 1 i c refl
          (omega (arith, length-append pre (c ∷ []), h)) l)
]

-- After `rounds` rounds: `place` bytes are done, and the rest has the values of before at the roots.
pub record IsDivided (gs ys out : List ℕ) (place rounds : ℕ) : Type 0 where
  pub done : List ℕ
  pub rest : List ℕ
  pub parts : out ≡ done ++ rest
  pub placed : length done ≡ place
  pub size : length rest + rounds ≡ length ys
  pub bytes : All IsByte rest
  pub value : (x : ℕ) → x < 256 → HasRoot gs x → horner rest x 0 ≡ horner ys x 0

pub divide_from_lem :
    (n i : ℕ) (gs zs pre ys : List ℕ)
    → length pre ≡ i
    → n + length gs ≤ length ys
    → All IsByte gs
    → All IsByte ys
    → IsDivided gs ys (divide_from n i (length gs) (1 ∷ (gs ++ zs)) (pre ++ ys)) (i + n) n
unfolding divide_from
divide_from_lem zero i gs zs pre ys h l bg by = record {
  done = pre;
  rest = ys;
  parts = refl;
  placed = omega (arith, h);
  size = omega arith;
  bytes = by;
  value = λ x hx root. refl;
}
divide_from_lem (suc n) i gs zs pre [] h l bg by = absurd (omega arith)
divide_from_lem (suc n) i gs zs pre (c ∷ ys) h l bg (hc, by) =
    let gen = 1 ∷ (gs ++ zs) in
    let out = pre ++ c ∷ ys in
    let next = add_front ys (map (gf_mul c) gs) in
    let head : get_or out i 0 ≡ c =
      ap (λ (t : ℕ). get_or out t 0) (omega (arith, h)) ∙ get_or-append pre (c ∷ ys) 0 0 in
    let step = divide_step gs zs pre ys i c h (omega (arith, l)) in
    let r =
      divide_from_lem n (i + 1) gs zs (pre ++ c ∷ []) next
        (omega (arith, length-append pre (c ∷ []), h))
        (omega (arith, length-add_front ys (map (gf_mul c) gs), l)) bg
        (add_front-All ys (map (gf_mul c) gs) by (map-All gs c bg hc)) in
    record {
      done = r.done;
      rest = r.rest;
      parts =
          ap
            (λ (t : ℕ).
              divide_from n (i + 1) (length gs) gen
                (if t == 0 then out else subtract_from (length gs) 1 i t gen out))
            head
          ∙ ap (divide_from n (i + 1) (length gs) gen) step
          ∙ r.parts;
      placed = omega (arith, r.placed);
      size = omega (arith, r.size, length-add_front ys (map (gf_mul c) gs));
      bytes = r.bytes;
      value =
          λ x hx root. r.value x hx root ∙ step_value gs ys c x bg by hc hx root (omega (arith, l));
    }
