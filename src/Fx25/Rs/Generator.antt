-- ===== src/Fx25/Rs/Generator.antt =====
-- The generator polynomial has the roots of the code.
use packet_radio_rs.Base.{
  ℕ, zero, suc, ◌+◌, ◌-◌, ◌%◌, ◌^◌, ◌<◌, ◌≤◌, ◌≡◌, refl, sym, ap, ap₂, subst, ◌∙◌, arith, List, [],
  ◌∷◌, ◌++◌, All, length, get_or, set, get_or-set_other, replicate, dec_lt,
}
use packet_radio_rs.Fx25.Gf256.{gf_add, gf_mul, gf_pow_alpha}
use packet_radio_rs.Fx25.Gf256.Tables.{exp_byte}
use packet_radio_rs.Fx25.Gf256.Laws.{gf_mul_zero, zero_gf_mul, gf_mul_comm, gf_mul_assoc, gf_mul-lt}
use packet_radio_rs.Fx25.Gf256.Distribution.{gf_mul-gf_add}
use packet_radio_rs.Fx25.Rs.{max_check, horner}
use packet_radio_rs.Fx25.Rs.Encode.{multiply_down, multiply_root, generator_from, generator_poly}
use packet_radio_rs.Fx25.Rs.Horner.{
  IsByte, gf_add-lt, gf_add_zero, zero_gf_add, gf_add_self, gf_add_assoc, gf_add_interchange,
  gf_add-gf_mul,
}

-- The coefficients behind `prev` of a polynomial times `x + a`.
abbrev pub times : ℕ → ℕ → List ℕ → List ℕ
times a prev [] = gf_mul a prev ∷ []
times a prev (y ∷ ys) = gf_add y (gf_mul a prev) ∷ times a y ys

length-times : (ys : List ℕ) (a prev : ℕ) → length (times a prev ys) ≡ suc (length ys)
length-times [] a prev = refl
length-times (y ∷ ys) a prev = ap suc (length-times ys a y)

times-All :
    (ys : List ℕ) (a prev : ℕ) → All IsByte ys → a < 256 → prev < 256 → All IsByte (times a prev ys)
times-All [] a prev p q r = (gf_mul-lt a prev q r, tt)
times-All (y ∷ ys) a prev (p, ps) q r =
    (gf_add-lt y (gf_mul a prev) p (gf_mul-lt a prev q r), times-All ys a y ps q p)

-- The loop's last round on a list is the first place of its tail.
multiply_down_tail :
    (j a x : ℕ) (xs : List ℕ)
    → multiply_down (suc j) a (x ∷ xs)
      ≡ x ∷ set (multiply_down j a xs) 0 (gf_add (get_or xs 0 0) (gf_mul a x))
unfolding multiply_down
multiply_down_tail zero a x xs = refl
multiply_down_tail (suc j) a x xs =
    let v = gf_add (get_or xs (suc j) 0) (gf_mul a (get_or xs j 0)) in
    multiply_down_tail j a x (set xs (suc j) v)
    ∙ ap (λ (t : ℕ). x ∷ set (multiply_down j a (set xs (suc j) v)) 0 (gf_add t (gf_mul a x)))
        (get_or-set_other xs (suc j) 0 v 0 (λ e. absurd (omega arith)))

multiply_down-times :
    (ys zs : List ℕ) (a prev : ℕ)
    → multiply_down (suc (length ys)) a (prev ∷ (ys ++ 0 ∷ zs)) ≡ prev ∷ (times a prev ys ++ zs)
multiply_down-times [] zs a prev =
    multiply_down_tail 0 a prev (0 ∷ zs)
    ∙ unfold multiply_down in ap (λ (t : ℕ). prev ∷ t ∷ zs) (zero_gf_add (gf_mul a prev))
multiply_down-times (y ∷ ys) zs a prev =
    multiply_down_tail (suc (length ys)) a prev (y ∷ (ys ++ 0 ∷ zs))
    ∙ ap (λ t. prev ∷ set t 0 (gf_add y (gf_mul a prev))) (multiply_down-times ys zs a y)

-- Setting the new last coefficient first is one more round of the loop.
multiply_root_lem :
    (ys zs : List ℕ) (a prev : ℕ)
    → multiply_root (suc (length ys)) a (prev ∷ (ys ++ 0 ∷ zs)) ≡ prev ∷ (times a prev ys ++ zs)
unfolding multiply_root
multiply_root_lem ys zs a prev =
    let gen = prev ∷ (ys ++ 0 ∷ zs) in
    let v = gf_mul a (get_or gen (length ys) 0) in
    let before : suc (length ys) - 1 ≡ length ys = omega arith in
    ap (λ (t : ℕ). multiply_down t a (set gen (suc (length ys)) (gf_mul a (get_or gen t 0)))) before
    ∙ ap (λ (t : ℕ). multiply_down (length ys) a (set gen (suc (length ys)) t))
        (sym (ap (λ (t : ℕ). gf_add t v) (last_zero ys) ∙ zero_gf_add v))
    ∙ unfold multiply_down in multiply_down-times ys zs a prev
  where
    last_zero : (xs : List ℕ) → get_or (xs ++ 0 ∷ zs) (length xs) 0 ≡ 0
    last_zero [] = refl
    last_zero (x ∷ xs) = last_zero xs

-- The value of the product, from the values of the polynomial before and behind `prev`.
horner-times :
    (ys : List ℕ) (a prev x p q : ℕ)
    → All IsByte ys
    → a < 256
    → prev < 256
    → x < 256
    → p < 256
    → q < 256
    → q ≡ gf_add (gf_mul p x) prev
    → horner (times a prev ys) x (gf_add q (gf_mul a p)) ≡ gf_mul (gf_add x a) (horner ys x q)
unfolding horner
horner-times [] a prev x p q b ha hp hx h k e =
    let value = gf_mul-lt a p ha h in
    ap (λ t. gf_add t (gf_mul a prev)) (gf_add-gf_mul q (gf_mul a p) x k value hx)
    ∙ ap (λ t. gf_add (gf_add (gf_mul q x) t) (gf_mul a prev)) (gf_mul_assoc a p x ha h hx)
    ∙ gf_add_assoc (gf_mul q x) (gf_mul a (gf_mul p x)) (gf_mul a prev)
    ∙ ap (gf_add (gf_mul q x)) (sym (gf_mul-gf_add a (gf_mul p x) prev ha (gf_mul-lt p x h hx) hp))
    ∙ ap₂ gf_add (gf_mul_comm q x) (ap (gf_mul a) (sym e))
    ∙ sym (gf_add-gf_mul x a q hx ha k)
horner-times (y ∷ ys) a prev x p q (b, bs) ha hp hx h k e =
    let q' = gf_add (gf_mul q x) y in
    let small = gf_add-lt (gf_mul q x) y (gf_mul-lt q x k hx) b in
    ap (λ t. horner (times a y ys) x t)
      (ap (λ t. gf_add t (gf_add y (gf_mul a prev)))
          (gf_add-gf_mul q (gf_mul a p) x k (gf_mul-lt a p ha h) hx)
        ∙ ap (λ t. gf_add (gf_add (gf_mul q x) t) (gf_add y (gf_mul a prev)))
            (gf_mul_assoc a p x ha h hx)
        ∙ gf_add_interchange (gf_mul q x) (gf_mul a (gf_mul p x)) y (gf_mul a prev)
        ∙ ap (gf_add q') (
            sym (gf_mul-gf_add a (gf_mul p x) prev ha (gf_mul-lt p x h hx) hp)
            ∙ ap (gf_mul a) (sym e)))
    ∙ horner-times ys a y x q q' bs ha b hx k small refl

-- The monic polynomial with these coefficients behind the leading one has this root.
abbrev pub HasRoot : List ℕ → ℕ → Type 0
HasRoot gs x = horner gs x 1 ≡ 0

times-value :
    (gs : List ℕ) (a x : ℕ)
    → All IsByte gs
    → a < 256
    → x < 256
    → horner (times a 1 gs) x 1 ≡ gf_mul (gf_add x a) (horner gs x 1)
times-value gs a x b ha hx =
    let start : gf_add 1 (gf_mul a 0) ≡ 1 = ap (gf_add 1) (gf_mul_zero a) ∙ gf_add_zero 1 in
    let one : 1 ≡ gf_add (gf_mul 0 x) 1 =
      sym (ap (λ t. gf_add t 1) (zero_gf_mul x) ∙ zero_gf_add 1) in
    subst (λ (t : ℕ). horner (times a 1 gs) x t ≡ gf_mul (gf_add x a) (horner gs x 1)) start
      (horner-times gs a 1 x 0 1 b ha (omega arith) hx (omega arith) (omega arith) one)

pub alpha-lt : (n : ℕ) → n < 256 → gf_pow_alpha n < 256
unfolding gf_pow_alpha
alpha-lt n h = (exp_byte n (omega arith)).1

-- The first `m` roots of the code are roots, for `m` coefficients that are bytes.
pub record IsGenerator (m : ℕ) (gs : List ℕ) : Type 0 where
  pub size : length gs ≡ m
  pub bytes : All IsByte gs
  pub roots : (s : ℕ) → s < m → HasRoot gs (gf_pow_alpha (s + 1))

times-IsGenerator :
    (m : ℕ) (gs : List ℕ)
    → m < 255
    → IsGenerator m gs
    → IsGenerator (m + 1) (times (gf_pow_alpha (m + 1)) 1 gs)
times-IsGenerator m gs h g =
    let a = gf_pow_alpha (m + 1) in
    let small = alpha-lt (m + 1) (omega arith) in
    record {
      size = omega (arith, length-times gs a 1, g.size);
      bytes = times-All gs a 1 g.bytes small (omega arith);
      roots = λ s l.
          let x = gf_pow_alpha (s + 1) in
          times-value gs a x g.bytes small (alpha-lt (s + 1) (omega arith)) ∙ elim (dec_lt s m) [
            | yes old ↦ ap (gf_mul (gf_add x a)) (g.roots s old) ∙ gf_mul_zero (gf_add x a)
            | no new ↦
                let last : s ≡ m = omega arith in
                ap (λ (t : ℕ). gf_mul (gf_add (gf_pow_alpha (t + 1)) a) (horner gs x 1)) last
                ∙ ap (λ t. gf_mul t (horner gs x 1)) (gf_add_self a)
                ∙ zero_gf_mul (horner gs x 1)
          ];
    }

generator_from_lem :
    (n r m : ℕ) (gs : List ℕ)
    → IsGenerator m gs
    → m + n < 256
    → (gs' : List ℕ) × (IsGenerator (m + n) gs')
      × (generator_from n (m + 1) (1 ∷ (gs ++ replicate (n + r) 0)) ≡ 1 ∷ (gs' ++ replicate r 0))
unfolding generator_from
generator_from_lem zero r m gs g h = (
  gs,
  subst (λ (t : ℕ). IsGenerator t gs) (omega arith) g,
  ap (λ (t : ℕ). 1 ∷ (gs ++ replicate t 0)) (omega arith),
)
generator_from_lem (suc n) r m gs g h =
    let a = gf_pow_alpha (m + 1) in
    let (gs', g', e) =
      generator_from_lem n r (m + 1) (times a 1 gs) (times-IsGenerator m gs (omega arith) g)
        (omega arith) in
    let step : multiply_root (m + 1) (gf_pow_alpha ((m + 1) % 2 ^ 8))
          (1 ∷ (gs ++ 0 ∷ replicate (n + r) 0))
        ≡ 1 ∷ (times a 1 gs ++ replicate (n + r) 0) =
      ap₂ (λ (i k : ℕ). multiply_root i (gf_pow_alpha k) (1 ∷ (gs ++ 0 ∷ replicate (n + r) 0)))
        (omega (arith, g.size)) (omega arith)
      ∙ multiply_root_lem gs (replicate (n + r) 0) a 1 in
    let one_more : suc n + r ≡ suc (n + r) = omega arith in
    (
      gs',
      subst (λ (t : ℕ). IsGenerator t gs') (omega arith) g',
      ap
            (λ (t : ℕ).
              generator_from n (m + 1 + 1) (
                multiply_root (m + 1) (gf_pow_alpha ((m + 1) % 2 ^ 8)) (1 ∷ (gs ++ replicate t 0))))
            one_more
          ∙ ap (generator_from n (m + 1 + 1)) step
          ∙ e,
    )

-- `generator_poly` gives the monic polynomial of degree `nsym` with the roots alpha to alpha^nsym.
pub generator_poly_lem :
    (nsym : ℕ)
    → nsym ≤ max_check
    → (gs : List ℕ) × (IsGenerator nsym gs)
      × (generator_poly nsym ≡ 1 ∷ (gs ++ replicate (max_check - nsym) 0))
unfolding generator_poly
generator_poly_lem nsym h =
    let empty : IsGenerator 0 [] = record {
      size = refl;
      bytes = tt;
      roots = λ s l. absurd (omega arith);
    } in
    let (gs, g, e) = generator_from_lem nsym (max_check - nsym) 0 [] empty (omega arith) in
    let size : max_check ≡ nsym + (max_check - nsym) = omega arith in
    (
      gs,
      subst (λ (t : ℕ). IsGenerator t gs) (omega arith) g,
      ap (λ (t : ℕ). generator_from nsym 1 (1 ∷ replicate t 0)) size ∙ e,
    )
