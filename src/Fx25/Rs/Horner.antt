-- ===== src/Fx25/Rs/Horner.antt =====
-- Horner's rule is linear.
use packet_radio_rs.Base.{
  ℕ, zero, suc, ◌<◌, ◌≡◌, refl, sym, ap, ap₂, ◌∙◌, arith, List, [], ◌∷◌, ◌++◌, map, All, length,
  replicate, bit_xor_comm, bit_xor_assoc, bit_xor_self, bit_xor-zero, zero-bit_xor, bit_xor-lt,
}
use packet_radio_rs.Fx25.Gf256.{gf_add, gf_mul}
use packet_radio_rs.Fx25.Gf256.Laws.{zero_gf_mul, gf_mul_comm, gf_mul_assoc, gf_mul-lt}
use packet_radio_rs.Fx25.Gf256.Distribution.{gf_mul-gf_add}
use packet_radio_rs.Fx25.Rs.{horner}

abbrev pub IsByte : ℕ → Type 0
IsByte a = a < 256

pub gf_add-lt : (a b : ℕ) → a < 256 → b < 256 → gf_add a b < 256
unfolding gf_add
gf_add-lt a b p q = bit_xor-lt 8 a b p q

pub gf_add_zero : (a : ℕ) → gf_add a 0 ≡ a
unfolding gf_add
gf_add_zero a = bit_xor-zero a

pub zero_gf_add : (a : ℕ) → gf_add 0 a ≡ a
unfolding gf_add
zero_gf_add a = zero-bit_xor a

pub gf_add_self : (a : ℕ) → gf_add a a ≡ 0
unfolding gf_add
gf_add_self a = bit_xor_self a

pub gf_add_comm : (a b : ℕ) → gf_add a b ≡ gf_add b a
unfolding gf_add
gf_add_comm a b = bit_xor_comm a b

pub gf_add_assoc : (a b c : ℕ) → gf_add (gf_add a b) c ≡ gf_add a (gf_add b c)
unfolding gf_add
gf_add_assoc a b c = bit_xor_assoc a b c

pub gf_add_interchange :
    (a b c d : ℕ) → gf_add (gf_add a b) (gf_add c d) ≡ gf_add (gf_add a c) (gf_add b d)
gf_add_interchange a b c d =
    gf_add_assoc a b (gf_add c d)
    ∙ ap (gf_add a)
        (sym (gf_add_assoc b c d) ∙ ap (λ t. gf_add t d) (gf_add_comm b c) ∙ gf_add_assoc c b d)
    ∙ sym (gf_add_assoc a c (gf_add b d))

-- Multiplication distributes on the other side too.
pub gf_add-gf_mul :
    (a b c : ℕ)
    → a < 256
    → b < 256
    → c < 256
    → gf_mul (gf_add a b) c ≡ gf_add (gf_mul a c) (gf_mul b c)
gf_add-gf_mul a b c p q r =
    gf_mul_comm (gf_add a b) c
    ∙ gf_mul-gf_add c a b r p q
    ∙ ap₂ gf_add (gf_mul_comm c a) (gf_mul_comm c b)

-- Bytes added to the front of others.
abbrev pub add_front : List ℕ → List ℕ → List ℕ
add_front [] ys = []
add_front (x ∷ xs) [] = x ∷ xs
add_front (x ∷ xs) (y ∷ ys) = gf_add x y ∷ add_front xs ys

pub length-add_front : (xs ys : List ℕ) → length (add_front xs ys) ≡ length xs
length-add_front [] ys = refl
length-add_front (x ∷ xs) [] = refl
length-add_front (x ∷ xs) (y ∷ ys) = ap suc (length-add_front xs ys)

pub add_front-All : (xs ys : List ℕ) → All IsByte xs → All IsByte ys → All IsByte (add_front xs ys)
add_front-All [] ys p q = p
add_front-All (x ∷ xs) [] p q = p
add_front-All (x ∷ xs) (y ∷ ys) (p, ps) (q, qs) = (gf_add-lt x y p q, add_front-All xs ys ps qs)

pub horner-append : (xs ys : List ℕ) (x v : ℕ) → horner (xs ++ ys) x v ≡ horner ys x (horner xs x v)
unfolding horner
horner-append [] ys x v = refl
horner-append (c ∷ xs) ys x v = horner-append xs ys x (gf_add (gf_mul v x) c)

pub horner-lt : (xs : List ℕ) (x v : ℕ) → All IsByte xs → x < 256 → v < 256 → horner xs x v < 256
unfolding horner
horner-lt [] x v p q r = r
horner-lt (c ∷ xs) x v (p, ps) q r =
    horner-lt xs x (gf_add (gf_mul v x) c) ps q (gf_add-lt (gf_mul v x) c (gf_mul-lt v x r q) p)

pub horner_zeros : (n x : ℕ) → horner (replicate n 0) x 0 ≡ 0
unfolding horner
horner_zeros zero x = refl
horner_zeros (suc n) x =
    ap (λ t. horner (replicate n 0) x t) (ap (λ t. gf_add t 0) (zero_gf_mul x) ∙ gf_add_zero 0)
    ∙ horner_zeros n x

-- One round of a sum.
round_sum :
    (v w x a b : ℕ)
    → v < 256
    → w < 256
    → x < 256
    → gf_add (gf_mul (gf_add v w) x) (gf_add a b)
      ≡ gf_add (gf_add (gf_mul v x) a) (gf_add (gf_mul w x) b)
round_sum v w x a b p q r =
    ap (λ t. gf_add t (gf_add a b)) (gf_add-gf_mul v w x p q r)
    ∙ gf_add_interchange (gf_mul v x) (gf_mul w x) a b

-- The value of a sum is the sum of the values, the second padded with zeros.
pub horner-add_front :
    (xs ys : List ℕ) (x v w : ℕ)
    → All IsByte xs
    → All IsByte ys
    → x < 256
    → v < 256
    → w < 256
    → length xs ≡ length ys
    → horner (add_front xs ys) x (gf_add v w) ≡ gf_add (horner xs x v) (horner ys x w)
unfolding horner
horner-add_front [] [] x v w p q r s t h = refl
horner-add_front [] (y ∷ ys) x v w p q r s t h = absurd (omega arith)
horner-add_front (a ∷ xs) [] x v w p q r s t h = absurd (omega arith)
horner-add_front (a ∷ xs) (b ∷ ys) x v w (p, ps) (q, qs) r s t h =
    ap (λ u. horner (add_front xs ys) x u) (round_sum v w x a b s t r)
    ∙ horner-add_front xs ys x (gf_add (gf_mul v x) a) (gf_add (gf_mul w x) b) ps qs r
        (gf_add-lt (gf_mul v x) a (gf_mul-lt v x s r) p)
        (gf_add-lt (gf_mul w x) b (gf_mul-lt w x t r) q) (omega arith)

-- A factor on all coefficients.
pub horner-map :
    (ys : List ℕ) (c x v : ℕ)
    → All IsByte ys
    → c < 256
    → x < 256
    → v < 256
    → horner (map (gf_mul c) ys) x (gf_mul c v) ≡ gf_mul c (horner ys x v)
unfolding horner
horner-map [] c x v p q r s = refl
horner-map (y ∷ ys) c x v (p, ps) q r s =
    ap (λ t. horner (map (gf_mul c) ys) x t)
      (ap (λ t. gf_add t (gf_mul c y)) (gf_mul_assoc c v x q s r)
        ∙ sym (gf_mul-gf_add c (gf_mul v x) y q (gf_mul-lt v x s r) p))
    ∙ horner-map ys c x (gf_add (gf_mul v x) y) ps q r
        (gf_add-lt (gf_mul v x) y (gf_mul-lt v x s r) p)
