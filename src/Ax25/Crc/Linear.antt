-- ===== src/Ax25/Crc/Linear.antt =====
-- The register is linear in itself and in the data: the laws that the residue and the error
-- detection follow from.
use packet_radio_rs.Base.{
  ℕ, zero, suc, ◌+◌, ◌/◌, ◌%◌, ◌^◌, ◌<◌, ◌≡◌, refl, sym, ap, ap₂, ◌∙◌, arith, List, [], ◌∷◌, ◌++◌,
  bit_xor, bit_and_mask, bit_xor_step, bit_xor-half, bit_xor_self, bit_xor-zero, bit_xor-lt,
  bit_xor_interchange, bit_xor-eq_zero, ◌≢◌, ◌==◌, if◌then◌else◌,
}
use native.Mathlib.Nat.{pow-suc}
use packet_radio_rs.Ax25.Crc.{poly, crc_bit, crc_bits, crc_bytes}

-- What a round adds to the shifted register.
abbrev term : ℕ → ℕ
term parity = if parity == 0 then 0 else poly

pub crc_bit_lem : (c b : ℕ) → crc_bit c b ≡ bit_xor (c / 2) (term ((c + b) % 2))
unfolding crc_bit
crc_bit_lem c b =
    ground (arith, bit_and_mask 1 (bit_xor c b), bit_xor_step c b, bit_xor-zero (c / 2))

term-xor : (p q : ℕ) → term ((p + q) % 2) ≡ bit_xor (term (p % 2)) (term (q % 2))
term-xor p q = ground arith

parity : (a b c d : ℕ) → (bit_xor a c + bit_xor b d) % 2 ≡ ((a + b) + (c + d)) % 2
parity a b c d = omega (arith, bit_xor_step a c, bit_xor_step b d)

pub crc_bit-xor :
    (a b c d : ℕ) → crc_bit (bit_xor a c) (bit_xor b d) ≡ bit_xor (crc_bit a b) (crc_bit c d)
crc_bit-xor a b c d =
    crc_bit_lem (bit_xor a c) (bit_xor b d)
    ∙ ap₂ bit_xor (bit_xor-half a c) (ap term (parity a b c d) ∙ term-xor (a + b) (c + d))
    ∙ bit_xor_interchange (a / 2) (c / 2) (term ((a + b) % 2)) (term ((c + d) % 2))
    ∙ ap₂ bit_xor (sym (crc_bit_lem a b)) (sym (crc_bit_lem c d))

pub crc_bits-xor :
    (n a b c d : ℕ)
    → crc_bits n (bit_xor a c) (bit_xor b d) ≡ bit_xor (crc_bits n a b) (crc_bits n c d)
unfolding crc_bits
crc_bits-xor zero a b c d = refl
crc_bits-xor (suc n) a b c d =
    ap₂ (crc_bits n) (crc_bit-xor a b c d) (bit_xor-half b d)
    ∙ crc_bits-xor n (crc_bit a b) (b / 2) (crc_bit c d) (d / 2)

crc_bit_self : (r : ℕ) → crc_bit r r ≡ r / 2
crc_bit_self r =
    let even : (r + r) % 2 ≡ 0 = omega arith in crc_bit_lem r r ∙ rw even (bit_xor-zero (r / 2))

-- Data equal to the register only shifts it out.
pub crc_bits_self : (n r : ℕ) → r < 2 ^ n → crc_bits n r r ≡ 0
unfolding crc_bits
crc_bits_self zero r h = omega arith
crc_bits_self (suc n) r h =
    rw (crc_bit_self r) (crc_bits_self n (r / 2) (omega (arith, pow-suc 2 n)))

-- Register and data count only through their exclusive or.
pub crc_bits-merge : (n r b : ℕ) → b < 2 ^ n → crc_bits n r b ≡ crc_bits n (bit_xor r b) 0
crc_bits-merge n r b h =
    sym (bit_xor-zero _)
    ∙ ap (bit_xor (crc_bits n r b)) (sym (crc_bits_self n b h))
    ∙ sym (crc_bits-xor n r b b b)
    ∙ ap (crc_bits n (bit_xor r b)) (bit_xor_self b)

crc_bit-lt : (c b : ℕ) → c < 2 ^ 16 → crc_bit c b < 2 ^ 16
crc_bit-lt c b h =
    let low : c / 2 < 2 ^ 16 = omega arith in
    rw (crc_bit_lem c b) (bit_xor-lt 16 (c / 2) _ low (ground arith))

pub crc_bits-lt : (n c b : ℕ) → c < 2 ^ 16 → crc_bits n c b < 2 ^ 16
unfolding crc_bits
crc_bits-lt zero c b h = h
crc_bits-lt (suc n) c b h = crc_bits-lt n (crc_bit c b) (b / 2) (crc_bit-lt c b h)

pub crc_bytes-lt : (bytes : List ℕ) (c : ℕ) → c < 2 ^ 16 → crc_bytes c bytes < 2 ^ 16
unfolding crc_bytes
crc_bytes-lt [] c h = h
crc_bytes-lt (x ∷ xs) c h = crc_bytes-lt xs (crc_bits 8 c x) (crc_bits-lt 8 c x h)

pub crc_bytes-append :
    (xs ys : List ℕ) (c : ℕ) → crc_bytes c (xs ++ ys) ≡ crc_bytes (crc_bytes c xs) ys
unfolding crc_bytes
crc_bytes-append [] ys c = refl
crc_bytes-append (x ∷ xs) ys c = crc_bytes-append xs ys (crc_bits 8 c x)

-- A round with no data has no kernel: the register is 0 afterwards only if it was.
crc_bit-eq_zero : (c : ℕ) → c < 2 ^ 16 → crc_bit c 0 ≡ 0 → c ≡ 0
crc_bit-eq_zero c h e =
    let high : c / 2 ≢ poly = omega arith in
    let same = bit_xor-eq_zero (c / 2) _ (sym (crc_bit_lem c 0) ∙ e) in ground arith

pub crc_bits-eq_zero : (n c : ℕ) → c < 2 ^ 16 → crc_bits n c 0 ≡ 0 → c ≡ 0
unfolding crc_bits
crc_bits-eq_zero zero c h e = e
crc_bits-eq_zero (suc n) c h e =
    crc_bit-eq_zero c h (crc_bits-eq_zero n (crc_bit c 0) (crc_bit-lt c 0 h) e)

-- Different registers stay different while they read the same data.
pub crc_bits_injective :
    (n c d b : ℕ) → c < 2 ^ 16 → d < 2 ^ 16 → crc_bits n c b ≡ crc_bits n d b → c ≡ d
crc_bits_injective n c d b p q e = bit_xor-eq_zero c d (
    crc_bits-eq_zero n (bit_xor c d) (bit_xor-lt 16 c d p q) (
      ap (crc_bits n (bit_xor c d)) (sym (bit_xor_self b))
      ∙ crc_bits-xor n c b d b
      ∙ ap (λ t. bit_xor t (crc_bits n d b)) e
      ∙ bit_xor_self (crc_bits n d b)))
