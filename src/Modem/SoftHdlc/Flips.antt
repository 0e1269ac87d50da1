-- ===== src/Modem/SoftHdlc/Flips.antt =====
-- Flipping the same bits twice changes nothing, so that a trial leaves the buffered bits alone.
use packet_radio_rs.Base.{
  ℕ, zero, suc, ◌≤◌, ◌≡◌, ◌≢◌, refl, sym, ap, ap₂, ◌∙◌, arith, List, [], ◌∷◌, bit_xor,
  bit_xor_assoc, bit_xor_self, bit_xor-zero, ℕ_discrete, dec_lt, length, get_or, get_or-set,
  get_or-set_other, set, set-set, set_comm, set_self,
}
use packet_radio_rs.Modem.SoftHdlc.Recovery.{flip, flip_all}

set_out : (xs : List ℕ) (i v : ℕ) → length xs ≤ i → set xs i v ≡ xs
set_out [] i v h = refl
set_out (x ∷ xs) zero v h = absurd (omega arith)
set_out (x ∷ xs) (suc i) v h = ap (◌∷◌ x) (set_out xs i v (omega arith))

twice_bit : (a : ℕ) → bit_xor (bit_xor a 1) 1 ≡ a
twice_bit a = bit_xor_assoc a 1 1 ∙ ap (bit_xor a) (bit_xor_self 1) ∙ bit_xor-zero a

pub flip_twice : (i : ℕ) (bits : List ℕ) → flip i (flip i bits) ≡ bits
unfolding flip
flip_twice i bits = elim (dec_lt i (length bits)) [
  | yes h ↦
      ap (λ (v : ℕ). set (set bits i (bit_xor (get_or bits i 0) 1)) i (bit_xor v 1))
        (get_or-set bits i (bit_xor (get_or bits i 0) 1) 0 h)
      ∙ set-set bits i _ _
      ∙ ap (set bits i) (twice_bit (get_or bits i 0))
      ∙ set_self bits i 0
  | no h ↦
      let out : (v : ℕ) → set bits i v ≡ bits = λ v. set_out bits i v (omega arith) in
      ap (flip i) (out (bit_xor (get_or bits i 0) 1)) ∙ out (bit_xor (get_or bits i 0) 1)
]

pub flip_comm : (i j : ℕ) (bits : List ℕ) → flip i (flip j bits) ≡ flip j (flip i bits)
unfolding flip
flip_comm i j bits = elim (ℕ_discrete i j) [
  | yes e ↦ ap₂ (λ (x y : ℕ). flip x (flip y bits)) e (sym e)
  | no ne ↦
      let other : j ≢ i = λ e. ne (sym e) in
      rw
        (
          get_or-set_other bits j i (bit_xor (get_or bits j 0) 1) 0 other,
          get_or-set_other bits i j (bit_xor (get_or bits i 0) 1) 0 ne,
        )
        (set_comm bits j i _ _ other)
]

flip_all-flip :
    (flips : List ℕ) (i : ℕ) (bits : List ℕ)
    → flip_all flips (flip i bits) ≡ flip i (flip_all flips bits)
unfolding flip_all
flip_all-flip [] i bits = refl
flip_all-flip (j ∷ flips) i bits =
    ap (flip_all flips) (flip_comm j i bits) ∙ flip_all-flip flips i (flip j bits)

pub flip_all_twice : (flips bits : List ℕ) → flip_all flips (flip_all flips bits) ≡ bits
unfolding flip_all
flip_all_twice [] bits = refl
flip_all_twice (i ∷ flips) bits =
    ap (flip_all flips) (sym (flip_all-flip flips i (flip i bits)))
    ∙ ap (λ t. flip_all flips (flip_all flips t)) (flip_twice i bits)
    ∙ flip_all_twice flips bits
