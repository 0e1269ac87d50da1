-- ===== src/Fx25/Rs/Tests.antt =====
-- Decoding a concrete codeword, without errors.
use packet_radio_rs.Base.{ℕ, ◌≡◌, refl, arith, List, [], ◌∷◌}
use packet_radio_rs.Fx25.Gf256.{
  gf_add, gf_mul, gf_pow_alpha, gf_exp, gf_log, exp_entries, fill_log, next_val,
}
use packet_radio_rs.Fx25.Rs.{ok, rs_decode, compute_syndromes, syndromes_from, horner}
use packet_radio_rs.Fx25.Rs.Sound.{IsDecoded, rs_decode_sound}

-- The generator polynomial of two check bytes, x^2 + 6x + 8, is a codeword.
abbrev generator : List ℕ
generator = 1 ∷ 6 ∷ 8 ∷ []

decoded : rs_decode generator 3 2 ≡ ok (0, generator)
unfolding rs_decode compute_syndromes syndromes_from horner gf_add gf_mul gf_pow_alpha gf_exp gf_log
    exp_entries fill_log next_val
decoded = refl

rs_decode_sound_example : IsDecoded generator 3 2 0 generator
rs_decode_sound_example = rs_decode_sound generator 3 2 0 generator (omega arith) decoded
