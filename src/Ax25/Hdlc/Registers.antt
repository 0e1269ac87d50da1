-- ===== src/Ax25/Hdlc/Registers.antt =====
-- Inside a frame: what one data bit, with the zero that may be stuffed behind it, does to the
-- decoder. No flag can be seen there, since at most five ones follow one another.
use packet_radio_rs.Base.{
  ℕ, zero, suc, ◌+◌, ◌*◌, ◌/◌, ◌≤◌, ◌<◌, ◌≡◌, refl, ap, subst, ◌∙◌, arith, true, false, not, Option,
  none, some, Bool-cases, inl, inr, List, [], ◌∷◌, ◌++◌, leb, ◌==◌, if◌then◌else◌, set, bit_or_0x80,
  bit_or-zero,
}
use packet_radio_rs.Ax25.Limits.{max_frame_len}
use packet_radio_rs.Ax25.Hdlc.{
  receiving, HdlcDecoder, shift_in, finish_bit, feed_in, feed_shifted, feed_bit, run, report,
  frames,
}
use packet_radio_rs.Ax25.Hdlc.Stuffing.{next_ones, stuffed}

-- The shift register stays below this after a zero and `ones` ones.
abbrev pub reg_bound : ℕ → ℕ
reg_bound zero = 128
reg_bound (suc zero) = 192
reg_bound (suc (suc zero)) = 224
reg_bound (suc (suc (suc zero))) = 240
reg_bound (suc (suc (suc (suc zero)))) = 248
reg_bound (suc (suc (suc (suc (suc ones))))) = 252

pub record InFrame (ones : ℕ) (d : HdlcDecoder) : Type 0 where
  pub inside : d.state ≡ receiving
  pub counted : d.ones_count ≡ ones
  pub bounded : d.shift_reg < reg_bound ones
  pub byte_fits : d.current_byte < 256

-- The part of the decoder that assembles the frame.
pub record Assembly : Type 0 where
  pub buf : List ℕ
  pub len : ℕ
  pub cur : ℕ
  pub idx : ℕ

abbrev pub assembly : HdlcDecoder → Assembly
assembly d = record {
  buf = d.frame_buf;
  len = d.frame_len;
  cur = d.current_byte;
  idx = d.bit_index;
}

-- A data bit enters the current byte at the top; the eighth one completes it.
abbrev pub take_bit : Assembly → ℕ → Assembly
take_bit a bit =
    if leb 8 (a.idx + 1)
    then record { buf = set a.buf a.len (a.cur / 2 + 128 * bit); len = a.len + 1; cur = 0; idx = 0 }
    else record a { cur = a.cur / 2 + 128 * bit; idx = a.idx + 1 }

pub shift_in-true : (reg : ℕ) → reg < 256 → shift_in reg true ≡ reg / 2 + 128
unfolding shift_in
shift_in-true reg h = bit_or_0x80 (reg / 2) (omega arith)

pub shift_in-false : (reg : ℕ) → shift_in reg false ≡ reg / 2
unfolding shift_in
shift_in-false reg = bit_or-zero (reg / 2)

-- What is known behind a data bit: the run of ones, the assembled part, and that nothing is
-- reported.
pub record After (ones : ℕ) (a : Assembly) (d : HdlcDecoder) (bits : List ℕ) : Type 0 where
  pub frame : InFrame ones (run d bits)
  pub assembled : assembly (run d bits) ≡ a
  pub silent : frames d bits ≡ []

pub reg_bound-le : (ones : ℕ) → reg_bound ones ≤ 252
reg_bound-le zero = omega arith
reg_bound-le (suc zero) = omega arith
reg_bound-le (suc (suc zero)) = omega arith
reg_bound-le (suc (suc (suc zero))) = omega arith
reg_bound-le (suc (suc (suc (suc zero)))) = omega arith
reg_bound-le (suc (suc (suc (suc (suc ones))))) = omega arith

reg_bound-suc :
    (ones reg : ℕ) → ones ≤ 4 → reg < reg_bound ones → reg / 2 + 128 < reg_bound (suc ones)
reg_bound-suc zero reg h r = omega arith
reg_bound-suc (suc zero) reg h r = omega arith
reg_bound-suc (suc (suc zero)) reg h r = omega arith
reg_bound-suc (suc (suc (suc zero))) reg h r = omega arith
reg_bound-suc (suc (suc (suc (suc zero)))) reg h r = omega arith
reg_bound-suc (suc (suc (suc (suc (suc ones))))) reg h r = absurd (omega arith)

-- A one, behind at most four others.
feed_one :
    (ones : ℕ) (d : HdlcDecoder)
    → ones ≤ 4
    → InFrame ones d
    → d.frame_len < max_frame_len
    → After (suc ones) (take_bit (assembly d) 1) d (1 ∷ [])
unfolding run frames feed_bit feed_shifted feed_in finish_bit
feed_one ones d h f r =
    let reg = shift_in-true d.shift_reg (omega (arith, reg_bound-le ones, f.bounded)) in
    let cur = bit_or_0x80 (d.current_byte / 2) (omega (arith, f.byte_fits)) in
    let bound = reg_bound-suc ones d.shift_reg h f.bounded in ground (arith, reg, cur, bound)

-- A zero that is data, behind at most four ones.
feed_zero :
    (ones : ℕ) (d : HdlcDecoder)
    → ones ≤ 4
    → InFrame ones d
    → d.frame_len < max_frame_len
    → After 0 (take_bit (assembly d) 0) d (0 ∷ [])
unfolding run frames feed_bit feed_shifted feed_in finish_bit
feed_zero ones d h f r =
    let reg = shift_in-false d.shift_reg in
    let bound = reg_bound-le ones in ground (arith, reg, bound)

-- A stuffed zero, behind five ones, is thrown away.
feed_stuffed : (d : HdlcDecoder) → InFrame 5 d → After 0 (assembly d) d (0 ∷ [])
unfolding run frames feed_bit feed_shifted feed_in finish_bit
feed_stuffed d f = ground (arith, shift_in-false d.shift_reg)

report-append :
    (o : Option (List ℕ)) (fs gs : List (List ℕ)) → report o (fs ++ gs) ≡ report o fs ++ gs
report-append none fs gs = refl
report-append (some f) fs gs = refl

pub frames-append :
    (xs ys : List ℕ) (d : HdlcDecoder) → frames d (xs ++ ys) ≡ frames d xs ++ frames (run d xs) ys
unfolding frames run
frames-append [] ys d = refl
frames-append (x ∷ xs) ys d =
    let (next, reported) = feed_bit d (not (x == 0)) in
    ap (report reported) (frames-append xs ys next) ∙ report-append reported _ _

pub run-append : (xs ys : List ℕ) (d : HdlcDecoder) → run d (xs ++ ys) ≡ run (run d xs) ys
unfolding run
run-append [] ys d = refl
run-append (x ∷ xs) ys d = run-append xs ys (feed_bit d (not (x == 0))).0

pub After-append :
    {m n : ℕ} {a b : Assembly} (d : HdlcDecoder) (xs ys : List ℕ)
    → After m a d xs
    → After n b (run d xs) ys
    → After n b d (xs ++ ys)
After-append d xs ys p q = record {
  frame = rw (run-append xs ys d) q.frame;
  assembled = ap assembly (run-append xs ys d) ∙ q.assembled;
  silent = frames-append xs ys d ∙ rw (p.silent, q.silent) refl;
}

-- A data bit behind at most four ones, with what is stuffed behind it.
pub feed_data :
    (ones bit : ℕ) (d : HdlcDecoder)
    → ones ≤ 4
    → bit < 2
    → InFrame ones d
    → d.frame_len < max_frame_len
    → After (next_ones ones bit) (take_bit (assembly d) bit) d (stuffed ones bit)
feed_data ones zero d h b f r = feed_zero ones d h f r
feed_data ones (suc zero) d h b f r = elim (Bool-cases (ones + 1 == 5)) [
  | inl fifth ↦
      let one = feed_one ones d h f r in
      let five : suc ones ≡ 5 = ground arith in
      let five_ones : InFrame 5 (run d (1 ∷ [])) =
        subst (λ n. InFrame n (run d (1 ∷ []))) five one.frame in
      let zero_bit = feed_stuffed (run d (1 ∷ [])) five_ones in
      rw (fifth, ← one.assembled) (After-append d (1 ∷ []) (0 ∷ []) one zero_bit)
  | inr more ↦
      let same : ones + 1 ≡ suc ones = omega arith in rw (more, same) (feed_one ones d h f r)
]
feed_data ones (suc (suc bit)) d h b f r = absurd (omega arith)
