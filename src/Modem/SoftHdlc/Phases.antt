-- ===== src/Modem/SoftHdlc/Phases.antt =====
-- What the phases of the recovery report stands in the frame buffer, with its CRC and its addresses.
use packet_radio_rs.Base.{
  ℕ, ◌-◌, ◌*◌, ◌/◌, ◌%◌, ◌^◌, ◌≤◌, ◌≡◌, refl, sym, ap₂, subst, ◌∙◌, arith, min, Bool, true, false,
  ◌&&◌, Option, none, some, List, [], ◌∷◌, bit_xor, ltb, ◌==◌, if◌then◌else◌, Bool-cases, inl, inr,
  length, length-set, length-take, get_or, take,
}
use packet_radio_rs.Ax25.Crc.{crc16_ccitt}
use packet_radio_rs.Modem.SoftHdlc.Defs.{
  SoftHdlcDecoder, Stats, crc_residue, max_frame_bits, crc_poly_reflected,
}
use packet_radio_rs.Modem.SoftHdlc.Validity.{is_valid_ax25_frame}
use packet_radio_rs.Modem.SoftHdlc.Recovery.{
  flip_all, flip_in, correct_bit, find_error, try_syndrome_correction, reassembled, Trial, attempt,
  false_positive, cheaper, search_best, phase, or_else, give_up, flip_phases,
  try_bit_flip_recovery_info,
}
use packet_radio_rs.Modem.SoftHdlc.Trials.{
  IsBuffered, IsFrame, checked, checked-IsFrame, attempt_lem,
}

-- A best trial would give a frame once more.
abbrev Wins : List ℕ → ℕ → Option Trial → Type 0
Wins bits count none = Unit
Wins bits count (some t) = checked (reassembled (flip_all t.flips bits) count) ≡ true

record IsSearched (d : SoftHdlcDecoder) (best : Option Trial) (after : SoftHdlcDecoder)
    : Type 0 where
  buffered : IsBuffered after
  same_bits : after.hard_bits ≡ d.hard_bits
  same_count : after.bit_count ≡ d.bit_count
  wins : Wins d.hard_bits d.bit_count best

better-Wins :
    (bits : List ℕ) (count : ℕ) (found : Bool) (t : Trial) (best : Option Trial)
    → found ≡ checked (reassembled (flip_all t.flips bits) count)
    → Wins bits count best
    → Wins bits count (if found && cheaper t best then some t else best)
better-Wins bits count false t best e w = w
better-Wins bits count true t best e w = elim (Bool-cases (cheaper t best)) [
  | inl less ↦ rw less (sym e)
  | inr more ↦ rw more w
]

search_best_lem :
    (trials : List Trial) (best : Option Trial) (d : SoftHdlcDecoder)
    → IsBuffered d
    → Wins d.hard_bits d.bit_count best
    → let r = search_best trials best d in IsSearched d r.0 r.1
unfolding search_best
search_best_lem [] best d i w = record {
  buffered = i;
  same_bits = refl;
  same_count = refl;
  wins = w;
}
search_best_lem (t ∷ trials) best d i w =
    let found = (attempt t d).0 in
    let after = (attempt t d).1 in
    let tried = attempt_lem t d i in
    let next = if found && cheaper t best then some t else best in
    let won = better-Wins d.hard_bits d.bit_count found t best tried.tested w in
    let won_after =
      subst (λ bits. Wins bits after.bit_count next) (sym tried.same_bits)
        (subst (λ count. Wins d.hard_bits count next) (sym tried.same_count) won) in
    let rest = search_best_lem trials next after tried.buffered won_after in
    record {
      buffered = rest.buffered;
      same_bits = rest.same_bits ∙ tried.same_bits;
      same_count = rest.same_count ∙ tried.same_count;
      wins =
          subst (λ bits. Wins bits d.bit_count (search_best trials next after).0) tried.same_bits
            (subst (λ count. Wins after.hard_bits count (search_best trials next after).0)
              tried.same_count rest.wins);
    }

-- The result of a phase: with a result, the frame stands in the frame buffer.
abbrev pub Found : Option (ℕ × ℕ × ℕ) × SoftHdlcDecoder → Type 0
Found (none, d) = IsBuffered d
Found (some (len, flips, cost), d) =
    IsBuffered d × (len ≡ d.frame_len - 2) × IsFrame (take d.frame_len d.frame_buf)

phase_again :
    (t : Trial) (d after : SoftHdlcDecoder) (counted : Stats → Stats)
    → IsSearched d (some t) after
    → let again = (attempt t after).1 in
      Found (
        some (again.frame_len - 2, length t.flips, t.cost),
        record again { stats = counted again.stats },
      )
phase_again t d after counted s =
    let tried = attempt_lem t after s.buffered in
    let won : checked (reassembled (flip_all t.flips after.hard_bits) after.bit_count) ≡ true =
      ap₂ (λ (bits : List ℕ) (count : ℕ). checked (reassembled (flip_all t.flips bits) count))
        s.same_bits s.same_count
      ∙ s.wins in
    (
      record { size = tried.buffered.size; fits = tried.buffered.fits },
      refl,
      subst IsFrame (sym (tried.standing (tried.tested ∙ won))) (checked-IsFrame _ won),
    )

phase_lem :
    (trials : List Trial) (counted : Stats → Stats) (d : SoftHdlcDecoder)
    → IsBuffered d
    → Found (phase trials counted d)
unfolding phase
phase_lem trials counted d i =
    decided (search_best trials none d).0 (search_best trials none d).1
      (search_best_lem trials none d i tt)
  where
    decided :
        (best : Option Trial) (after : SoftHdlcDecoder)
        → IsSearched d best after
        → Found (elim best as (λ x. Option (ℕ × ℕ × ℕ) × SoftHdlcDecoder) [
          | none ↦ (none, after)
          | some t ↦
              let again = (attempt t after).1 in
              (
                some (again.frame_len - 2, length t.flips, t.cost),
                record again { stats = counted again.stats },
              )
        ])
    decided none after s = s.buffered
    decided (some t) after s = phase_again t d after counted s

or_else_lem :
    (r : Option (ℕ × ℕ × ℕ) × SoftHdlcDecoder)
    (next : SoftHdlcDecoder → Option (ℕ × ℕ × ℕ) × SoftHdlcDecoder)
    → Found r
    → ((d : SoftHdlcDecoder) → IsBuffered d → Found (next d))
    → Found (or_else r next)
or_else_lem (none, d) next f n = n d f
or_else_lem (some (len, flips, cost), d) next f n = f

give_up_lem : (d : SoftHdlcDecoder) → IsBuffered d → Found (give_up d)
unfolding give_up
give_up_lem d i = record { size = i.size; fits = i.fits }

flip_phases_lem : (d : SoftHdlcDecoder) → IsBuffered d → Found (flip_phases d)
unfolding flip_phases
flip_phases_lem d i =
    or_else_lem _ _
      (or_else_lem _ _
        (or_else_lem _ _
          (or_else_lem _ _ (or_else_lem _ _ (phase_lem _ _ d i) (phase_lem _ _)) (phase_lem _ _))
          (phase_lem _ _))
        (phase_lem _ _))
      give_up_lem

length-flip_in : (buf : List ℕ) (i : ℕ) → length (flip_in buf i) ≡ length buf
unfolding flip_in
length-flip_in buf i = length-set buf (i / 8) (bit_xor (get_or buf (i / 8) 0) (2 ^ (i % 8)))

correct_bit_lem :
    (d : SoftHdlcDecoder) (i : ℕ) → IsBuffered d → 17 ≤ d.frame_len → Found (correct_bit d i)
unfolding correct_bit
correct_bit_lem d i b l =
    let flipped = flip_in d.frame_buf i in
    let frame = take d.frame_len flipped in
    let once = length-flip_in d.frame_buf i in
    let twice = length-flip_in flipped i in
    elim (Bool-cases (crc16_ccitt frame == crc_residue)) [
      | inr wrong ↦ rw wrong (record { size = omega (arith, once, twice, b.size); fits = b.fits })
      | inl right ↦ elim (Bool-cases (is_valid_ax25_frame frame)) [
        | inr odd ↦
            rw (right, odd)
              (unfold false_positive in
                record { size = omega (arith, once, twice, b.size); fits = b.fits })
        | inl fine ↦
            rw (right, fine)
              (
                record { size = omega (arith, once, b.size); fits = b.fits },
                refl,
                record {
                  long = omega (arith, length-take d.frame_len flipped, once, b.size, b.fits, l);
                  residue = ground (arith, right);
                  address_valid = fine;
                },
              )
      ]
    ]

try_syndrome_correction_lem :
    (d : SoftHdlcDecoder) → IsBuffered d → Found (try_syndrome_correction d)
unfolding try_syndrome_correction
try_syndrome_correction_lem d i =
    let syndrome = bit_xor (crc16_ccitt (take d.frame_len d.frame_buf)) crc_residue in
    elim (Bool-cases (ltb d.frame_len 17)) [
      | inl short ↦ rw short i
      | inr enough ↦
          let long : 17 ≤ d.frame_len = ground (arith, enough) in
          elim (Bool-cases (syndrome == 0)) [
            | inl right ↦ rw (enough, right) i
            | inr wrong ↦
                rw (enough, wrong)
                  (at (find_error (d.frame_len * 8) 0 crc_poly_reflected syndrome) long)
          ]
    ]
  where
    at :
        (found : Option ℕ)
        → 17 ≤ d.frame_len
        → Found (elim found as (λ x. Option (ℕ × ℕ × ℕ) × SoftHdlcDecoder) [
          | none ↦ (none, d)
          | some k ↦ correct_bit d (d.frame_len * 8 - 1 - k)
        ])
    at none l = i
    at (some k) l = correct_bit_lem d (d.frame_len * 8 - 1 - k) i l

pub try_bit_flip_recovery_info_lem :
    (d : SoftHdlcDecoder) → IsBuffered d → Found (try_bit_flip_recovery_info d)
unfolding try_bit_flip_recovery_info
try_bit_flip_recovery_info_lem d i =
    or_else_lem (try_syndrome_correction d) _ (try_syndrome_correction_lem d i) (λ after b.
      elim (Bool-cases (min after.bit_count max_frame_bits == 0)) [
        | inl empty ↦ rw empty (give_up_lem after b)
        | inr some_bits ↦ rw some_bits (flip_phases_lem after b)
      ])
