-- ===== src/Modem/SoftHdlc/Trials.antt =====
-- What a search by flipped bits leaves in the decoder.
use packet_radio_rs.Base.{
  ℕ, ◌+◌, ◌%◌, ◌^◌, ◌≤◌, ◌≡◌, refl, ap, ◌∙◌, arith, Bool, true, false, List, [], ◌∷◌, bit_or, ltb,
  ◌==◌, if◌then◌else◌, Bool-cases, inl, inr, length, length-append, length-drop, take, take-append,
  drop,
}
use packet_radio_rs.Ax25.Crc.{crc16_ccitt}
use packet_radio_rs.Modem.SoftHdlc.Defs.{SoftHdlcDecoder, crc_residue, max_frame_bytes}
use packet_radio_rs.Modem.SoftHdlc.Validity.{is_valid_ax25_frame}
use packet_radio_rs.Modem.SoftHdlc.Recovery.{
  Assembly, assemble_bit, assemble, empty_assembly, flip_all, reassembled, reassemble_and_check_crc,
  Trial, attempt, false_positive,
}
use packet_radio_rs.Modem.SoftHdlc.Flips.{flip_all_twice}

-- The sizes of the frame buffer.
pub record IsBuffered (d : SoftHdlcDecoder) : Type 0 where
  pub size : length d.frame_buf ≡ max_frame_bytes
  pub fits : d.frame_len ≤ max_frame_bytes

-- A frame with its CRC that passes both tests of a recovery.
pub record IsFrame (frame : List ℕ) : Type 0 where
  pub long : 17 ≤ length frame
  pub residue : crc16_ccitt frame ≡ crc_residue
  pub address_valid : is_valid_ax25_frame frame ≡ true

-- The tests of `reassemble_and_check_crc`.
pub checked : List ℕ → Bool
checked frame =
    if ltb (length frame) 17
    then false
    else if crc16_ccitt frame == crc_residue
    then is_valid_ax25_frame frame
    else false

pub checked-IsFrame : (frame : List ℕ) → checked frame ≡ true → IsFrame frame
unfolding checked
checked-IsFrame frame h = record {
  long = ground (arith, h);
  residue = ground (arith, h);
  address_valid = ground (arith, h);
}

assemble_bit_fits :
    (a : Assembly) (bit : ℕ)
    → length a.frame ≤ max_frame_bytes
    → length (assemble_bit a bit).frame ≤ max_frame_bytes
unfolding assemble_bit
assemble_bit_fits a bit h =
    let byte = if bit == 0 then a.current_byte else bit_or a.current_byte (2 ^ a.byte_bits) in
    ground (arith, length-append a.frame (byte ∷ []))

assemble_fits :
    (bits : List ℕ) (a : Assembly)
    → length a.frame ≤ max_frame_bytes
    → length (assemble a bits) ≤ max_frame_bytes
unfolding assemble
assemble_fits [] a h = h
assemble_fits (bit ∷ bits) a h =
    let marked = record a { ones = if bit == 0 then 0 else (a.ones + 1) % 2 ^ 8 } in
    let next = assemble_fits bits (assemble_bit marked bit) (assemble_bit_fits marked bit h) in
    let skip = assemble_fits bits (record a { ones = 0 }) h in ground (arith, next, skip)

reassembled_fits : (bits : List ℕ) (count : ℕ) → length (reassembled bits count) ≤ max_frame_bytes
unfolding reassembled
reassembled_fits bits count = assemble_fits (take count bits) empty_assembly (omega arith)

-- After a reassembly of some bits: the bits are as before, and a frame that was found stands in the
-- frame buffer.
pub record IsTried (bits : List ℕ) (d : SoftHdlcDecoder) (found : Bool) (after : SoftHdlcDecoder)
    : Type 0 where
  pub buffered : IsBuffered after
  pub same_bits : after.hard_bits ≡ d.hard_bits
  pub same_count : after.bit_count ≡ d.bit_count
  pub tested : found ≡ checked (reassembled bits d.bit_count)
  pub standing : found ≡ true → take after.frame_len after.frame_buf ≡ reassembled bits d.bit_count

false_positive-IsTried :
    (d : SoftHdlcDecoder)
    → IsBuffered d
    → false ≡ checked (reassembled d.hard_bits d.bit_count)
    → IsTried d.hard_bits d false (false_positive d)
unfolding false_positive
false_positive-IsTried d i e = record {
  buffered = record { size = i.size; fits = i.fits };
  same_bits = refl;
  same_count = refl;
  tested = e;
  standing = λ h. absurd (cc);
}

unchanged-IsTried :
    (d : SoftHdlcDecoder)
    → IsBuffered d
    → false ≡ checked (reassembled d.hard_bits d.bit_count)
    → IsTried d.hard_bits d false d
unchanged-IsTried d i e = record {
  buffered = i;
  same_bits = refl;
  same_count = refl;
  tested = e;
  standing = λ h. absurd (cc);
}

reassemble_lem :
    (d : SoftHdlcDecoder)
    → IsBuffered d
    → let r = reassemble_and_check_crc d in IsTried d.hard_bits d r.0 r.1
unfolding reassemble_and_check_crc checked
reassemble_lem d i =
    let frame = reassembled d.hard_bits d.bit_count in
    let fits = reassembled_fits d.hard_bits d.bit_count in
    elim (Bool-cases (ltb (length frame) 17)) [
      | inl short ↦ rw short (unchanged-IsTried d i (rw short refl))
      | inr long ↦ elim (Bool-cases (crc16_ccitt frame == crc_residue)) [
        | inr wrong ↦ rw (long, wrong) (unchanged-IsTried d i (rw (long, wrong) refl))
        | inl right ↦ elim (Bool-cases (is_valid_ax25_frame frame)) [
          | inr odd ↦
              rw (long, right, odd) (false_positive-IsTried d i (rw (long, right, odd) refl))
          | inl fine ↦
              rw (long, right, fine)
                (record {
                  buffered = record {
                    size = omega (
                      arith,
                      length-append frame (drop (length frame) d.frame_buf),
                      length-drop (length frame) d.frame_buf,
                      i.size,
                      fits,
                    );
                    fits = fits;
                  };
                  same_bits = refl;
                  same_count = refl;
                  tested = rw (long, right, fine) refl;
                  standing = λ h. take-append frame (drop (length frame) d.frame_buf);
                })
        ]
      ]
    ]

pub attempt_lem :
    (t : Trial) (d : SoftHdlcDecoder)
    → IsBuffered d
    → let r = attempt t d in IsTried (flip_all t.flips d.hard_bits) d r.0 r.1
unfolding attempt
attempt_lem t d i =
    let flipped = record d { hard_bits = flip_all t.flips d.hard_bits } in
    let tried = reassemble_lem flipped (record { size = i.size; fits = i.fits }) in
    record {
      buffered = record { size = tried.buffered.size; fits = tried.buffered.fits };
      same_bits = ap (flip_all t.flips) tried.same_bits ∙ flip_all_twice t.flips d.hard_bits;
      same_count = tried.same_count;
      tested = tried.tested;
      standing = tried.standing;
    }
