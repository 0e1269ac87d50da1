-- ===== src/Modem/SoftHdlc/Sound.antt =====
-- What `feed_soft_bit` reports was checked.
use packet_radio_rs.Base.{
  ℕ, suc, ◌+◌, ◌-◌, ◌^◌, ◌≤◌, ◌≡◌, refl, sym, ap, subst, ◌∙◌, arith, min, Bool, true, false, ◌&&◌,
  Option, none, some, List, [], ◌∷◌, ◌++◌, bit_or, ltb, leb, ◌==◌, ℤ, if◌then◌else◌, Bool-cases,
  inl, inr, length, length-set, length-take, length-replicate, take, take-take,
}
use packet_radio_rs.Ax25.Crc.{crc16_ccitt}
use packet_radio_rs.Modem.SoftHdlc.Defs.{
  SoftHdlcDecoder, FrameResult, valid, recovered, HdlcState, hunting, receiving, new, crc_residue,
  max_frame_bytes, max_frame_bits,
}
use packet_radio_rs.Modem.SoftHdlc.Validity.{is_valid_ax25_frame}
use packet_radio_rs.Modem.SoftHdlc.Recovery.{try_bit_flip_recovery_info}
use packet_radio_rs.Modem.SoftHdlc.Feed.{
  check_frame_crc, is_receiving, frame_result_info, next_frame, result_of, handle_flag, accumulate,
  take_bit, take_zero, process_bit, hard_bit, store_bit, feed_soft_bit, run,
}
use packet_radio_rs.Modem.SoftHdlc.Trials.{IsBuffered}
use packet_radio_rs.Modem.SoftHdlc.Phases.{Found, try_bit_flip_recovery_info_lem}

-- Bytes that were reported without their CRC: with two more bytes they stand in a frame buffer, and
-- those have the CRC's residue.
pub record IsReported (buf bytes : List ℕ) : Type 0 where
  pub lo : ℕ
  pub hi : ℕ
  pub in_buffer : take (length bytes + 2) buf ≡ bytes ++ lo ∷ hi ∷ []
  pub residue : crc16_ccitt (bytes ++ lo ∷ hi ∷ []) ≡ crc_residue
  pub long : 15 ≤ length bytes
  pub fits : length bytes ≤ 398

-- A frame that stood whole in the frame buffer as it was received, or one that was recovered, stands
-- in the frame buffer afterwards and is a valid AX.25 frame.
abbrev pub Reported : SoftHdlcDecoder → List ℕ → Option FrameResult → Type 0
Reported before after none = Unit
Reported before after (some (valid bytes)) =
    (before.state ≡ receiving)
    × (before.frame_len ≡ length bytes + 2)
    × IsReported before.frame_buf bytes
Reported before after (some (recovered bytes flips cost)) =
    (r : IsReported after bytes) × (is_valid_ax25_frame (bytes ++ r.lo ∷ r.hi ∷ []) ≡ true)

-- The last two elements of a list.
last_two :
    (xs : List ℕ) → 2 ≤ length xs → (a : ℕ) × (b : ℕ) × (xs ≡ take (length xs - 2) xs ++ a ∷ b ∷ [])
last_two [] h = absurd (omega arith)
last_two (x ∷ []) h = absurd (omega arith)
last_two (x ∷ y ∷ []) h = (x, y, refl)
last_two (x ∷ y ∷ z ∷ xs) h =
    let (a, b, e) = last_two (y ∷ z ∷ xs) (omega arith) in
    let shorter : length (x ∷ y ∷ z ∷ xs) - 2 ≡ suc (length (y ∷ z ∷ xs) - 2) = omega arith in
    (a, b, ap (◌∷◌ x) e ∙ sym (ap (λ (n : ℕ). take n (x ∷ y ∷ z ∷ xs) ++ a ∷ b ∷ []) shorter))

-- The bytes in front of the CRC in the frame buffer.
front_IsReported :
    (buf : List ℕ) (n : ℕ)
    → length buf ≡ max_frame_bytes
    → n ≤ max_frame_bytes
    → 17 ≤ n
    → crc16_ccitt (take n buf) ≡ crc_residue
    → (r : IsReported buf (take (n - 2) buf)) × (take n buf ≡ take (n - 2) buf ++ r.lo ∷ r.hi ∷ [])
front_IsReported buf n s f l c =
    let all : length (take n buf) ≡ n = omega (arith, length-take n buf, s, f) in
    let (a, b, e) = last_two (take n buf) (omega (arith, all, l)) in
    let front : take (length (take n buf) - 2) (take n buf) ≡ take (n - 2) buf =
      ap (λ (k : ℕ). take (k - 2) (take n buf)) all ∙ take-take (n - 2) n buf (omega arith) in
    let whole = e ∙ ap (λ t. t ++ a ∷ b ∷ []) front in
    let size : length (take (n - 2) buf) + 2 ≡ n =
      omega (arith, length-take (n - 2) buf, s, f, l) in
    (
      record {
        lo = a;
        hi = b;
        in_buffer = ap (λ (k : ℕ). take k buf) size ∙ whole;
        residue = ap crc16_ccitt (sym whole) ∙ c;
        long = omega (arith, length-take (n - 2) buf, s, f, l);
        fits = omega (arith, length-take (n - 2) buf, s, f, l);
      },
      whole,
    )

-- Both parts of what `handle_flag` and `process_bit` return.
abbrev IsSound : SoftHdlcDecoder → Option FrameResult × SoftHdlcDecoder → Type 0
IsSound before (r, d) = Reported before d.frame_buf r × IsBuffered d

abbrev Info : SoftHdlcDecoder → Option (ℕ × Bool × ℕ × ℕ) × SoftHdlcDecoder → Type 0
Info before (info, d) = Reported before d.frame_buf (result_of info d.frame_buf) × IsBuffered d

is_receiving-true : (s : HdlcState) → is_receiving s ≡ true → s ≡ receiving
is_receiving-true hunting h = cc
is_receiving-true receiving h = refl

recovered_lem :
    (before : SoftHdlcDecoder) (found : Option (ℕ × ℕ × ℕ)) (d : SoftHdlcDecoder)
    → Found (found, d)
    → Info before (elim found as (λ x. Option (ℕ × Bool × ℕ × ℕ) × SoftHdlcDecoder) [
      | none ↦ (none, d)
      | some (len, flips, cost) ↦ (some (len, true, flips, cost), d)
    ])
recovered_lem before none d i = (tt, i)
recovered_lem before (some (len, flips, cost)) d (i, e, f) =
    let long : 17 ≤ d.frame_len = omega (arith, f.long, length-take d.frame_len d.frame_buf) in
    let (r, whole) = front_IsReported d.frame_buf d.frame_len i.size i.fits long f.residue in
    (
      subst
          (λ (n : ℕ).
            (q : IsReported d.frame_buf (take n d.frame_buf)) × (is_valid_ax25_frame
                (take n d.frame_buf ++ q.lo ∷ q.hi ∷ [])
              ≡ true))
          (sym e) (r, ap is_valid_ax25_frame (sym whole) ∙ f.address_valid),
      i,
    )

frame_result_info_lem : (d : SoftHdlcDecoder) → IsBuffered d → Info d (frame_result_info d)
unfolding frame_result_info check_frame_crc
frame_result_info_lem d i = elim (Bool-cases (is_receiving d.state && leb 17 d.frame_len)) [
  | inr idle ↦ rw idle (tt, i)
  | inl busy ↦
      let long : 17 ≤ d.frame_len = ground (arith, busy) in
      let enough : ltb d.frame_len (d.frame_len - 2 + 2) ≡ false = ground arith in
      let size : d.frame_len ≡ length (take (d.frame_len - 2) d.frame_buf) + 2 =
        omega (arith, length-take (d.frame_len - 2) d.frame_buf, i.size, i.fits, long) in
      elim (Bool-cases (crc16_ccitt (take d.frame_len d.frame_buf) == crc_residue)) [
        | inl right ↦
            let stands =
              front_IsReported d.frame_buf d.frame_len i.size i.fits long (ground (arith, right)) in
            rw (busy, enough, right)
              (
                (is_receiving-true d.state (ground (arith, busy)), size, stands.0),
                record { size = i.size; fits = i.fits },
              )
        | inr wrong ↦
            let result = try_bit_flip_recovery_info d in
            rw (busy, enough, wrong)
              (recovered_lem d result.0 result.1 (try_bit_flip_recovery_info_lem d i))
      ]
]

handle_flag_lem : (d : SoftHdlcDecoder) → IsBuffered d → IsSound d (handle_flag d)
unfolding handle_flag next_frame
handle_flag_lem d i =
    let (r, b) = frame_result_info_lem d i in (r, record { size = b.size; fits = omega arith })

accumulate_lem : (d : SoftHdlcDecoder) (bit : Bool) → IsBuffered d → IsBuffered (accumulate d bit)
unfolding accumulate
accumulate_lem d bit i =
    let byte = if bit then bit_or d.current_byte (2 ^ d.byte_bit_count) else d.current_byte in
    ground (arith, length-set d.frame_buf d.frame_len byte)

take_bit_lem :
    (before d : SoftHdlcDecoder) (bit : Bool) → IsBuffered d → IsSound before (take_bit d bit)
unfolding take_bit
take_bit_lem before d bit i = elim (Bool-cases (is_receiving d.state)) [
  | inl on ↦ rw on (tt, accumulate_lem d bit i)
  | inr off ↦ rw off (tt, i)
]

take_zero_lem : (d : SoftHdlcDecoder) → IsBuffered d → IsSound d (take_zero d)
unfolding take_zero
take_zero_lem d i =
    let aborted = if leb 7 d.ones_count then record d { state = hunting; bit_count = 0 } else d in
    let b : IsBuffered aborted = ground arith in
    elim (Bool-cases (d.ones_count == 5 && is_receiving aborted.state)) [
      | inl stuffed ↦ rw stuffed (tt, record { size = b.size; fits = b.fits })
      | inr plain ↦ rw plain (
          take_bit_lem d (record aborted { ones_count = 0 }) false
            (record { size = b.size; fits = b.fits }))
    ]

process_bit_lem : (d : SoftHdlcDecoder) (bit : Bool) → IsBuffered d → IsSound d (process_bit d bit)
unfolding process_bit
process_bit_lem d true i =
    take_bit_lem d (record d { ones_count = min (d.ones_count + 1) 255 }) true
      (record { size = i.size; fits = i.fits })
process_bit_lem d false i = elim (Bool-cases (d.ones_count == 6)) [
  | inl flag ↦ rw flag (handle_flag_lem d i)
  | inr other ↦ rw other (take_zero_lem d i)
]

feed_soft_bit_lem : (d : SoftHdlcDecoder) (llr : ℤ) → IsBuffered d → IsSound d (feed_soft_bit d llr)
unfolding feed_soft_bit store_bit
feed_soft_bit_lem d llr i = elim (Bool-cases (ltb d.bit_count max_frame_bits)) [
  | inl room ↦ rw room (process_bit_lem _ (hard_bit llr) (record { size = i.size; fits = i.fits }))
  | inr full ↦ rw full (process_bit_lem d (hard_bit llr) i)
]

new-IsBuffered : IsBuffered new
unfolding new
new-IsBuffered = record { size = length-replicate {A = ℕ} max_frame_bytes 0; fits = omega arith }

run-IsBuffered : (llrs : List ℤ) (d : SoftHdlcDecoder) → IsBuffered d → IsBuffered (run d llrs)
unfolding run
run-IsBuffered [] d i = i
run-IsBuffered (llr ∷ llrs) d i =
    run-IsBuffered llrs (feed_soft_bit d llr).1 (feed_soft_bit_lem d llr i).1

-- Whatever soft bits a decoder has read since `new`, a frame that `feed_soft_bit` reports has 15 to
-- 398 bytes. A valid one was all but the last two bytes of the frame buffer in use, as it was received
-- inside a frame, and a recovered one stands in the frame buffer afterwards with two more bytes
-- behind it. With these two bytes it has the CRC's residue, and a recovered one passes
-- `is_valid_ax25_frame`.
pub feed_soft_bit_sound :
    (llrs : List ℤ) (llr : ℤ)
    → let d = run new llrs in let r = feed_soft_bit d llr in Reported d r.1.frame_buf r.0
feed_soft_bit_sound llrs llr =
    (feed_soft_bit_lem (run new llrs) llr (run-IsBuffered llrs new new-IsBuffered)).0
