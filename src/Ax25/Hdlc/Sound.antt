-- ===== src/Ax25/Hdlc/Sound.antt =====
-- The decoder on arbitrary bits: its invariant, and what a reported frame was received with.
use packet_radio_rs.Base.{
  ℕ, zero, suc, ◌+◌, ◌-◌, ◌*◌, ◌/◌, ◌≤◌, ◌<◌, ◌≡◌, refl, sym, ap, ap₂, ◌∙◌, arith, some, true,
  false, not, Bool, List, [], ◌∷◌, ◌++◌, ◌==◌, All, length, take, drop, set, length-set,
  length-take, length-drop, take-append-drop, take-take, replicate, length-replicate, bit_or_0x80,
}
use packet_radio_rs.Ax25.Limits.{max_frame_len}
use packet_radio_rs.Ax25.Crc.{crc16_ccitt}
use packet_radio_rs.Ax25.Crc.Detect.{crc16_ccitt_trailer}
use packet_radio_rs.Ax25.Hdlc.{
  State, HdlcDecoder, hunting, receiving, new, shift_in, feed_bit, feed_shifted, feed_in,
  finish_bit, check_frame, start_frame, run,
}
use packet_radio_rs.Ax25.Hdlc.Registers.{shift_in-true, shift_in-false}

abbrev pub IsBytes : List ℕ → Type 0
IsBytes = All (λ b. b < 256)

-- Every index stays in its array and every register in its width.
pub record IsValid (d : HdlcDecoder) : Type 0 where
  pub size : length d.frame_buf ≡ max_frame_len
  pub buf_bytes : IsBytes d.frame_buf
  pub len_fits : d.frame_len ≤ max_frame_len
  pub idx_fits : d.bit_index < 8
  pub ones_fit : d.ones_count ≤ 7
  pub reg_fits : d.shift_reg < 256
  pub cur_fits : d.current_byte < 256

IsBytes-set : (xs : List ℕ) (i v : ℕ) → v < 256 → IsBytes xs → IsBytes (set xs i v)
IsBytes-set [] i v h b = b
IsBytes-set (x ∷ xs) zero v h b = (h, b.1)
IsBytes-set (x ∷ xs) (suc i) v h b = (b.0, IsBytes-set xs i v h b.1)

IsBytes-take : (n : ℕ) (xs : List ℕ) → IsBytes xs → IsBytes (take n xs)
IsBytes-take zero xs b = tt
IsBytes-take (suc n) [] b = tt
IsBytes-take (suc n) (x ∷ xs) b = (b.0, IsBytes-take n xs b.1)

IsBytes-replicate : (n : ℕ) → IsBytes (replicate n 0)
IsBytes-replicate zero = tt
IsBytes-replicate (suc n) = (omega arith, IsBytes-replicate n)

pub new-IsValid : IsValid new
unfolding new
new-IsValid = record {
  size = length-replicate {A = ℕ} max_frame_len 0;
  buf_bytes = IsBytes-replicate max_frame_len;
  len_fits = omega arith;
  idx_fits = omega arith;
  ones_fit = omega arith;
  reg_fits = omega arith;
  cur_fits = omega arith;
}

shift_in-lt : (reg : ℕ) (bit : Bool) → reg < 256 → shift_in reg bit < 256
shift_in-lt reg true h = omega (arith, shift_in-true reg h)
shift_in-lt reg false h = omega (arith, shift_in-false reg)

-- A decoder with at most one bit more in its byte.
record Between (d : HdlcDecoder) : Type 0 where
  size : length d.frame_buf ≡ max_frame_len
  buf_bytes : IsBytes d.frame_buf
  len_fits : d.frame_len ≤ max_frame_len
  idx_fits : d.bit_index ≤ 8
  ones_fit : d.ones_count ≤ 7
  reg_fits : d.shift_reg < 256
  cur_fits : d.current_byte < 256

finish_bit-IsValid : (d : HdlcDecoder) → Between d → IsValid (finish_bit d)
unfolding finish_bit
finish_bit-IsValid d b = ground (
  arith,
  length-set d.frame_buf d.frame_len d.current_byte,
  IsBytes-set d.frame_buf d.frame_len d.current_byte b.cur_fits b.buf_bytes,
)

-- The decoder before `finish_bit` when the bit is a zero.
abbrev unstuffed : HdlcDecoder → HdlcDecoder
unstuffed d = record d {
  ones_count = 0;
  current_byte = d.current_byte / 2;
  bit_index = d.bit_index + 1;
}

feed_in-IsValid :
    (s : State) (d : HdlcDecoder) (bit : Bool)
    → d.ones_count < 7
    → IsValid d
    → IsValid (feed_in s d bit)
unfolding feed_in
feed_in-IsValid hunting d true h v = ground arith
feed_in-IsValid hunting d false h v = ground arith
feed_in-IsValid receiving d true h v =
    let top = bit_or_0x80 (d.current_byte / 2) (omega (arith, v.cur_fits)) in
    finish_bit-IsValid _ (ground (arith, top))
feed_in-IsValid receiving d false h v =
    ground (arith, finish_bit-IsValid (unstuffed d) (ground arith))

-- `feed_bit` keeps the decoder valid, whatever the bit.
pub feed_bit-IsValid : (d : HdlcDecoder) (bit : Bool) → IsValid d → IsValid (feed_bit d bit).0
unfolding feed_bit feed_shifted start_frame
feed_bit-IsValid d bit v =
    let shifted : HdlcDecoder = record d { shift_reg = shift_in d.shift_reg bit } in
    let reg = shift_in-lt d.shift_reg bit v.reg_fits in
    let v' : IsValid shifted = ground arith in ground (arith, feed_in-IsValid d.state shifted bit)

pub run-IsValid : (bits : List ℕ) (d : HdlcDecoder) → IsValid d → IsValid (run d bits)
unfolding run
run-IsValid [] d v = v
run-IsValid (b ∷ bits) d v =
    run-IsValid bits (feed_bit d (not (b == 0))).0 (feed_bit-IsValid d (not (b == 0)) v)

-- What the buffer held when `f` was reported: the frame, and behind it the two bytes of its CRC,
-- low byte first.
pub record ReceivedWith (d : HdlcDecoder) (f : List ℕ) : Type 0 where
  pub lo : ℕ
  pub hi : ℕ
  pub in_buffer : take d.frame_len d.frame_buf ≡ f ++ lo ∷ hi ∷ []
  pub crc : lo + 256 * hi ≡ crc16_ccitt f
  pub was_inside : d.state ≡ receiving
  pub long : 15 ≤ length f
  pub short : length f ≤ 328

two_bytes :
    (xs : List ℕ)
    → length xs ≡ 2
    → IsBytes xs
    → (lo : ℕ) × (hi : ℕ) × (xs ≡ lo ∷ hi ∷ []) × (lo < 256) × (hi < 256)
two_bytes [] h b = absurd (omega arith)
two_bytes (x ∷ []) h b = absurd (omega arith)
two_bytes (x ∷ y ∷ []) h b = (x, y, refl, b.0, b.1.0)
two_bytes (x ∷ y ∷ z ∷ xs) h b = absurd (omega arith)

IsBytes-drop : (n : ℕ) (xs : List ℕ) → IsBytes xs → IsBytes (drop n xs)
IsBytes-drop zero xs b = b
IsBytes-drop (suc n) [] b = tt
IsBytes-drop (suc n) (x ∷ xs) b = IsBytes-drop n xs b.1

check_frame-some :
    (s : State) (d : HdlcDecoder) (f : List ℕ)
    → check_frame s d ≡ some f
    → (s ≡ receiving)
      × (17 ≤ d.frame_len)
      × (crc16_ccitt (take d.frame_len d.frame_buf) ≡ 0x0F47)
      × (f ≡ take (d.frame_len - 2) d.frame_buf)
unfolding check_frame
check_frame-some hunting d f e = cc
check_frame-some receiving d f e = ground arith

check_frame-ReceivedWith :
    (d : HdlcDecoder) (f : List ℕ) → IsValid d → check_frame d.state d ≡ some f → ReceivedWith d f
check_frame-ReceivedWith d f v e =
    let (inside, long, residue, is_front) = check_frame-some d.state d f e in
    let all = take d.frame_len d.frame_buf in
    let n = d.frame_len - 2 in
    let size : length all ≡ d.frame_len =
      omega (arith, length-take d.frame_len d.frame_buf, v.size, v.len_fits) in
    let front : f ≡ take n all =
      is_front ∙ sym (take-take n d.frame_len d.frame_buf (omega arith)) in
    let (lo, hi, is_back, lo_fits, hi_fits) =
      two_bytes (drop n all) (omega (arith, length-drop n all))
        (IsBytes-drop n all (IsBytes-take d.frame_len d.frame_buf v.buf_bytes)) in
    let split : all ≡ f ++ lo ∷ hi ∷ [] =
      sym (take-append-drop n all) ∙ ap₂ ◌++◌ (sym front) is_back in
    let size_f : length f ≡ n = ap length front ∙ omega (arith, length-take n all) in
    record {
      lo = lo;
      hi = hi;
      in_buffer = split;
      crc = crc16_ccitt_trailer f lo hi lo_fits hi_fits (ap crc16_ccitt (sym split) ∙ residue);
      was_inside = inside;
      long = omega arith;
      short = omega (arith, v.len_fits);
    }

check_frame-shift_reg :
    (s : State) (d : HdlcDecoder) (reg : ℕ)
    → check_frame s (record d { shift_reg = reg }) ≡ check_frame s d
unfolding check_frame
check_frame-shift_reg hunting d reg = refl
check_frame-shift_reg receiving d reg = refl

feed_bit-check_frame :
    (d : HdlcDecoder) (bit : Bool) (f : List ℕ)
    → (feed_bit d bit).1 ≡ some f
    → check_frame d.state d ≡ some f
unfolding feed_bit feed_shifted
feed_bit-check_frame d bit f e =
    ground (arith, check_frame-shift_reg d.state d (shift_in d.shift_reg bit))

-- Whatever bits came before, a frame that `feed_bit` reports has 15 to 328 bytes, and stood in the
-- buffer of a decoder inside a frame with its own CRC behind it: nothing with a wrong CRC is
-- reported.
pub feed_bit_sound :
    (before : List ℕ) (bit : Bool) (f : List ℕ)
    → (feed_bit (run new before) bit).1 ≡ some f
    → ReceivedWith (run new before) f
feed_bit_sound before bit f e =
    check_frame-ReceivedWith (run new before) f (run-IsValid before new new-IsValid)
      (feed_bit-check_frame (run new before) bit f e)
