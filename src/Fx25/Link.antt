-- ===== src/Fx25/Link.antt =====
-- The encoder and the decoder of core/src/fx25 together.
mod Tests
use mathlib.Core.List.{append-nil, append_assoc}
use packet_radio_rs.Base.{
  ℕ, zero, suc, ◌+◌, ◌-◌, ◌*◌, ◌≤◌, ◌<◌, ◌≡◌, refl, sym, ap, ap₂, subst, ◌∙◌, arith, min, true,
  false, Option, none, some, List, [], ◌∷◌, ◌++◌, length, length-append, length-take, length-drop,
  length-replicate, take, take-append, drop, replicate, get_elem?, All, All-append, ltb, ◌==◌,
  if◌then◌else◌,
}
use packet_radio_rs.Ax25.Hdlc
use packet_radio_rs.Ax25.Hdlc.Stuffing.{bits_of, with_crc}
use packet_radio_rs.Ax25.Hdlc.RoundTrip.{CanReceive, frames-flagged}
use packet_radio_rs.Fx25.Tags.{Fx25Tag, fx25_tags}
use packet_radio_rs.Fx25.Rs.{ok, rs_decode}
use packet_radio_rs.Fx25.Encode.{
  Fx25Block, bits_from, bytes_bits, fx25_encode, fx25_encode_with_tag, iter_bits,
}
use packet_radio_rs.Fx25.Encode.Bits.{bytes_bits-bits_of}
use packet_radio_rs.Fx25.Encode.Pack.{wrapped}
use packet_radio_rs.Fx25.Encode.Outcome.{IsCode, tag-IsCode, Carries}
use packet_radio_rs.Fx25.Encode.Carried.{
  fx25_encode-Carries, fx25_encode_bound, fx25_encode_with_tag-Carries, fx25_encode_with_tag_bound,
  fx25_encode_total,
}
use packet_radio_rs.Fx25.Decode.{
  max_block, Fx25Decoder, new, tag_at, full_block, first_frame, store_frame, count_result, extract,
  decode_block, finish_block, with_report, feed_bits,
}
use packet_radio_rs.Fx25.Decode.Tagged.{feed_bits-append, collecting, tagged, feed_bits-tag}
use packet_radio_rs.Fx25.Decode.Extract.{first_frame-frames, full_block_lem}
use packet_radio_rs.Fx25.Decode.Collect.{feed_bytes, feed_last}

bytes_bits-append : (xs ys : List ℕ) → bytes_bits (xs ++ ys) ≡ bytes_bits xs ++ bytes_bits ys
unfolding bytes_bits
bytes_bits-append [] ys = refl
bytes_bits-append (x ∷ xs) ys =
    ap (λ t. bits_from 8 0 x ++ t) (bytes_bits-append xs ys)
    ∙ sym (append_assoc (bits_from 8 0 x) (bytes_bits xs) (bytes_bits ys))

bytes_bits_one : (x : ℕ) → bytes_bits (x ∷ []) ≡ bits_from 8 0 x
unfolding bytes_bits
bytes_bits_one x = append-nil (bits_from 8 0 x)

-- The last element of a list.
split_last :
    (xs : List ℕ)
    → 0 < length xs
    → All (λ b. b < 256) xs
    → (front : List ℕ) × (last : ℕ) × (xs ≡ front ++ last ∷ [])
      × (All (λ b. b < 256) front)
      × (last < 256)
split_last [] h b = absurd (omega arith)
split_last (x ∷ []) h (b, bs) = ([], x, refl, tt, b)
split_last (x ∷ y ∷ ys) h (b, bs) =
    let (front, last, e, fs, l) = split_last (y ∷ ys) (omega arith) bs in
    (x ∷ front, last, ap (◌∷◌ x) e, (b, fs), l)

-- The data of the block begin with the frame between two flags.
frame_found :
    (frame payload rest : List ℕ)
    → CanReceive frame
    → bits_of payload ≡ wrapped (with_crc frame) ++ rest
    → first_frame Hdlc.new (bytes_bits payload) ≡ some frame
frame_found frame payload rest c starts =
    ap (first_frame Hdlc.new) (bytes_bits-bits_of payload ∙ starts)
    ∙ first_frame-frames (wrapped (with_crc frame)) rest Hdlc.new frame c.1 (frames-flagged frame c)

-- A complete block gives its frame.
decode_block_lem :
    (d : Fx25Decoder) (frame word payload : List ℕ)
    → full_block (tag_at d.tag_index) d.block_buf ≡ word
    → rs_decode word 255 (tag_at d.tag_index).check_bytes ≡ ok (0, word)
    → take (tag_at d.tag_index).rs_k word ≡ payload
    → first_frame Hdlc.new (bytes_bits payload) ≡ some frame
    → decode_block d ≡ store_frame (count_result d 0) (some frame)
unfolding decode_block extract
decode_block_lem d frame word payload layout codeword kept found =
    let t = tag_at d.tag_index in
    ap (extract d t.rs_k) (ap (λ xs. rs_decode xs 255 t.check_bytes) layout ∙ codeword)
    ∙ ap (λ xs. store_frame (count_result d 0) (first_frame Hdlc.new (bytes_bits xs))) kept
    ∙ ap (store_frame (count_result d 0)) found

finish_block_lem :
    (d : Fx25Decoder) (frame : List ℕ)
    → decode_block (record d { last_block_bits = 64 + d.target_bytes * 8 })
      ≡ store_frame
          (count_result (record d { last_block_bits = 64 + d.target_bytes * 8 }) 0)
          (some frame)
    → 0 < length frame
    → length frame ≤ 255
    → (finish_block d).0 ≡ some frame
unfolding finish_block store_frame count_result
finish_block_lem d frame e some_byte short =
    let len : min (length frame) max_block ≡ length frame = omega (arith, short) in
    let full : take (length frame) frame ≡ frame =
      ap (take (length frame)) (sym (append-nil frame)) ∙ take-append frame [] in
    let nonempty : ltb 0 (length frame) ≡ true = ground (arith, some_byte) in
    rw (e, len, nonempty, full) (ap some (take-append frame (drop (length frame) d.output_buf)))

-- The end of a block that carries a frame.
block_end :
    (d : Fx25Decoder) (frame buf payload parity rest : List ℕ) (count : ℕ) (t : Fx25Tag)
    → tag_at d.tag_index ≡ t
    → IsCode t
    → length payload ≡ t.rs_k
    → length parity ≡ t.check_bytes
    → (let word = payload ++ (replicate (255 - t.check_bytes - t.rs_k) 0 ++ parity) in
        rs_decode word 255 t.check_bytes ≡ ok (0, word))
    → first_frame Hdlc.new (bytes_bits payload) ≡ some frame
    → 0 < length frame
    → length frame ≤ 255
    → buf ≡ (payload ++ parity) ++ rest
    → (finish_block (collecting d buf count)).0 ≡ some frame
block_end d frame buf payload parity rest count t at code p q codeword found some_byte short e =
    let zeros : List ℕ = replicate (255 - t.check_bytes - t.rs_k) 0 in
    let word = payload ++ (zeros ++ parity) in
    let full = collecting d buf count in
    let done = record full { last_block_bits = 64 + full.target_bytes * 8 } in
    finish_block_lem full frame
      (decode_block_lem done frame word payload
        (ap₂ full_block at e ∙ full_block_lem t payload parity rest p q code.sum)
        (ap (λ (u : Fx25Tag). rs_decode word 255 u.check_bytes) at ∙ codeword)
        (ap (λ (u : Fx25Tag). take u.rs_k word) at
          ∙ ap (λ (k : ℕ). take k word) (sym p)
          ∙ take-append payload (zeros ++ parity))
        found)
      some_byte short

-- A block's bytes, of which the last ends it.
hear_word :
    (d : Fx25Decoder) (word buf : List ℕ) (out : List ℕ)
    → All (λ b. b < 256) word
    → 0 < length word
    → length word ≡ d.target_bytes
    → d.target_bytes ≤ 255
    → length buf ≡ 255
    → ((rest : List ℕ) (count : ℕ)
        → (finish_block (collecting d (word ++ rest) count)).0 ≡ some out)
    → (feed_bits (collecting d buf 0) (bytes_bits word)).0 ≡ out ∷ []
hear_word d word buf out bytes nonempty size fits room done =
    let (front, last, split, fs, l) = split_last word nonempty bytes in
    let longer : length word ≡ length front + 1 =
      ap length split ∙ length-append front (last ∷ []) in
    let (r, rest, left) =
      head_of (drop (length front) buf)
        (omega (arith, length-drop (length front) buf, room, longer, size, fits)) in
    let start = collecting d buf 0 in
    let middle = collecting d (front ++ r ∷ rest) (length front) in
    let collected : feed_bits start (bytes_bits front) ≡ ([], middle) =
      feed_bytes front [] buf d fs (omega (arith, longer, size)) fits
        (omega (arith, longer, size, room, fits))
      ∙ ap (λ xs. ([], collecting d (front ++ xs) (length front))) left in
    let ended = feed_last d front rest r last l (omega (arith, longer, size)) fits in
    let whole : finish_block (collecting d ((front ++ last ∷ []) ++ rest) (length front + 1))
        ≡ finish_block (collecting d (word ++ rest) (length front + 1)) =
      ap (λ xs. finish_block (collecting d (xs ++ rest) (length front + 1))) (sym split) in
    let bits : bytes_bits word ≡ bytes_bits front ++ bits_from 8 0 last =
      ap bytes_bits split
      ∙ bytes_bits-append front (last ∷ [])
      ∙ ap (λ t. bytes_bits front ++ t) (bytes_bits_one last) in
    ap (λ xs. (feed_bits start xs).0) bits
    ∙ ap (λ (s : List (List ℕ) × Fx25Decoder). s.0)
        (feed_bits-append (bytes_bits front) (bits_from 8 0 last) start)
    ∙ ap (λ (s : List (List ℕ) × Fx25Decoder). s.0 ++ (feed_bits s.1 (bits_from 8 0 last)).0)
        collected
    ∙ ap (λ (s : List (List ℕ) × Fx25Decoder). s.0) ended
    ∙ ap (λ (o : Option (List ℕ)). with_report o [])
        (ap (λ (s : Option (List ℕ) × Fx25Decoder). s.0) whole ∙ done rest (length front + 1))
  where
    head_of : (xs : List ℕ) → 0 < length xs → (x : ℕ) × (ys : List ℕ) × (xs ≡ x ∷ ys)
    head_of [] h = absurd (omega arith)
    head_of (x ∷ xs) h = (x, xs, refl)

-- A new decoder that hears a block which carries a frame reports it.
hear_block :
    (frame : List ℕ) (block : Fx25Block)
    → All (λ b. b < 256) frame
    → 15 ≤ length frame
    → length frame ≤ 253
    → Carries (wrapped (with_crc frame)) block
    → (feed_bits new (iter_bits block)).0 ≡ frame ∷ []
hear_block frame block bytes long short c =
    let code = tag-IsCode c.index c.tag c.found in
    let (j, at, detected) = feed_bits-tag c.index c.tag c.found c.has_check in
    let d = tagged j c.tag in
    let word = c.payload ++ c.parity in
    let size : length word ≡ c.tag.rs_n =
      omega (arith, length-append c.payload c.parity, c.payload_size, c.parity_size, code.sum) in
    let found = frame_found frame c.payload c.rest (bytes, long, omega (arith, short)) c.starts in
    let heard =
      hear_word d word (replicate max_block 0) frame
        (All-append (λ b. b < 256) c.payload c.parity c.payload_bytes c.parity_bytes)
        (omega (arith, size, code.sum, c.has_check)) size code.fits
        (length-replicate {A = ℕ} max_block 0)
        (λ rest count.
          block_end d frame (word ++ rest) c.payload c.parity rest count c.tag at code
            c.payload_size c.parity_size c.codeword found (omega (arith, long))
            (omega (arith, short)) refl) in
    let tag_bits = bits_from 64 0 c.tag.tag in
    let bits : iter_bits block ≡ tag_bits ++ bytes_bits word =
      c.sent ∙ ap (λ t. tag_bits ++ t) (sym (bytes_bits-append c.payload c.parity)) in
    ap (λ xs. (feed_bits new xs).0) bits
    ∙ ap (λ (s : List (List ℕ) × Fx25Decoder). s.0)
        (feed_bits-append tag_bits (bytes_bits word) new)
    ∙ ap (λ (s : List (List ℕ) × Fx25Decoder). s.0 ++ (feed_bits s.1 (bytes_bits word)).0) detected
    ∙ heard

-- Whenever `fx25_encode` gives a block for a frame of at least 15 bytes, a new decoder that hears
-- the bits of the block reports exactly one frame, the one that was encoded.
pub feed_bits-fx25_encode :
    (frame : List ℕ) (min_check : ℕ) (block : Fx25Block)
    → All (λ b. b < 256) frame
    → 15 ≤ length frame
    → fx25_encode frame min_check ≡ some block
    → (feed_bits new (iter_bits block)).0 ≡ frame ∷ []
feed_bits-fx25_encode frame min_check block bytes long e =
    hear_block frame block bytes long (fx25_encode_bound frame min_check block e)
      (fx25_encode-Carries frame min_check block e)

-- Whenever `fx25_encode_with_tag` gives a block for a frame of at least 15 bytes, a new decoder that
-- hears the bits of the block reports exactly one frame, the one that was encoded.
pub feed_bits-fx25_encode_with_tag :
    (frame : List ℕ) (i : ℕ) (block : Fx25Block)
    → All (λ b. b < 256) frame
    → 15 ≤ length frame
    → fx25_encode_with_tag frame i ≡ some block
    → (feed_bits new (iter_bits block)).0 ≡ frame ∷ []
feed_bits-fx25_encode_with_tag frame i block bytes long e =
    hear_block frame block bytes long (fx25_encode_with_tag_bound frame i block e)
      (fx25_encode_with_tag-Carries frame i block e)

-- Every frame of 15 to 195 bytes, with 1 to 16 check bytes asked for, is encoded, and a new
-- decoder that hears the bits of the block reports exactly that frame.
pub fx25_encode_heard :
    (frame : List ℕ) (min_check : ℕ)
    → All (λ b. b < 256) frame
    → 15 ≤ length frame
    → length frame ≤ 195
    → 0 < min_check
    → min_check ≤ 16
    → (block : Fx25Block) × (fx25_encode frame min_check ≡ some block)
      × ((feed_bits new (iter_bits block)).0 ≡ frame ∷ [])
fx25_encode_heard frame min_check bytes long short p q =
    let (block, e) = fx25_encode_total frame min_check (omega (arith, long)) short p q in
    (block, e, feed_bits-fx25_encode frame min_check block bytes long e)
