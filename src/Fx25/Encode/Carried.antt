-- ===== src/Fx25/Encode/Carried.antt =====
-- Whatever the encoder gives carries the frame, and small frames are always encoded.
use packet_radio_rs.Base.{
  guard_passed, case_passed, some_inj, ℕ, zero, suc, ◌+◌, ◌-◌, ◌*◌, ◌/◌, ◌%◌, ◌^◌, ◌<◌, ◌≤◌, ◌≡◌,
  refl, sym, ap, subst, ◌∙◌, arith, false, ◌||◌, Option, none, some, List, [], ◌∷◌, ◌++◌, length,
  length-append, length-take, take, take-append, take-append-drop, drop, replicate, get_elem?, All,
  ltb, ◌==◌, if◌then◌else◌,
}
use packet_radio_rs.Ax25.Crc.{crc16_ccitt}
use packet_radio_rs.Ax25.Hdlc.Stuffing.{
  bits_of, stuff, flag_bits, with_crc, length-stuff, length-bits_of,
}
use packet_radio_rs.Fx25.Tags.{Fx25Tag, fx25_tags, select_tag}
use packet_radio_rs.Fx25.Tags.Select.{Fits, Choice, select_tag-Choice}
use packet_radio_rs.Fx25.Encode.{
  hdlc_buf_size, Packed, Fx25Block, hdlc_stuff_to_bytes, byte_len, hdlc_wrap, encode_with,
  encode_rs_block, is_empty, fx25_encode, fx25_encode_with_tag,
}
use packet_radio_rs.Fx25.Encode.Pack.{wrapped, hdlc_stuff_to_bytes-Packs}
use packet_radio_rs.Fx25.Encode.Padding.{take-bits_of}
use packet_radio_rs.Fx25.Encode.Outcome.{tag-IsCode, Carries, encode_with_lem}

-- The packed bytes that are used.
abbrev packed : List ℕ → Packed
packed frame = hdlc_stuff_to_bytes (with_crc frame) (replicate hdlc_buf_size 0)

abbrev used : List ℕ → List ℕ
used frame = take (byte_len (packed frame)) (packed frame).out

abbrev content_of : List ℕ → List ℕ
content_of frame = wrapped (with_crc frame)

take-All : (n : ℕ) (xs : List ℕ) → All (λ b. b < 256) xs → All (λ b. b < 256) (take n xs)
take-All zero xs h = tt
take-All (suc n) [] h = tt
take-All (suc n) (x ∷ xs) (h, hs) = (h, take-All n xs hs)

-- Once the used bytes fit a code, nothing was cut off.
record IsUsed (frame : List ℕ) : Type 0 where
  pos : (packed frame).bit_pos ≡ length (content_of frame)
  short : length (content_of frame) ≤ 8 * length (used frame)
  starts : take (length (content_of frame)) (bits_of (used frame)) ≡ content_of frame
  bytes : All (λ b. b < 256) (used frame)

used_lem : (frame : List ℕ) → length (used frame) ≤ 255 → IsUsed frame
used_lem frame h =
    let content = content_of frame in
    let p = packed frame in
    let k = hdlc_stuff_to_bytes-Packs (with_crc frame) in
    let size = length-take (byte_len p) p.out in
    let small : length content ≤ 2040 = omega (arith, k.pos, k.size, size, h) in
    let short : length content ≤ 8 * length (used frame) =
      omega (arith, k.pos, k.size, size, small) in
    record {
      pos = omega (arith, k.pos, small);
      short = short;
      starts =
          sym (take-bits_of (used frame) (drop (byte_len p) p.out) (length content) short)
          ∙ ap (λ xs. take (length content) (bits_of xs)) (take-append-drop (byte_len p) p.out)
          ∙ ap (take (length content)) (k.content (omega (arith, small)))
          ∙ take-append content (replicate (2400 - length content) 0);
      bytes = take-All (byte_len p) p.out k.bytes;
    }

-- A tag that the used bytes fit gives a block.
encode_tag :
    (frame : List ℕ) (i : ℕ) (t : Fx25Tag)
    → get_elem? fx25_tags i ≡ some t
    → 0 < t.check_bytes
    → length (used frame) ≤ t.rs_k
    → (block : Fx25Block) × (encode_with (used frame) (packed frame).bit_pos i t ≡ some block)
      × Carries (content_of frame) block
encode_tag frame i t found has_check room =
    let code = tag-IsCode i t found in
    let u = used_lem frame (omega (arith, room, code.sum, code.fits)) in
    let (block, e, c) =
      encode_with_lem (used frame) (content_of frame) i t found has_check room u.bytes u.short
        u.starts in
    (block, ap (λ (n : ℕ). encode_with (used frame) n i t) u.pos ∙ e, c)

encode_with_guards :
    (hdlc : List ℕ) (n i : ℕ) (t : Fx25Tag) (block : Fx25Block)
    → encode_with hdlc n i t ≡ some block
    → (0 < t.check_bytes) × (length hdlc ≤ t.rs_k)
unfolding encode_with
encode_with_guards hdlc n i t block h =
    let (passed, rest) = guard_passed (ltb t.rs_k (length hdlc) || t.check_bytes == 0) _ block h in
    (ground (arith, passed), ground (arith, passed))

encode_rs_block-Carries :
    (frame : List ℕ) (i : ℕ) (block : Fx25Block)
    → encode_rs_block (used frame) (packed frame).bit_pos i ≡ some block
    → Carries (content_of frame) block
unfolding encode_rs_block
encode_rs_block-Carries frame i block h =
    let (t, found, e) =
      case_passed (get_elem? fx25_tags i) (encode_with (used frame) (packed frame).bit_pos i) block
        h in
    let (has_check, room) = encode_with_guards (used frame) (packed frame).bit_pos i t block e in
    let (block', e', c) = encode_tag frame i t found has_check room in
    subst (Carries (content_of frame)) (some_inj block' block (sym e' ∙ e)) c

-- A block that `fx25_encode` or `fx25_encode_with_tag` gives carries the frame.
pub fx25_encode-Carries :
    (frame : List ℕ) (min_check : ℕ) (block : Fx25Block)
    → fx25_encode frame min_check ≡ some block
    → Carries (content_of frame) block
unfolding fx25_encode hdlc_wrap
fx25_encode-Carries frame min_check block h =
    let (_, h1) = guard_passed (min_check == 0 || is_empty frame) _ block h in
    let (p, e, h2) =
      case_passed (if ltb 255 (length frame + 2) then none else some (packed frame)) _ block h1 in
    let (_, e') = guard_passed (ltb 255 (length frame + 2)) (some (packed frame)) p e in
    let same : packed frame ≡ p = some_inj (packed frame) p e' in
    let (i, _, h3) =
      case_passed (select_tag (byte_len p) min_check)
        (encode_rs_block (take (byte_len p) p.out) p.bit_pos) block h2 in
    encode_rs_block-Carries frame i block (
      subst (λ (q : Packed). encode_rs_block (take (byte_len q) q.out) q.bit_pos i ≡ some block)
        (sym same) h3)

-- The encoder takes at most 253 bytes.
pub fx25_encode_bound :
    (frame : List ℕ) (min_check : ℕ) (block : Fx25Block)
    → fx25_encode frame min_check ≡ some block
    → length frame ≤ 253
unfolding fx25_encode hdlc_wrap
fx25_encode_bound frame min_check block h =
    let (_, h1) = guard_passed (min_check == 0 || is_empty frame) _ block h in
    let (p, e, _) =
      case_passed (if ltb 255 (length frame + 2) then none else some (packed frame)) _ block h1 in
    let (short, _) = guard_passed (ltb 255 (length frame + 2)) (some (packed frame)) p e in
    ground (arith, short)

pub fx25_encode_with_tag-Carries :
    (frame : List ℕ) (i : ℕ) (block : Fx25Block)
    → fx25_encode_with_tag frame i ≡ some block
    → Carries (content_of frame) block
unfolding fx25_encode_with_tag hdlc_wrap
fx25_encode_with_tag-Carries frame i block h =
    let (_, h1) = guard_passed (is_empty frame) _ block h in
    let (p, e, h2) =
      case_passed (if ltb 255 (length frame + 2) then none else some (packed frame)) _ block h1 in
    let (_, e') = guard_passed (ltb 255 (length frame + 2)) (some (packed frame)) p e in
    let same : packed frame ≡ p = some_inj (packed frame) p e' in
    encode_rs_block-Carries frame i block (
      subst (λ (q : Packed). encode_rs_block (take (byte_len q) q.out) q.bit_pos i ≡ some block)
        (sym same) h2)

pub fx25_encode_with_tag_bound :
    (frame : List ℕ) (i : ℕ) (block : Fx25Block)
    → fx25_encode_with_tag frame i ≡ some block
    → length frame ≤ 253
unfolding fx25_encode_with_tag hdlc_wrap
fx25_encode_with_tag_bound frame i block h =
    let (_, h1) = guard_passed (is_empty frame) _ block h in
    let (p, e, _) =
      case_passed (if ltb 255 (length frame + 2) then none else some (packed frame)) _ block h1 in
    let (short, _) = guard_passed (ltb 255 (length frame + 2)) (some (packed frame)) p e in
    ground (arith, short)

length-wrapped : (bytes : List ℕ) → 5 * length (wrapped bytes) ≤ 48 * length bytes + 80
length-wrapped bytes =
    let bits = bits_of bytes in
    omega (
      arith,
      length-stuff bits 0,
      length-bits_of bytes,
      length-append flag_bits (stuff 0 bits ++ flag_bits),
      length-append (stuff 0 bits) flag_bits,
    )

-- The longest code with 16 check bytes holds 239 bytes.
some_tag :
    (n min_check : ℕ)
    → n ≤ 239
    → min_check ≤ 16
    → (i : ℕ) × (t : Fx25Tag) × (select_tag n min_check ≡ some i)
      × (get_elem? fx25_tags i ≡ some t)
      × (Fits n min_check t)
some_tag n min_check h l = chosen (select_tag n min_check) refl (select_tag-Choice n min_check)
  where
    chosen :
        (o : Option ℕ)
        → select_tag n min_check ≡ o
        → Choice n min_check fx25_tags o
        → (i : ℕ) × (t : Fx25Tag) × (select_tag n min_check ≡ some i)
          × (get_elem? fx25_tags i ≡ some t)
          × (Fits n min_check t)
    chosen none e c =
        absurd (c.1.0 (record { enough = l; some_check = omega arith; holds_data = h }))
    chosen (some i) e (t, found, fits, _) = (i, t, e, found, fits)

-- The guards and choices that lead to a block.
encoded :
    (b : ℕ) (bs : List ℕ) (min_check i : ℕ) (t : Fx25Tag) (block : Fx25Block)
    → 0 < min_check
    → length (b ∷ bs) ≤ 195
    → select_tag (byte_len (packed (b ∷ bs))) min_check ≡ some i
    → get_elem? fx25_tags i ≡ some t
    → encode_with (used (b ∷ bs)) (packed (b ∷ bs)).bit_pos i t ≡ some block
    → fx25_encode (b ∷ bs) min_check ≡ some block
unfolding fx25_encode hdlc_wrap encode_rs_block
encoded b bs min_check i t block p q chosen found e =
    let asked : (min_check == 0 || false) ≡ false = ground arith in
    let fits : ltb 255 (length (b ∷ bs) + 2) ≡ false = ground (arith, q) in
    rw (asked, fits, chosen, found) e

-- Every frame of 1 to 195 bytes is encoded when at most 16 check bytes are asked for.
pub fx25_encode_total :
    (frame : List ℕ) (min_check : ℕ)
    → 0 < length frame
    → length frame ≤ 195
    → 0 < min_check
    → min_check ≤ 16
    → (block : Fx25Block) × (fx25_encode frame min_check ≡ some block)
fx25_encode_total [] min_check p q r s = absurd (omega arith)
fx25_encode_total (b ∷ bs) min_check p q r s =
    let frame = b ∷ bs in
    let crc = crc16_ccitt frame in
    let trailer : List ℕ = (crc % 2 ^ 8) ∷ ((crc / 2 ^ 8) % 2 ^ 8) ∷ [] in
    let k = hdlc_stuff_to_bytes-Packs (with_crc frame) in
    let n = byte_len (packed frame) in
    let size : length (with_crc frame) ≡ length frame + 2 = length-append frame trailer in
    let small : n ≤ 239 = omega (arith, k.pos, length-wrapped (with_crc frame), size, q) in
    let (i, t, chosen, found, f) = some_tag n min_check small s in
    let (block, e, _) =
      encode_tag frame i t found f.some_check
        (omega (arith, length-take n (packed frame).out, f.holds_data)) in
    (block, encoded b bs min_check i t block r q chosen found e)
