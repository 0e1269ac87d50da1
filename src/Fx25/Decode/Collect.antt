-- ===== src/Fx25/Decode/Collect.antt =====
-- The bytes of a block are collected.
use mathlib.Core.List.{append-nil, append_assoc}
use native.Mathlib.Nat.{mod-lt, one-le-pow}
use packet_radio_rs.Base.{
  ℕ, zero, suc, ◌+◌, ◌*◌, ◌/◌, ◌%◌, ◌^◌, ◌≤◌, ◌<◌, ◌≡◌, refl, sym, ap, ap₂, ◌∙◌, arith, Bool-cases,
  inl, inr, true, false, not, Option, none, List, [], ◌∷◌, ◌++◌, length, length-append, set,
  set-append, drop, All, bit_or, bit_and_mask, bit_or_comm, bit_or_fields, ltb, leb, ◌==◌,
  if◌then◌else◌,
}
use packet_radio_rs.Fx25.Encode.{bit_at, bits_from, bytes_bits}
use packet_radio_rs.Fx25.Decode.{
  max_block, accumulating, Fx25Decoder, store_byte, finish_block, accumulate, feed_in, feed_bit,
  with_report, feed_bits,
}
use packet_radio_rs.Fx25.Decode.Tagged.{feed_bits-append, collecting}

-- Inside a byte.
abbrev within : Fx25Decoder → ℕ → ℕ → Fx25Decoder
within d cur i = record d {
  state = accumulating;
  current_byte = cur;
  bit_count = i;
  output_len = 0;
}

-- The low bits of a number with one more bit.
two_parts : (byte i : ℕ) → i < 8 → byte % 2 ^ (i + 1) ≡ byte % 2 ^ i + byte / 2 ^ i % 2 * 2 ^ i
two_parts byte zero h = omega arith
two_parts byte (suc zero) h = omega arith
two_parts byte (suc (suc zero)) h = omega arith
two_parts byte (suc (suc (suc zero))) h = omega arith
two_parts byte (suc (suc (suc (suc zero)))) h = omega arith
two_parts byte (suc (suc (suc (suc (suc zero))))) h = omega arith
two_parts byte (suc (suc (suc (suc (suc (suc zero)))))) h = omega arith
two_parts byte (suc (suc (suc (suc (suc (suc (suc zero))))))) h = omega arith
two_parts byte (suc (suc (suc (suc (suc (suc (suc (suc i)))))))) h = absurd (omega arith)

-- A byte with one more bit.
next_byte :
    (byte i : ℕ)
    → i < 8
    → (if not (bit_at byte i == 0) then bit_or (byte % 2 ^ i) (2 ^ i) else byte % 2 ^ i)
      ≡ byte % 2 ^ (i + 1)
next_byte byte i h =
    let low = byte % 2 ^ i in
    let bit : bit_at byte i ≡ byte / 2 ^ i % 2 = bit_and_mask 1 (byte / 2 ^ i) in
    let once : 1 * 2 ^ i ≡ 2 ^ i = omega arith in
    let sum : bit_or low (2 ^ i) ≡ low + 2 ^ i =
      bit_or_comm low (2 ^ i)
      ∙ ap (λ (t : ℕ). bit_or t low) (sym once)
      ∙ bit_or_fields i 1 low (mod-lt byte (one-le-pow i 2 (omega arith)))
      ∙ omega arith in
    elim (Bool-cases (bit_at byte i == 0)) [
      | inl z ↦
          let none : byte / 2 ^ i % 2 ≡ 0 = ground (arith, z, bit) in
          rw z (sym (two_parts byte i h ∙ ap (λ (t : ℕ). low + t * 2 ^ i) none ∙ omega arith))
      | inr o ↦
          let one : byte / 2 ^ i % 2 ≡ 1 = ground (arith, o, bit) in
          rw o (sum ∙ sym (two_parts byte i h ∙ ap (λ (t : ℕ). low + t * 2 ^ i) one ∙ omega arith))
    ]

-- One bit inside a byte.
bit_step :
    (d : Fx25Decoder) (byte i : ℕ)
    → i < 7
    → feed_bit (within d (byte % 2 ^ i) i) (not (bit_at byte i == 0))
      ≡ (none, within d (byte % 2 ^ (i + 1)) (i + 1))
unfolding feed_bit feed_in accumulate
bit_step d byte i h =
    let more : (i + 1 == 8) ≡ false = ground arith in rw (next_byte byte i (omega arith), more) refl

last_step :
    (d : Fx25Decoder) (byte : ℕ)
    → byte < 256
    → feed_bit (within d (byte % 2 ^ 7) 7) (not (bit_at byte 7 == 0)) ≡ store_byte (within d byte 8)
unfolding feed_bit feed_in accumulate
last_step d byte h =
    let whole : byte % 2 ^ 8 ≡ byte = omega arith in
    rw (next_byte byte 7 (omega arith) ∙ whole) refl

-- The bits of a byte from bit `i` on.
byte_from :
    (n i byte : ℕ) (d : Fx25Decoder)
    → n + i ≡ 7
    → byte < 256
    → feed_bits (within d (byte % 2 ^ i) i) (bits_from (suc n) i byte)
      ≡ (with_report (store_byte (within d byte 8)).0 [], (store_byte (within d byte 8)).1)
unfolding feed_bits bits_from
byte_from zero i byte d h s =
    let last : i ≡ 7 = omega (arith, h) in
    ap (λ (r : Option (List ℕ) × Fx25Decoder). (with_report r.0 [], r.1))
      (ap (λ (k : ℕ). feed_bit (within d (byte % 2 ^ k) k) (not (bit_at byte k == 0))) last
        ∙ last_step d byte s)
byte_from (suc n) i byte d h s =
    let out =
      λ (r : Option (List ℕ) × Fx25Decoder). feed_bits r.1 (bits_from (suc n) (i + 1) byte) in
    ap (λ (r : Option (List ℕ) × Fx25Decoder). (with_report r.0 (out r).0, (out r).1))
      (bit_step d byte i (omega (arith, h)))
    ∙ byte_from n (i + 1) byte d (omega (arith, h)) s

feed_byte :
    (d : Fx25Decoder) (buf : List ℕ) (count byte : ℕ)
    → byte < 256
    → let stored = store_byte (within (collecting d buf count) byte 8) in
      feed_bits (collecting d buf count) (bits_from 8 0 byte) ≡ (with_report stored.0 [], stored.1)
feed_byte d buf count byte h =
    let nothing : byte % 2 ^ 0 ≡ 0 = omega arith in
    ap (λ (c : ℕ). feed_bits (within (collecting d buf count) c 0) (bits_from 8 0 byte))
      (sym nothing)
    ∙ byte_from 7 0 byte (collecting d buf count) refl h

-- A byte that is not the last of its block.
store_inside :
    (d : Fx25Decoder) (pre rest : List ℕ) (r byte : ℕ)
    → length pre + 1 < d.target_bytes
    → d.target_bytes ≤ 255
    → store_byte (within (collecting d (pre ++ r ∷ rest) (length pre)) byte 8)
      ≡ (none, collecting d ((pre ++ byte ∷ []) ++ rest) (length (pre ++ byte ∷ [])))
unfolding store_byte
store_inside d pre rest r byte h l =
    let room : ltb (length pre) max_block ≡ true = ground (arith, h, l) in
    let more : leb d.target_bytes (length pre + 1) ≡ false = ground (arith, h) in
    let written : set (pre ++ r ∷ rest) (length pre) byte ≡ (pre ++ byte ∷ []) ++ rest =
      set-append pre rest r byte ∙ sym (append_assoc pre (byte ∷ []) rest) in
    let count : length pre + 1 ≡ length (pre ++ byte ∷ []) = sym (length-append pre (byte ∷ [])) in
    rw (room, more) (ap₂ (λ xs (k : ℕ). (none, collecting d xs k)) written count)

-- All but the last byte of a block are collected in silence.
pub feed_bytes :
    (bytes pre rest : List ℕ) (d : Fx25Decoder)
    → All (λ b. b < 256) bytes
    → length pre + length bytes < d.target_bytes
    → d.target_bytes ≤ 255
    → length bytes ≤ length rest
    → feed_bits (collecting d (pre ++ rest) (length pre)) (bytes_bits bytes)
      ≡ ([], collecting d ((pre ++ bytes) ++ drop (length bytes) rest) (length (pre ++ bytes)))
unfolding bytes_bits
feed_bytes [] pre rest d b h l m =
    unfold feed_bits in
    ap (λ xs. ([], collecting d (xs ++ rest) (length xs))) (sym (append-nil pre))
feed_bytes (x ∷ bytes) pre [] d b h l m = absurd (omega arith)
feed_bytes (x ∷ bytes) pre (r ∷ rest) d (b, bs) h l m =
    let start = collecting d (pre ++ r ∷ rest) (length pre) in
    let stored = store_inside d pre rest r x (omega (arith, h)) l in
    let one : feed_bits start (bits_from 8 0 x)
        ≡ ([], collecting d ((pre ++ x ∷ []) ++ rest) (length (pre ++ x ∷ []))) =
      feed_byte d (pre ++ r ∷ rest) (length pre) x b
      ∙ ap (λ (s : Option (List ℕ) × Fx25Decoder). (with_report s.0 [], s.1)) stored in
    let after =
      feed_bytes bytes (pre ++ x ∷ []) rest d bs (omega (arith, h, length-append pre (x ∷ []))) l
        (omega (arith, m)) in
    feed_bits-append (bits_from 8 0 x) (bytes_bits bytes) start
    ∙ ap
        (λ (s : List (List ℕ) × Fx25Decoder).
          (s.0 ++ (feed_bits s.1 (bytes_bits bytes)).0, (feed_bits s.1 (bytes_bits bytes)).1))
        one
    ∙ after
    ∙ ap (λ xs. ([], collecting d (xs ++ drop (length bytes) rest) (length xs)))
        (append_assoc pre (x ∷ []) bytes)

-- The last byte ends the block.
pub feed_last :
    (d : Fx25Decoder) (pre rest : List ℕ) (r byte : ℕ)
    → byte < 256
    → length pre + 1 ≡ d.target_bytes
    → d.target_bytes ≤ 255
    → let done = finish_block (collecting d ((pre ++ byte ∷ []) ++ rest) (length pre + 1)) in
      feed_bits (collecting d (pre ++ r ∷ rest) (length pre)) (bits_from 8 0 byte)
      ≡ (with_report done.0 [], done.1)
unfolding store_byte
feed_last d pre rest r byte s h l =
    let room : ltb (length pre) max_block ≡ true = ground (arith, h, l) in
    let full : leb d.target_bytes (length pre + 1) ≡ true = ground (arith, h) in
    let written : set (pre ++ r ∷ rest) (length pre) byte ≡ (pre ++ byte ∷ []) ++ rest =
      set-append pre rest r byte ∙ sym (append_assoc pre (byte ∷ []) rest) in
    let stored : store_byte (within (collecting d (pre ++ r ∷ rest) (length pre)) byte 8)
        ≡ finish_block (collecting d ((pre ++ byte ∷ []) ++ rest) (length pre + 1)) =
      rw (room, full) (ap (λ xs. finish_block (collecting d xs (length pre + 1))) written) in
    feed_byte d (pre ++ r ∷ rest) (length pre) byte s
    ∙ ap (λ (s : Option (List ℕ) × Fx25Decoder). (with_report s.0 [], s.1)) stored
