-- ===== src/Fx25/Encode/Outcome.antt =====
-- What a block that the encoder gives carries.
use mathlib.Core.List.{append_assoc}
use packet_radio_rs.Base.{
  ℕ, zero, suc, ◌+◌, ◌-◌, ◌*◌, ◌<◌, ◌≤◌, ◌≡◌, refl, sym, ap, subst, ◌∙◌, arith, false, ◌||◌, Option,
  none, some, List, [], ◌∷◌, ◌++◌, length, length-take, length-replicate, take, take-append,
  take-append-drop, drop, replicate, get_elem?, All, ltb, ◌==◌,
}
use packet_radio_rs.Ax25.Hdlc.Stuffing.{bits_of}
use packet_radio_rs.Fx25.Tags.{Fx25Tag, fx25_tags}
use packet_radio_rs.Fx25.Rs.{ok, rs_decode}
use packet_radio_rs.Fx25.Rs.RoundTrip.{rs_decode-rs_encode}
use packet_radio_rs.Fx25.Encode.{
  Fx25Block, bits_from, bytes_bits, block_of, message_block, encode_with, iter_bits,
}
use packet_radio_rs.Fx25.Encode.Padding.{take-bits_of, message_block-IsMessage}

-- The sizes of a code.
pub record IsCode (t : Fx25Tag) : Type 0 where
  pub sum : t.rs_n ≡ t.rs_k + t.check_bytes
  pub fits : t.rs_n ≤ 255
  pub check : t.check_bytes ≤ 64

codes_fit :
    All (λ t. (t.rs_n ≡ t.rs_k + t.check_bytes) × (t.rs_n ≤ 255) × (t.check_bytes ≤ 64)) fx25_tags
codes_fit = omega arith

pub at_index :
    (P : Fx25Tag → Type 0) (ts : List Fx25Tag) (i : ℕ) (t : Fx25Tag)
    → All P ts
    → get_elem? ts i ≡ some t
    → P t
at_index P [] i t h e = absurd (cc)
at_index P (u ∷ ts) zero t (p, h) e = subst P (some_inj u t e) p
  where
    some_inj : (a b : Fx25Tag) → some a ≡ some b → a ≡ b
    some_inj a b e = ap (λ (o : Option Fx25Tag). elim o [ none ↦ a | some x ↦ x ]) e
at_index P (u ∷ ts) (suc i) t (p, h) e = at_index P ts i t h e

pub tag-IsCode : (i : ℕ) (t : Fx25Tag) → get_elem? fx25_tags i ≡ some t → IsCode t
tag-IsCode i t e =
    let (sum, fits, check) =
      at_index (λ t. (t.rs_n ≡ t.rs_k + t.check_bytes) × (t.rs_n ≤ 255) × (t.check_bytes ≤ 64))
        fx25_tags i t codes_fit e in
    record { sum = sum; fits = fits; check = check }

-- A block with the bits `content` at the start of its data.
pub record Carries (content : List ℕ) (block : Fx25Block) : Type 0 where
  pub index : ℕ
  pub tag : Fx25Tag
  pub found : get_elem? fx25_tags index ≡ some tag
  pub has_check : 0 < tag.check_bytes
  pub payload : List ℕ
  pub parity : List ℕ
  pub rest : List ℕ
  pub payload_size : length payload ≡ tag.rs_k
  pub parity_size : length parity ≡ tag.check_bytes
  pub payload_bytes : All (λ b. b < 256) payload
  pub parity_bytes : All (λ b. b < 256) parity
  pub starts : bits_of payload ≡ content ++ rest
  pub codeword :
      let word = payload ++ (replicate (255 - tag.check_bytes - tag.rs_k) 0 ++ parity) in
      rs_decode word 255 tag.check_bytes ≡ ok (0, word)
  pub sent : iter_bits block ≡ bits_from 64 0 tag.tag ++ (bytes_bits payload ++ bytes_bits parity)

take_all : {A : Type 0} (xs : List A) → take (length xs) xs ≡ xs
take_all [] = refl
take_all (x ∷ xs) = ap (◌∷◌ x) (take_all xs)

take_zeros : (n m : ℕ) → n ≤ m → take n (replicate {A = ℕ} m 0) ≡ replicate n 0
take_zeros zero m h = refl
take_zeros (suc n) zero h = absurd (omega arith)
take_zeros (suc n) (suc m) h = ap (◌∷◌ 0) (take_zeros n m (omega arith))

take_behind :
    {A : Type 0} (xs ys : List A) (n : ℕ)
    → length xs ≤ n
    → take n (xs ++ ys) ≡ xs ++ take (n - length xs) ys
take_behind [] ys n h = ap (λ (k : ℕ). take k ys) (omega arith)
take_behind (x ∷ xs) ys zero h = absurd (omega arith)
take_behind (x ∷ xs) ys (suc n) h =
    ap (◌∷◌ x) (take_behind xs ys n (omega arith) ∙ ap (λ (k : ℕ). xs ++ take k ys) (omega arith))

take-All : (n : ℕ) (xs : List ℕ) → All (λ b. b < 256) xs → All (λ b. b < 256) (take n xs)
take-All zero xs h = tt
take-All (suc n) [] h = tt
take-All (suc n) (x ∷ xs) (h, hs) = (h, take-All n xs hs)

-- The message in front of its check bytes.
message_front :
    (message : List ℕ) (k nsym : ℕ)
    → length message ≡ 255
    → k + nsym ≤ 255
    → drop k message ≡ replicate (255 - k) 0
    → take (255 - nsym) message ≡ take k message ++ replicate (255 - nsym - k) 0
message_front message k nsym size fits behind =
    let short : length (take k message) ≡ k = omega (arith, length-take k message, size, fits) in
    ap (take (255 - nsym)) (sym (take-append-drop k message) ∙ ap (λ t. take k message ++ t) behind)
    ∙ take_behind (take k message) (replicate (255 - k) 0) (255 - nsym) (omega (arith, short, fits))
    ∙ ap (λ (t : ℕ). take k message ++ take (255 - nsym - t) (replicate (255 - k) 0)) short
    ∙ ap (λ t. take k message ++ t) (take_zeros (255 - nsym - k) (255 - k) (omega (arith, fits)))

iter_bits-block_of : (bits : List ℕ) (i : ℕ) → iter_bits (block_of bits i) ≡ bits
unfolding iter_bits block_of
iter_bits-block_of bits i = take-append bits (replicate (2104 - length bits) 0)

-- Whatever fits the tag is encoded.
pub encode_with_lem :
    (hdlc content : List ℕ) (i : ℕ) (t : Fx25Tag)
    → get_elem? fx25_tags i ≡ some t
    → 0 < t.check_bytes
    → length hdlc ≤ t.rs_k
    → All (λ b. b < 256) hdlc
    → length content ≤ 8 * length hdlc
    → take (length content) (bits_of hdlc) ≡ content
    → (block : Fx25Block) × (encode_with hdlc (length content) i t ≡ some block)
      × Carries content block
unfolding encode_with
encode_with_lem hdlc content i t found has_check room bytes short starts =
    let count = length content in
    let message = message_block hdlc count t.rs_k in
    let code = tag-IsCode i t found in
    let m =
      message_block-IsMessage hdlc count t.rs_k bytes room (omega (arith, code.sum, code.fits))
        short in
    let full = take (255 - t.check_bytes) message in
    let (parity, written, p) =
      rs_decode-rs_encode full t.check_bytes (replicate 64 0)
        (take-All (255 - t.check_bytes) message m.bytes) has_check code.check
        (omega (arith, length-take (255 - t.check_bytes) message, m.size, code.check))
        (omega (arith, length-replicate {A = ℕ} 64 0, code.check)) in
    let guards : (ltb t.rs_k (length hdlc) || t.check_bytes == 0) ≡ false = ground arith in
    let payload = take t.rs_k message in
    let split =
      message_front message t.rs_k t.check_bytes m.size (omega (arith, code.sum, code.fits))
        m.behind in
    let payload_size : length payload ≡ t.rs_k =
      omega (arith, length-take t.rs_k message, m.size, code.sum, code.fits) in
    let parity_kept : take t.check_bytes (parity ++ drop t.check_bytes (replicate 64 0)) ≡ parity =
      ap (λ (n : ℕ). take n (parity ++ drop t.check_bytes (replicate 64 0))) (sym p.size)
      ∙ take-append parity (drop t.check_bytes (replicate 64 0)) in
    let bits = bits_from 64 0 t.tag ++ (bytes_bits payload ++ bytes_bits parity) in
    let front : take count (bits_of payload) ≡ content =
      sym (
        take-bits_of payload (drop t.rs_k message) count (omega (arith, payload_size, room, short)))
      ∙ ap (λ xs. take count (bits_of xs)) (take-append-drop t.rs_k message)
      ∙ m.front
      ∙ starts in
    let long : length full + t.check_bytes ≡ 255 =
      omega (arith, length-take (255 - t.check_bytes) message, m.size, code.check) in
    (
      block_of bits i,
      rw (guards, written, parity_kept) refl,
      record {
        index = i;
        tag = t;
        found = found;
        has_check = has_check;
        payload = payload;
        parity = parity;
        rest = drop count (bits_of payload);
        payload_size = payload_size;
        parity_size = p.size;
        payload_bytes = take-All t.rs_k message m.bytes;
        parity_bytes = p.bytes;
        starts =
            sym (take-append-drop count (bits_of payload))
            ∙ ap (λ xs. xs ++ drop count (bits_of payload)) front;
        codeword =
            subst
              (λ (n : ℕ).
                rs_decode (payload ++ (replicate (255 - t.check_bytes - t.rs_k) 0 ++ parity)) n
                  t.check_bytes
                ≡ ok (0, payload ++ (replicate (255 - t.check_bytes - t.rs_k) 0 ++ parity)))
              long
              (subst (λ xs. rs_decode xs (length full + t.check_bytes) t.check_bytes ≡ ok (0, xs))
                (ap (λ xs. xs ++ parity) split
                  ∙ append_assoc payload (replicate (255 - t.check_bytes - t.rs_k) 0) parity)
                p.decodes);
        sent = iter_bits-block_of bits i;
      },
    )
