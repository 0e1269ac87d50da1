-- ===== src/Fx25/Decode/Tagged.antt =====
-- A new decoder that hears a tag collects the block behind it.
use packet_radio_rs.Base.{
  ℕ, ◌<◌, ◌≡◌, refl, ap, ◌∙◌, arith, not, Option, none, some, List, [], ◌∷◌, ◌++◌, get_elem?,
  replicate, All, ◌==◌,
}
use packet_radio_rs.Fx25.Tags.{Fx25Tag, fx25_tags, match_tag, match_from, count_ones}
use packet_radio_rs.Fx25.Encode.{bits_from}
use packet_radio_rs.Fx25.Encode.Outcome.{at_index}
use packet_radio_rs.Fx25.Decode.{
  max_block, accumulating, Fx25Decoder, new, tag_at, start_block, detect, hunt, feed_in, feed_bit,
  with_report, feed_bits,
}

pub feed_bits-append :
    (xs ys : List ℕ) (d : Fx25Decoder)
    → let r = feed_bits d xs in
      let s = feed_bits r.1 ys in feed_bits d (xs ++ ys) ≡ (r.0 ++ s.0, s.1)
unfolding feed_bits
feed_bits-append [] ys d = refl
feed_bits-append (x ∷ xs) ys d =
    let step = feed_bit d (not (x == 0)) in
    let rest = feed_bits step.1 xs in
    ap (λ (r : List (List ℕ) × Fx25Decoder). (with_report step.0 r.0, r.1))
      (feed_bits-append xs ys step.1)
    ∙ ap (λ (o : List (List ℕ)). (o, (feed_bits rest.1 ys).1))
        (regroup step.0 rest.0 (feed_bits rest.1 ys).0)
  where
    regroup :
        (o : Option (List ℕ)) (xs ys : List (List ℕ))
        → with_report o (xs ++ ys) ≡ with_report o xs ++ ys
    regroup none xs ys = refl
    regroup (some frame) xs ys = refl

-- Collecting: some bytes stand in the buffer, and none of the next.
abbrev pub collecting : Fx25Decoder → List ℕ → ℕ → Fx25Decoder
collecting d buf count = record d {
  state = accumulating;
  block_buf = buf;
  byte_count = count;
  current_byte = 0;
  bit_count = 0;
  output_len = 0;
}

-- A new decoder after a tag.
abbrev pub tagged : ℕ → Fx25Tag → Fx25Decoder
tagged i t = record {
  shift_reg = t.tag;
  bits_shifted = 64;
  state = accumulating;
  block_buf = replicate max_block 0;
  current_byte = 0;
  bit_count = 0;
  byte_count = 0;
  target_bytes = t.rs_n;
  tag_index = i;
  output_buf = replicate max_block 0;
  output_len = 0;
  max_hamming = 5;
  last_block_bits = 0;
  stats = record { tags_detected = 1; rs_clean = 0; rs_corrected = 0; rs_failed = 0 };
}

abbrev Detects : Fx25Tag → Type 0
Detects t =
    0 < t.check_bytes
    → (i : ℕ) × (tag_at i ≡ t)
      × (feed_bits new (bits_from 64 0 t.tag)
          ≡ ([], collecting (tagged i t) (replicate max_block 0) 0))

tags_detect : All Detects fx25_tags
unfolding feed_bits feed_bit feed_in hunt detect start_block new match_tag match_from count_ones
    bits_from
tags_detect = (
  (λ h. absurd (omega arith)),
  (
    (λ h. (1, refl, refl)),
    (
      (λ h. (2, refl, refl)),
      (
        (λ h. (3, refl, refl)),
        (
          (λ h. (4, refl, refl)),
          (
            (λ h. (5, refl, refl)),
            (
              (λ h. (6, refl, refl)),
              (
                (λ h. (7, refl, refl)),
                (
                  (λ h. (8, refl, refl)),
                  (
                    (λ h. (9, refl, refl)),
                    (
                      (λ h. (10, refl, refl)),
                      (
                        (λ h. (11, refl, refl)),
                        (
                          (λ h. absurd (omega arith)),
                          (
                            (λ h. absurd (omega arith)),
                            ((λ h. absurd (omega arith)), ((λ h. absurd (omega arith)), tt)),
                          ),
                        ),
                      ),
                    ),
                  ),
                ),
              ),
            ),
          ),
        ),
      ),
    ),
  ),
)

-- A new decoder that hears the tag of a code with check bytes begins to collect its block.
pub feed_bits-tag :
    (i : ℕ) (t : Fx25Tag)
    → get_elem? fx25_tags i ≡ some t
    → 0 < t.check_bytes
    → (j : ℕ) × (tag_at j ≡ t)
      × (feed_bits new (bits_from 64 0 t.tag)
          ≡ ([], collecting (tagged j t) (replicate max_block 0) 0))
feed_bits-tag i t found h = at_index Detects fx25_tags i t tags_detect found h
