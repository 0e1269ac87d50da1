-- ===== src/Modem/SoftHdlc/Recovery.antt =====
-- `try_syndrome_correction`, `try_bit_flip_recovery_info` and `reassemble_and_check_crc` of
-- core/src/modem/soft_hdlc.rs.
use packet_radio_rs.Base.{
  ℕ, zero, suc, ◌+◌, ◌-◌, ◌*◌, ◌/◌, ◌%◌, ◌^◌, min, Bool, true, false, ◌&&◌, Option, none, some,
  List, [], ◌∷◌, ◌++◌, map, bit_and, bit_or, bit_xor, ltb, leb, ◌==◌, if◌then◌else◌, length, get_or,
  set, take, drop, replicate, ℤ, pos, unsigned_abs,
}
use packet_radio_rs.Ax25.Crc.{crc16_ccitt}
use packet_radio_rs.Modem.SoftHdlc.Defs.{
  SoftHdlcDecoder, Stats, count_up, max_frame_bits, max_flip_candidates, flip_confidence_threshold,
  triple_flip_limit, max_frame_bytes, crc_residue, crc_poly_reflected,
}
use packet_radio_rs.Modem.SoftHdlc.Validity.{is_valid_ax25_frame}

-- `false_positives += 1`
unfoldable pub false_positive : SoftHdlcDecoder → SoftHdlcDecoder
false_positive d = record d {
  stats = record d.stats { false_positives = count_up d.stats.false_positives };
}

-- One step of the CRC with no data.
unfoldable pub zero_step : ℕ → ℕ
zero_step e = if bit_and e 1 == 0 then e / 2 else bit_xor (e / 2) crc_poly_reflected

-- The search for the syndrome, with `n` rounds left: the round that finds it.
unfoldable pub find_error : ℕ → ℕ → ℕ → ℕ → Option ℕ
find_error zero k e syndrome = none
find_error (suc n) k e syndrome =
    let rest = find_error n (k + 1) (zero_step e) syndrome in if e == syndrome then some k else rest

-- `frame_buf[bit_index / 8] ^= 1 << (bit_index % 8)`
unfoldable pub flip_in : List ℕ → ℕ → List ℕ
flip_in buf bit_index =
    set buf (bit_index / 8) (bit_xor (get_or buf (bit_index / 8) 0) (2 ^ (bit_index % 8)))

-- The flip of one bit, its check and its validation.
unfoldable pub correct_bit : SoftHdlcDecoder → ℕ → Option (ℕ × ℕ × ℕ) × SoftHdlcDecoder
correct_bit d bit_index =
    let flipped = flip_in d.frame_buf bit_index in
    let frame = take d.frame_len flipped in
    if crc16_ccitt frame == crc_residue
    then (if is_valid_ax25_frame frame
        then (
          some (d.frame_len - 2, 1, 1),
          record d {
            frame_buf = flipped;
            stats = record d.stats { syndrome = count_up d.stats.syndrome };
          },
        )
        else (none, false_positive (record d { frame_buf = flip_in flipped bit_index })))
    else (none, record d { frame_buf = flip_in flipped bit_index })

unfoldable pub try_syndrome_correction : SoftHdlcDecoder → Option (ℕ × ℕ × ℕ) × SoftHdlcDecoder
try_syndrome_correction d =
    let residue = crc16_ccitt (take d.frame_len d.frame_buf) in
    let syndrome = bit_xor residue crc_residue in
    let total_bits = d.frame_len * 8 in
    if ltb d.frame_len 17
    then (none, d)
    else if syndrome == 0
    then (none, d)
    else elim (find_error total_bits 0 crc_poly_reflected syndrome) [
      | none ↦ (none, d)
      | some k ↦ correct_bit d (total_bits - 1 - k)
    ]

-- The variables of the loop of `reassemble_and_check_crc`; the frame is the list of its bytes.
pub record Assembly : Type 0 where
  pub frame : List ℕ
  pub current_byte : ℕ
  pub byte_bits : ℕ
  pub ones : ℕ

-- `// Accumulate data bit (LSB first)`
unfoldable pub assemble_bit : Assembly → ℕ → Assembly
assemble_bit a bit =
    let byte = if bit == 0 then a.current_byte else bit_or a.current_byte (2 ^ a.byte_bits) in
    if a.byte_bits + 1 == 8
    then record a {
      frame = if ltb (length a.frame) max_frame_bytes then a.frame ++ byte ∷ [] else a.frame;
      current_byte = 0;
      byte_bits = 0;
    }
    else record a { current_byte = byte; byte_bits = a.byte_bits + 1 }

-- The loop over the bits: the frame's bytes where it ends.
unfoldable pub assemble : Assembly → List ℕ → List ℕ
assemble a [] = a.frame
assemble a (bit ∷ bits) =
    let next =
      assemble (assemble_bit (record a { ones = if bit == 0 then 0 else (a.ones + 1) % 2 ^ 8 }) bit)
        bits in
    let skip = assemble (record a { ones = 0 }) bits in
    if bit == 0
    then (if a.ones == 5 then skip else if leb 6 a.ones then a.frame else next)
    else next

abbrev pub empty_assembly : Assembly
empty_assembly = record { frame = []; current_byte = 0; byte_bits = 0; ones = 0 }

-- The bytes that the buffered bits make.
unfoldable pub reassembled : List ℕ → ℕ → List ℕ
reassembled hard_bits bit_count = assemble empty_assembly (take bit_count hard_bits)

unfoldable pub reassemble_and_check_crc : SoftHdlcDecoder → Bool × SoftHdlcDecoder
reassemble_and_check_crc d =
    let frame = reassembled d.hard_bits d.bit_count in
    if ltb (length frame) 17
    then (false, d)
    else if crc16_ccitt frame == crc_residue
    then (if is_valid_ax25_frame frame
        then (
          true,
          record d {
            frame_buf = frame ++ drop (length frame) d.frame_buf;
            frame_len = length frame;
          },
        )
        else (false, false_positive d))
    else (false, d)

-- `hard_bits[i] ^= 1`, for each index.
unfoldable pub flip : ℕ → List ℕ → List ℕ
flip i bits = set bits i (bit_xor (get_or bits i 0) 1)

unfoldable pub flip_all : List ℕ → List ℕ → List ℕ
flip_all [] bits = bits
flip_all (i ∷ flips) bits = flip_all flips (flip i bits)

-- The bits that are flipped together, and their cost.
pub record Trial : Type 0 where
  pub flips : List ℕ
  pub cost : ℕ

-- Flip, reassemble, flip back.
unfoldable pub attempt : Trial → SoftHdlcDecoder → Bool × SoftHdlcDecoder
attempt t d =
    let (found, after) =
      reassemble_and_check_crc (record d { hard_bits = flip_all t.flips d.hard_bits }) in
    (found, record after { hard_bits = flip_all t.flips after.hard_bits })

-- `best.is_none_or(|c| cost < c)`
unfoldable pub cheaper : Trial → Option Trial → Bool
cheaper t none = true
cheaper t (some best) = ltb t.cost best.cost

-- The trials of one phase in their order: the cheapest that gives a frame, the first among equals.
unfoldable pub search_best :
    List Trial → Option Trial → SoftHdlcDecoder → Option Trial × SoftHdlcDecoder
search_best [] best d = (best, d)
search_best (t ∷ trials) best d =
    let (found, after) = attempt t d in
    search_best trials (if found && cheaper t best then some t else best) after

-- A bit index with its confidence.
pub record Candidate : Type 0 where
  pub idx : ℕ
  pub confidence : ℕ

abbrev pub no_candidate : Candidate
no_candidate = record { idx = 0; confidence = flip_confidence_threshold }

-- The insertion sort from place `j` down.
unfoldable pub bubble : ℕ → List Candidate → List Candidate
bubble zero cs = cs
bubble (suc j) cs =
    let low = get_or cs j no_candidate in
    let high = get_or cs (suc j) no_candidate in
    bubble j (if ltb high.confidence low.confidence then set (set cs (suc j) low) j high else cs)

-- The loop over the soft bits with `n` rounds left.
unfoldable pub candidates_from : ℕ → ℕ → List ℤ → List Candidate → List Candidate
candidates_from zero i soft_bits cs = cs
candidates_from (suc n) i soft_bits cs =
    let confidence = unsigned_abs (get_or soft_bits i (pos 0)) in
    let last = get_or cs (max_flip_candidates - 1) no_candidate in
    candidates_from n (i + 1) soft_bits (
      if ltb confidence last.confidence
      then bubble (max_flip_candidates - 1)
          (set cs (max_flip_candidates - 1) (record { idx = i; confidence = confidence }))
      else cs)

-- The candidates before the first one at the threshold, where each loop breaks.
unfoldable pub usable : List Candidate → List Candidate
usable [] = []
usable (c ∷ cs) =
    let rest = usable cs in if leb flip_confidence_threshold c.confidence then [] else c ∷ rest

-- The trials of phases 2 and 3.
unfoldable pub singles : List Candidate → List Trial
singles cs = map (λ c. record { flips = c.idx ∷ []; cost = c.confidence }) cs

unfoldable pub pairs : List Candidate → List Trial
pairs [] = []
pairs (c ∷ cs) =
    map (λ e. record { flips = c.idx ∷ e.idx ∷ []; cost = c.confidence + e.confidence }) cs
    ++ pairs cs

-- Phase 4. A cost is taken from the soft bits.
abbrev cost_at : List ℤ → ℕ → ℕ
cost_at soft_bits i = unsigned_abs (get_or soft_bits i (pos 0))

unfoldable pub nrzi_pairs : ℕ → List ℤ → List Candidate → List Trial
nrzi_pairs count soft_bits [] = []
nrzi_pairs count soft_bits (c ∷ cs) =
    let after : Trial = record {
      flips = c.idx ∷ (c.idx + 1) ∷ [];
      cost = cost_at soft_bits c.idx + cost_at soft_bits (c.idx + 1);
    } in
    let before : Trial = record {
      flips = (c.idx - 1) ∷ c.idx ∷ [];
      cost = cost_at soft_bits (c.idx - 1) + cost_at soft_bits c.idx;
    } in
    (if ltb (c.idx + 1) count then after ∷ [] else [])
    ++ ((if ltb 0 c.idx then before ∷ [] else []) ++ nrzi_pairs count soft_bits cs)

-- Phase 5.
unfoldable pub triples : List Candidate → List Trial
triples [] = []
triples (c ∷ cs) =
    map (λ t. record { flips = c.idx ∷ t.flips; cost = c.confidence + t.cost }) (pairs cs)
    ++ triples cs

-- Phase 6.
unfoldable pub nrzi_triples : ℕ → List ℤ → List Candidate → List Trial
nrzi_triples count soft_bits [] = []
nrzi_triples count soft_bits (c ∷ cs) =
    let around : Trial = record {
      flips = (c.idx - 1) ∷ c.idx ∷ (c.idx + 1) ∷ [];
      cost =
          cost_at soft_bits (c.idx - 1) + cost_at soft_bits c.idx + cost_at soft_bits (c.idx + 1);
    } in
    (if ltb 0 c.idx && ltb (c.idx + 1) count then around ∷ [] else [])
    ++ nrzi_triples count soft_bits cs

-- One phase: the search, and the best trial once more for its frame.
unfoldable pub phase :
    List Trial → (Stats → Stats) → SoftHdlcDecoder → Option (ℕ × ℕ × ℕ) × SoftHdlcDecoder
phase trials counted d =
    let (best, after) = search_best trials none d in
    elim best [
      | none ↦ (none, after)
      | some t ↦
          let again = (attempt t after).1 in
          (
            some (again.frame_len - 2, length t.flips, t.cost),
            record again { stats = counted again.stats },
          )
    ]

-- A phase after others that found nothing.
abbrev pub or_else :
    Option (ℕ × ℕ × ℕ) × SoftHdlcDecoder
    → (SoftHdlcDecoder → Option (ℕ × ℕ × ℕ) × SoftHdlcDecoder)
    → Option (ℕ × ℕ × ℕ) × SoftHdlcDecoder
or_else (some r, d) next = (some r, d)
or_else (none, d) next = next d

-- `stats_crc_failures += 1; None`
unfoldable pub give_up : SoftHdlcDecoder → Option (ℕ × ℕ × ℕ) × SoftHdlcDecoder
give_up d =
    (none, record d { stats = record d.stats { crc_failures = count_up d.stats.crc_failures } })

-- Phases 2 to 6.
unfoldable pub flip_phases : SoftHdlcDecoder → Option (ℕ × ℕ × ℕ) × SoftHdlcDecoder
flip_phases d =
    let count = min d.bit_count max_frame_bits in
    let sorted = candidates_from count 0 d.soft_bits (replicate max_flip_candidates no_candidate) in
    let cs = usable (take (min max_flip_candidates count) sorted) in
    let few = usable (take (min (min max_flip_candidates count) triple_flip_limit) sorted) in
    let after_single =
      phase (singles cs) (λ s. record s { single_flip = count_up s.single_flip }) d in
    let after_pair =
      or_else after_single
        (phase (pairs cs) (λ s. record s { pair_flip = count_up s.pair_flip })) in
    let after_nrzi = or_else after_pair (
      phase (nrzi_pairs count d.soft_bits cs)
        (λ s. record s { nrzi_pair = count_up s.nrzi_pair })) in
    let after_triple =
      or_else after_nrzi
        (phase (triples few) (λ s. record s { triple_flip = count_up s.triple_flip })) in
    let after_all = or_else after_triple (
      phase (nrzi_triples count d.soft_bits cs)
        (λ s. record s { nrzi_triple = count_up s.nrzi_triple })) in
    or_else after_all give_up

unfoldable pub try_bit_flip_recovery_info : SoftHdlcDecoder → Option (ℕ × ℕ × ℕ) × SoftHdlcDecoder
try_bit_flip_recovery_info d =
    or_else (try_syndrome_correction d) (λ after.
      if min after.bit_count max_frame_bits == 0 then give_up after else flip_phases after)
