-- ===== src/Aprs/Nmea/Fields.antt =====
-- `split_fields` of core/src/aprs/nmea.rs.
use packet_radio_rs.Base.{
  ℕ, ◌+◌, ◌-◌, List, [], ◌∷◌, ltb, ◌==◌, if◌then◌else◌, get_or, set, take, drop, replicate,
}

-- `fields[i]`
abbrev pub field : List (List ℕ) → ℕ → List ℕ
field fields i = get_or fields i []

-- The loop over the body from index `i` on: the buffer, the count and the start.
unfoldable pub split_from : List ℕ → ℕ → List ℕ → List (List ℕ) → ℕ → ℕ → List (List ℕ) × ℕ
split_from [] i body buf count start =
    if ltb count 16 then (set buf count (drop start body), count + 1) else (buf, count)
split_from (b ∷ rest) i body buf count start =
    let comma =
      split_from rest (i + 1) body (set buf count (take (i - start) (drop start body))) (count + 1)
        (i + 1) in
    let full = split_from rest (i + 1) body buf count (i + 1) in
    let other = split_from rest (i + 1) body buf count start in
    if b == b',' then (if ltb count 16 then comma else full) else other

unfoldable pub split_fields : List ℕ → List (List ℕ) × ℕ
split_fields body = split_from body 0 body (replicate 16 []) 0 0
