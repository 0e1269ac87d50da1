-- ===== src/Ax25/Address/RoundTrip.antt =====
-- Addresses survive `to_bytes` and `from_bytes`.
use packet_radio_rs.Base.{
  ℕ, ◌+◌, ◌*◌, ◌/◌, ◌%◌, ◌^◌, ◌<◌, ◌≡◌, refl, sym, ap, ap₂, ◌∙◌, arith, Bool, not, List, [], ◌∷◌,
  ◌++◌, map, bit_and, bit_and_mask, bit_or_fields, bit_or-zero, bit_or_0x80, ◌==◌, if◌then◌else◌,
  All, length, get_or, replicate, bit_and_0x80,
}
use packet_radio_rs.Ax25.Address.{Address, read_callsign, from_bytes, ssid_byte, to_bytes}

-- The length of a callsign without its trailing spaces.
abbrev pub trimmed : List ℕ → ℕ
trimmed [] = 0
trimmed (c ∷ cs) =
    let rest = trimmed cs in if rest == 0 then (if c == b' ' then 0 else 1) else rest + 1

-- Six ASCII characters, a length that leaves out the padding, and an SSID of four bits.
pub record IsAddress (a : Address) : Type 0 where
  pub six : length a.callsign ≡ 6
  pub ascii : All (λ c. c < 128) a.callsign
  pub trimmed_len : a.callsign_len ≡ trimmed a.callsign
  pub ssid_fits : a.ssid < 16

pub ssid_byte_lem :
    (a : Address) (is_last : Bool)
    → a.ssid < 16
    → ssid_byte a is_last ≡ a.ssid * 2 + (if a.h_bit then 128 else 0) + (if is_last then 1 else 0)
unfolding ssid_byte
ssid_byte_lem a is_last h = ground (
  arith,
  bit_or_0x80 (a.ssid * 2) (omega arith),
  bit_or-zero (a.ssid * 2),
  bit_or_fields 1 a.ssid 1 (omega arith),
  bit_or_fields 1 (a.ssid + 64) 1 (omega arith),
)

-- The SSID, the H bit and the extension bit that the seventh byte holds.
pub ssid_byte_fields :
    (a : Address) (is_last : Bool)
    → a.ssid < 16
    → let s = ssid_byte a is_last in
      (bit_and (s / 2) 0x0F ≡ a.ssid)
      × (not (bit_and s 0x80 == 0) ≡ a.h_bit)
      × (not (bit_and s 0x01 == 0) ≡ is_last)
ssid_byte_fields a is_last h =
    let s = ssid_byte a is_last in
    let sum = ssid_byte_lem a is_last h in
    (
      ground (arith, sum, bit_and_mask 4 (s / 2)),
      ground (arith, sum, bit_and_0x80 s),
      ground (arith, sum, bit_and_mask 1 s),
    )

shifted : (c : ℕ) → c < 128 → c * 2 % 256 / 2 ≡ c
shifted c h = omega arith

trimmed_six :
    (a b c d e f : ℕ)
    → (if f == b' '
        then (if e == b' '
            then (if d == b' '
                then (if c == b' '
                    then (if b == b' ' then (if a == b' ' then 0 else 1) else 2)
                    else 3)
                else 4)
            else 5)
        else 6)
      ≡ trimmed (a ∷ b ∷ c ∷ d ∷ e ∷ f ∷ [])
trimmed_six a b c d e f = ground arith

read_six :
    (a b c d e f s : ℕ)
    → All (λ c. c < 128) (a ∷ b ∷ c ∷ d ∷ e ∷ f ∷ [])
    → let cs = a ∷ b ∷ c ∷ d ∷ e ∷ f ∷ [] in
      read_callsign 6 0 (map (λ ch. ch * 2 % 2 ^ 8) cs ++ s ∷ []) (replicate 6 b' ') 0
      ≡ (cs, trimmed cs)
unfolding read_callsign
read_six a b c d e f s (ha, (hb, (hc, (hd, (he, (hf, _)))))) =
    rw
      (
        shifted a ha,
        shifted b hb,
        shifted c hc,
        shifted d hd,
        shifted e he,
        shifted f hf,
        ← trimmed_six a b c d e f,
      )
      refl

read_callsign_lem :
    (cs : List ℕ) (s : ℕ)
    → length cs ≡ 6
    → All (λ c. c < 128) cs
    → let bytes = map (λ ch. ch * 2 % 2 ^ 8) cs ++ s ∷ [] in
      (read_callsign 6 0 bytes (replicate 6 b' ') 0 ≡ (cs, trimmed cs)) × (get_or bytes 6 0 ≡ s)
read_callsign_lem (a ∷ b ∷ c ∷ d ∷ e ∷ f ∷ []) s h p = (read_six a b c d e f s p, refl)
read_callsign_lem (a ∷ b ∷ c ∷ d ∷ e ∷ f ∷ g ∷ cs) s h p = absurd (omega arith)
read_callsign_lem cs s h p = absurd (omega arith)

abbrev address_of : List ℕ × ℕ → ℕ → Address
address_of read s = record {
  callsign = read.0;
  callsign_len = read.1;
  ssid = bit_and (s / 2) 0x0F;
  h_bit = not (bit_and s 0x80 == 0);
}

-- Decoding the seven bytes of an address gives the address back, whether or not it is the last.
pub from_bytes-to_bytes :
    (a : Address) (is_last : Bool) → IsAddress a → from_bytes (to_bytes a is_last) ≡ a
unfolding from_bytes to_bytes
from_bytes-to_bytes a is_last i =
    let s = ssid_byte a is_last in
    let fields = ssid_byte_fields a is_last i.ssid_fits in
    let read = read_callsign_lem a.callsign s i.six i.ascii in
    ap₂ address_of (read.0 ∙ ap (λ (n : ℕ). (a.callsign, n)) (sym i.trimmed_len)) read.1 ∙ λ j.
    record {
      callsign = a.callsign;
      callsign_len = a.callsign_len;
      ssid = fields.0 j;
      h_bit = fields.1 j;
    }
