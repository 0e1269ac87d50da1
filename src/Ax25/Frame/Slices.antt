-- ===== src/Ax25/Frame/Slices.antt =====
-- Reading an address where one stands.
use packet_radio_rs.Base.{
  ℕ, ◌+◌, ◌≡◌, refl, sym, ap, arith, Bool, not, List, [], ◌∷◌, ◌++◌, map, bit_and, ◌==◌, length,
  length-append, get_or, get_or-append, length-map, ◌*◌, ◌%◌, ◌^◌, take-append, drop-append,
}
use packet_radio_rs.Ax25.Address.{Address, ssid_byte, to_bytes}
use packet_radio_rs.Ax25.Address.RoundTrip.{IsAddress, from_bytes-to_bytes, ssid_byte_fields}
use packet_radio_rs.Ax25.Frame.{ok, slice, address_at}

pub length-to_bytes : (a : Address) (l : Bool) → length a.callsign ≡ 6 → length (to_bytes a l) ≡ 7
unfolding to_bytes
length-to_bytes a l h =
    let chars = map (λ ch. ch * 2 % 2 ^ 8) a.callsign in
    omega (
      arith,
      length-append chars (ssid_byte a l ∷ []),
      length-map (λ (ch : ℕ). ch * 2 % 2 ^ 8) a.callsign,
    )

seventh_byte :
    (cs : List ℕ) (s : ℕ) (rest : List ℕ)
    → length cs ≡ 6
    → get_or ((map (λ ch. ch * 2 % 2 ^ 8) cs ++ s ∷ []) ++ rest) 6 0 ≡ s
seventh_byte (a ∷ b ∷ c ∷ d ∷ e ∷ f ∷ []) s rest h = refl
seventh_byte (a ∷ b ∷ c ∷ d ∷ e ∷ f ∷ g ∷ cs) s rest h = absurd (omega arith)
seventh_byte cs s rest h = absurd (omega arith)

pub slice-append :
    (pre xs rest : List ℕ) (pos n : ℕ)
    → pos ≡ length pre
    → n ≡ length xs
    → slice (pre ++ (xs ++ rest)) pos n ≡ xs
slice-append pre xs rest pos n p q = rw (p, q, drop-append) (take-append xs rest)

pub address_at_lem :
    (a : Address) (l : Bool) (pre rest : List ℕ) (pos : ℕ)
    → IsAddress a
    → pos ≡ length pre
    → address_at (pre ++ (to_bytes a l ++ rest)) pos ≡ ok a
unfolding address_at
address_at_lem a l pre rest pos i p =
    let seven = length-to_bytes a l i.six in
    rw (slice-append pre (to_bytes a l) rest pos 7 p (sym seven), seven)
      (ap ok (from_bytes-to_bytes a l i))

seventh_of :
    (a : Address) (l : Bool) (rest : List ℕ)
    → length a.callsign ≡ 6
    → get_or (to_bytes a l ++ rest) 6 0 ≡ ssid_byte a l
unfolding to_bytes
seventh_of a l rest h = seventh_byte a.callsign (ssid_byte a l) rest h

-- The extension bit of an address that stands at `pos`.
pub extension_bit :
    (a : Address) (l : Bool) (pre rest : List ℕ) (pos : ℕ)
    → IsAddress a
    → pos ≡ length pre
    → not (bit_and (get_or (pre ++ (to_bytes a l ++ rest)) (pos + 6) 0) 0x01 == 0) ≡ l
extension_bit a l pre rest pos i p =
    let seventh : get_or (to_bytes a l ++ rest) 6 0 ≡ ssid_byte a l = seventh_of a l rest i.six in
    rw (p, get_or-append pre (to_bytes a l ++ rest) 6 0, seventh)
      (ssid_byte_fields a l i.ssid_fits).2
