-- ===== src/Ax25/Frame/Extent.antt =====
-- How far the addresses of any bytes go: what the loop over the digipeaters has read.
use mathlib.Core.List.{append_assoc}
use packet_radio_rs.Base.{
  ◌-◌, ◌≢◌, sym, ap₂, [], ◌∷◌, ◌++◌, set, set-append, replicate, dec_lt, ℕ, zero, suc, ◌+◌, ◌*◌,
  ◌≤◌, ◌<◌, ◌≡◌, refl, ap, ◌∙◌, arith, List, length, length-take, length-drop, get_or, drop, leb,
  ◌⊎◌, inl, inr, bit_and, ◌==◌, Bool-cases,
}
use packet_radio_rs.Ax25.Limits.{max_digipeaters}
use packet_radio_rs.Ax25.Address.{Address, from_bytes}
use packet_radio_rs.Ax25.Frame.{
  ok, slice, address_at, blank, Route, next_route, start_route, read_digipeaters, read_route,
}

-- The bit that ends the addresses, in the last byte of the address in front of digipeater `i`.
abbrev pub extension : List ℕ → ℕ → ℕ
extension bytes i = bit_and (get_or bytes (13 + 7 * i) 0) 0x01

-- `n` addresses from `pos` on.
abbrev pub addresses : ℕ → List ℕ → ℕ → List Address
addresses zero bytes pos = []
addresses (suc n) bytes pos = from_bytes (slice bytes pos 7) ∷ addresses n bytes (pos + 7)

-- The bytes hold `n` digipeaters: no address in front of them ends the addresses, and the last one
-- does, or it is the eighth, or no other one has room.
pub record IsRoute (bytes : List ℕ) (n : ℕ) : Type 0 where
  pub at_most : n ≤ max_digipeaters
  pub inside : 14 + 7 * n ≤ length bytes
  pub follow : (i : ℕ) → i < n → extension bytes i ≡ 0
  pub stop : (extension bytes n ≢ 0) ⊎ ((n ≡ max_digipeaters) ⊎ (length bytes < 21 + 7 * n))

pub address_at_room :
    (bytes : List ℕ) (pos : ℕ)
    → pos + 7 ≤ length bytes
    → address_at bytes pos ≡ ok (from_bytes (slice bytes pos 7))
unfolding address_at
address_at_room bytes pos h =
    let seven : length (slice bytes pos 7) ≡ 7 =
      omega (arith, length-take 7 (drop pos bytes), length-drop pos bytes) in
    rw seven refl

addresses_last :
    (n : ℕ) (bytes : List ℕ) (pos : ℕ)
    → addresses (n + 1) bytes pos
      ≡ addresses n bytes pos ++ from_bytes (slice bytes (pos + 7 * n) 7) ∷ []
addresses_last zero bytes pos =
    let here : pos ≡ pos + 7 * 0 = omega arith in
    ap (λ (k : ℕ). from_bytes (slice bytes k 7) ∷ []) here
addresses_last (suc n) bytes pos =
    let there : pos + 7 + 7 * n ≡ pos + 7 * suc n = omega arith in
    let next : suc n + 1 ≡ suc (n + 1) = omega arith in
    ap (λ (k : ℕ). addresses k bytes pos) next
    ∙ ap (◌∷◌ (from_bytes (slice bytes pos 7))) (
        addresses_last n bytes (pos + 7)
        ∙ ap (λ (k : ℕ). addresses n bytes (pos + 7) ++ from_bytes (slice bytes k 7) ∷ []) there)

length-addresses : (n : ℕ) (bytes : List ℕ) (pos : ℕ) → length (addresses n bytes pos) ≡ n
length-addresses zero bytes pos = refl
length-addresses (suc n) bytes pos = ap suc (length-addresses n bytes (pos + 7))

-- The loop's variables with `n` places left: what it has read.
record HasRead (bytes : List ℕ) (n : ℕ) (p : Route) : Type 0 where
  left : p.num_digipeaters + n ≡ max_digipeaters
  here : p.pos ≡ 14 + 7 * p.num_digipeaters
  inside : p.pos ≤ length bytes
  listed : p.digipeaters ≡ addresses p.num_digipeaters bytes 14 ++ replicate n blank
  follow : (i : ℕ) → i < p.num_digipeaters → extension bytes i ≡ 0

-- The variables behind the loop.
pub record IsRead (bytes : List ℕ) (p : Route) : Type 0 where
  pub route : IsRoute bytes p.num_digipeaters
  pub here : p.pos ≡ 14 + 7 * p.num_digipeaters
  pub listed :
      p.digipeaters
      ≡ addresses p.num_digipeaters bytes 14
        ++ replicate (max_digipeaters - p.num_digipeaters) blank

HasRead-IsRead :
    (bytes : List ℕ) (n : ℕ) (p : Route)
    → HasRead bytes n p
    → (extension bytes p.num_digipeaters ≢ 0)
      ⊎ ((p.num_digipeaters ≡ max_digipeaters) ⊎ (length bytes < 21 + 7 * p.num_digipeaters))
    → IsRead bytes p
HasRead-IsRead bytes n p r stop =
    let places : n ≡ max_digipeaters - p.num_digipeaters = omega (arith, r.left) in
    record {
      route = record {
        at_most = omega (arith, r.left);
        inside = omega (arith, r.here, r.inside);
        follow = r.follow;
        stop = stop;
      };
      here = r.here;
      listed =
          r.listed
          ∙ ap (λ (k : ℕ). addresses p.num_digipeaters bytes 14 ++ replicate k blank) places;
    }

next_route-HasRead :
    (bytes : List ℕ) (n : ℕ) (p : Route)
    → HasRead bytes (suc n) p
    → extension bytes p.num_digipeaters ≡ 0
    → p.pos + 7 ≤ length bytes
    → HasRead bytes n (next_route p (from_bytes (slice bytes p.pos 7)))
next_route-HasRead bytes n p r more h =
    let m = p.num_digipeaters in
    let read = addresses m bytes 14 in
    let a = from_bytes (slice bytes p.pos 7) in
    let size : m ≡ length read = sym (length-addresses m bytes 14) in
    record {
      left = omega (arith, r.left);
      here = omega (arith, r.here);
      inside = h;
      listed =
          ap₂ (λ ds (k : ℕ). set ds k a) r.listed size
          ∙ set-append read (replicate n blank) blank a
          ∙ sym (append_assoc read (a ∷ []) (replicate n blank))
          ∙ ap (λ ds. ds ++ replicate n blank)
              (ap (λ (k : ℕ). read ++ from_bytes (slice bytes k 7) ∷ []) r.here
                ∙ sym (addresses_last m bytes 14));
      follow = λ i below. elim (dec_lt i m) [
        | yes before ↦ r.follow i before
        | no last ↦
            let same : m ≡ i = omega (arith, below, last) in ap (extension bytes) (sym same) ∙ more
      ];
    }

read_route-IsRead :
    (n : ℕ) (bytes : List ℕ) (p : Route)
    → HasRead bytes n p
    → extension bytes p.num_digipeaters ≡ 0
    → (q : Route) × (read_route n bytes p ≡ ok q) × IsRead bytes q
unfolding read_route
read_route-IsRead zero bytes p r more =
    (p, refl, HasRead-IsRead bytes zero p r (inr (inl (omega (arith, r.left)))))
read_route-IsRead (suc n) bytes p r more = elim (Bool-cases (leb (p.pos + 7) (length bytes))) [
  | inl room ↦
      let fits : p.pos + 7 ≤ length bytes = ground (arith, room) in
      let a = from_bytes (slice bytes p.pos 7) in
      let next = next_route-HasRead bytes n p r more fits in
      let place : p.pos + 6 ≡ 13 + 7 * (p.num_digipeaters + 1) = omega (arith, r.here) in
      let bit : bit_and (get_or bytes (p.pos + 6) 0) 0x01
          ≡ extension bytes (p.num_digipeaters + 1) =
        ap (λ (k : ℕ). bit_and (get_or bytes k 0) 0x01) place in
      rw (room, address_at_room bytes p.pos fits)
        (elim (Bool-cases (bit_and (get_or bytes (p.pos + 6) 0) 0x01 == 0)) [
          | inl clear ↦
              rw clear
                (read_route-IsRead n bytes (next_route p a) next (sym bit ∙ ground (arith, clear)))
          | inr set_bit ↦
              let last : extension bytes (p.num_digipeaters + 1) ≢ 0 =
                λ e. cc (set_bit, ap (λ (k : ℕ). k == 0) (bit ∙ e)) in
              rw set_bit
                (next_route p a, refl, HasRead-IsRead bytes n (next_route p a) next (inl last))
        ])
  | inr full ↦
      let short : length bytes < 21 + 7 * p.num_digipeaters = ground (arith, full, r.here) in
      rw full (p, refl, HasRead-IsRead bytes (suc n) p r (inr (inr short)))
]

start_route-HasRead :
    (bytes : List ℕ) → 15 ≤ length bytes → HasRead bytes max_digipeaters start_route
start_route-HasRead bytes h = record {
  left = refl;
  here = refl;
  inside = omega arith;
  listed = refl;
  follow = λ i below. absurd (omega (arith, below));
}

pub read_digipeaters-IsRead :
    (bytes : List ℕ)
    → 15 ≤ length bytes
    → (q : Route) × (read_digipeaters bytes ≡ ok q) × IsRead bytes q
unfolding read_digipeaters
read_digipeaters-IsRead bytes h =
    let start = start_route-HasRead bytes h in
    elim (Bool-cases (bit_and (get_or bytes 13 0) 0x01 == 0)) [
      | inl clear ↦
          rw clear
            (read_route-IsRead max_digipeaters bytes start_route start (ground (arith, clear)))
      | inr set_bit ↦
          let last : extension bytes 0 ≢ 0 = λ e. cc (set_bit, e) in
          rw set_bit
            (start_route, refl, HasRead-IsRead bytes max_digipeaters start_route start (inl last))
    ]
