-- ===== src/Ax25/Frame/Outcome.antt =====
-- What `try_parse` returns, for any bytes.
use packet_radio_rs.Base.{
  ◌-◌, ◌++◌, replicate, ℕ, ◌+◌, ◌*◌, ◌≤◌, ◌<◌, ◌≡◌, refl, ap, arith, List, length, length-drop,
  get_or, drop, ltb, ◌⊎◌, inl, inr, Bool-cases,
}
use packet_radio_rs.Ax25.Limits.{max_digipeaters, max_info_len}
use packet_radio_rs.Ax25.Address.{Address, from_bytes}
use packet_radio_rs.Ax25.Frame.{
  too_short, info_too_long, Frame, Result, ok, err, slice, blank, Route, finish, try_parse,
}
use packet_radio_rs.Ax25.Frame.Extent.{
  addresses, IsRoute, IsRead, address_at_room, read_digipeaters-IsRead,
}

-- A frame that stands in the bytes, its digipeaters in front of blank addresses.
pub record IsParsed (bytes : List ℕ) (f : Frame) : Type 0 where
  pub route : IsRoute bytes f.num_digipeaters
  pub dest_here : f.dest ≡ from_bytes (slice bytes 0 7)
  pub src_here : f.src ≡ from_bytes (slice bytes 7 7)
  pub digipeaters_here :
      f.digipeaters
      ≡ addresses f.num_digipeaters bytes 14
        ++ replicate (max_digipeaters - f.num_digipeaters) blank
  pub control_here : f.control ≡ get_or bytes (14 + 7 * f.num_digipeaters) 0
  pub pid_here : f.pid ≡ get_or bytes (15 + 7 * f.num_digipeaters) 0
  pub info_here : f.info ≡ drop (16 + 7 * f.num_digipeaters) bytes
  pub total : length bytes ≡ 16 + 7 * f.num_digipeaters + length f.info
  pub info_fits : length f.info ≤ max_info_len

-- The result that belongs to the bytes: a frame that stands in them, too few bytes for the addresses
-- or for what follows them, or too many for the payload.
abbrev pub Outcome : List ℕ → Result Frame → Type 0
Outcome bytes (ok f) = IsParsed bytes f
Outcome bytes (err e) =
    ((e ≡ too_short)
      × ((length bytes < 15) ⊎ ((n : ℕ) × IsRoute bytes n × (length bytes < 16 + 7 * n))))
    ⊎ ((e ≡ info_too_long)
        × ((n : ℕ) × IsRoute bytes n × (16 + 7 * n + max_info_len < length bytes)))

finish-Outcome :
    (bytes : List ℕ) (dest src : Address) (p : Route)
    → dest ≡ from_bytes (slice bytes 0 7)
    → src ≡ from_bytes (slice bytes 7 7)
    → IsRead bytes p
    → Outcome bytes (finish bytes dest src p)
unfolding finish
finish-Outcome bytes dest src p d s i =
    let left = length-drop (p.pos + 2) bytes in
    elim (Bool-cases (ltb (length bytes) (p.pos + 2))) [
      | inl few ↦
          let short : length bytes < p.pos + 2 = ground (arith, few) in
          rw few (inl (refl, inr (p.num_digipeaters, i.route, omega (arith, short, i.here))))
      | inr enough ↦
          let room : p.pos + 2 ≤ length bytes = ground (arith, enough) in
          elim (Bool-cases (ltb max_info_len (length (drop (p.pos + 2) bytes)))) [
            | inl many ↦
                let long : max_info_len < length (drop (p.pos + 2) bytes) = ground (arith, many) in
                rw (enough, many)
                  (inr (refl, (p.num_digipeaters, i.route, omega (arith, long, left, i.here))))
            | inr fits ↦
                let short : length (drop (p.pos + 2) bytes) ≤ max_info_len = ground (arith, fits) in
                rw (enough, fits)
                  (record {
                    route = i.route;
                    dest_here = d;
                    src_here = s;
                    digipeaters_here = i.listed;
                    control_here = ap (λ (k : ℕ). get_or bytes k 0) i.here;
                    pid_here = ap (λ (k : ℕ). get_or bytes k 0) (omega (arith, i.here));
                    info_here = ap (λ (k : ℕ). drop k bytes) (omega (arith, i.here));
                    total = omega (arith, left, room, i.here);
                    info_fits = short;
                  })
          ]
    ]

-- `try_parse` gives the frame that stands in the bytes, with all its addresses: its digipeaters are
-- those up to the first address with the extension bit, at most 8 and as far as there is room, and its
-- payload has at most 256 bytes. Or it says too_short if there are fewer than 15 bytes, or no room
-- for two bytes behind the addresses, or info_too_long if more than 256 bytes follow those two; it
-- never returns another error.
pub try_parse-Outcome : (bytes : List ℕ) → Outcome bytes (try_parse bytes)
unfolding try_parse
try_parse-Outcome bytes = elim (Bool-cases (ltb (length bytes) 15)) [
  | inl few ↦ let short : length bytes < 15 = ground (arith, few) in rw few (inl (refl, inl short))
  | inr enough ↦
      let room : 15 ≤ length bytes = ground (arith, enough) in
      let (p, read, i) = read_digipeaters-IsRead bytes room in
      rw
        (
          enough,
          address_at_room bytes 0 (omega (arith, room)),
          address_at_room bytes 7 (omega (arith, room)),
          read,
        )
        (finish-Outcome bytes _ _ p refl refl i)
]
