-- ===== src/Ax25/Frame/RoundTrip.antt =====
-- A frame laid out on the wire is parsed back.
use mathlib.Core.List.{append_assoc}
use packet_radio_rs.Base.{
  ℕ, suc, ◌+◌, ◌-◌, ◌*◌, ◌≤◌, ◌≡◌, refl, sym, ap, ◌∙◌, arith, Bool, true, false, not, List, [], ◌∷◌,
  ◌++◌, All, length, length-append, get_or, get_or-append, drop, replicate, ltb, bit_and, ◌==◌,
}
use packet_radio_rs.Ax25.Limits.{max_digipeaters, max_info_len}
use packet_radio_rs.Ax25.Address.{Address, to_bytes}
use packet_radio_rs.Ax25.Address.RoundTrip.{IsAddress}
use packet_radio_rs.Ax25.Frame.{
  Frame, ok, blank, Route, start_route, read_digipeaters, read_route, finish, try_parse,
}
use packet_radio_rs.Ax25.Frame.Slices.{length-to_bytes, address_at_lem, extension_bit}
use packet_radio_rs.Ax25.Frame.Digipeaters.{
  wire_route, length-wire_route, read_from, read_route-wire_route,
}

-- What a frame says, with its digipeaters as a list.
pub record Content : Type 0 where
  pub dest : Address
  pub src : Address
  pub route : List Address
  pub control : ℕ
  pub pid : ℕ
  pub info : List ℕ

pub record IsContent (c : Content) : Type 0 where
  pub dest_valid : IsAddress c.dest
  pub src_valid : IsAddress c.src
  pub route_valid : All IsAddress c.route
  pub route_fits : length c.route ≤ max_digipeaters
  pub info_fits : length c.info ≤ max_info_len

abbrev pub is_nil : List Address → Bool
is_nil [] = true
is_nil (a ∷ route) = false

-- The fields behind the addresses.
abbrev pub wire_tail : Content → List ℕ
wire_tail c = c.control ∷ c.pid ∷ c.info

-- The layout of an AX.25 frame: the last address carries the extension bit.
abbrev pub wire : Content → List ℕ
wire c =
    to_bytes c.dest false
    ++ (to_bytes c.src (is_nil c.route) ++ (wire_route c.route ++ wire_tail c))

-- The frame that holds a content: unused digipeater places are blank.
abbrev pub frame_of : Content → Frame
frame_of c = record {
  dest = c.dest;
  src = c.src;
  digipeaters = c.route ++ replicate (max_digipeaters - length c.route) blank;
  num_digipeaters = length c.route;
  control = c.control;
  pid = c.pid;
  info = c.info;
}

pub length-wire :
    (c : Content) → IsContent c → length (wire c) ≡ 16 + 7 * length c.route + length c.info
length-wire c v =
    let last = is_nil c.route in
    omega (
      arith,
      length-append (to_bytes c.dest false)
          (to_bytes c.src last ++ (wire_route c.route ++ wire_tail c)),
      length-append (to_bytes c.src last) (wire_route c.route ++ wire_tail c),
      length-append (wire_route c.route) (wire_tail c),
      length-to_bytes c.dest false v.dest_valid.six,
      length-to_bytes c.src last v.src_valid.six,
      length-wire_route c.route v.route_valid,
    )

-- The extension bit of the source address.
source_bit :
    (c : Content) → IsContent c → not (bit_and (get_or (wire c) 13 0) 0x01 == 0) ≡ is_nil c.route
source_bit c v =
    extension_bit c.src (is_nil c.route) (to_bytes c.dest false) (wire_route c.route ++ wire_tail c)
      7 v.src_valid (sym (length-to_bytes c.dest false v.dest_valid.six))

route_read :
    (dest src : Address) (route : List Address) (rest : List ℕ)
    → length (to_bytes dest false ++ to_bytes src (is_nil route)) ≡ 14
    → All IsAddress route
    → length route ≤ max_digipeaters
    → let bytes =
        to_bytes dest false ++ (to_bytes src (is_nil route) ++ (wire_route route ++ rest)) in
      not (bit_and (get_or bytes 13 0) 0x01 == 0) ≡ is_nil route
      → read_digipeaters bytes ≡ ok (read_from [] route max_digipeaters 14)
unfolding read_digipeaters
route_read dest src [] rest h i f b = ground arith
route_read dest src (a ∷ route) rest h i f b =
    let last = wire_route (a ∷ route) in
    let both = to_bytes dest false ++ to_bytes src false in
    let bytes = to_bytes dest false ++ (to_bytes src false ++ (last ++ rest)) in
    let more : (bit_and (get_or bytes 13 0) 0x01 == 0) ≡ true = ground arith in
    rw more (
      ap (λ t. read_route max_digipeaters t start_route)
        (sym (append_assoc (to_bytes dest false) (to_bytes src false) (last ++ rest)))
      ∙ read_route-wire_route (a ∷ route) [] max_digipeaters 14 both rest (λ e. cc) f i (sym h))

get_or_here : (pre : List ℕ) (x : ℕ) (ys : List ℕ) → get_or (pre ++ x ∷ ys) (length pre) 0 ≡ x
get_or_here [] x ys = refl
get_or_here (p ∷ pre) x ys = get_or_here pre x ys

drop_two : (pre : List ℕ) (x y : ℕ) (ys : List ℕ) → drop (length pre + 2) (pre ++ x ∷ y ∷ ys) ≡ ys
drop_two [] x y ys = refl
drop_two (p ∷ pre) x y ys =
    let e : suc (length pre) + 2 ≡ suc (length pre + 2) = omega arith in rw e (drop_two pre x y ys)

-- The fields behind the addresses are read back.
finish_lem :
    (c : Content) (pre : List ℕ) (p : Route)
    → p.pos ≡ length pre
    → length c.info ≤ max_info_len
    → finish (pre ++ wire_tail c) c.dest c.src p
      ≡ ok (record {
        dest = c.dest;
        src = c.src;
        digipeaters = p.digipeaters;
        num_digipeaters = p.num_digipeaters;
        control = c.control;
        pid = c.pid;
        info = c.info;
      })
unfolding finish
finish_lem c pre p h f =
    let total = length-append pre (wire_tail c) in
    rw
      (
        h,
        get_or_here pre c.control (c.pid ∷ c.info),
        get_or-append pre (wire_tail c) 1 0,
        drop_two pre c.control c.pid c.info,
      )
      (ground (arith, total))

finish-wire :
    (c : Content)
    → IsContent c
    → finish (wire c) c.dest c.src (read_from [] c.route max_digipeaters 14) ≡ ok (frame_of c)
finish-wire c v =
    let first = to_bytes c.dest false in
    let second = to_bytes c.src (is_nil c.route) in
    let route = wire_route c.route in
    let tail = wire_tail c in
    let zeros : 0 + length c.route ≡ length c.route = omega arith in
    let regroup : (first ++ (second ++ route)) ++ tail ≡ wire c =
      append_assoc first (second ++ route) tail
      ∙ ap (λ t. first ++ t) (append_assoc second route tail) in
    rw (sym regroup) (
      finish_lem c (first ++ (second ++ route)) _
        (omega (
          arith,
          length-append first (second ++ route),
          length-append second route,
          length-to_bytes c.dest false v.dest_valid.six,
          length-to_bytes c.src (is_nil c.route) v.src_valid.six,
          length-wire_route c.route v.route_valid,
        ))
        v.info_fits
      ∙ ap (λ (n : ℕ). ok (record (frame_of c) { num_digipeaters = n })) zeros)

-- A frame laid out on the wire is parsed back, digipeaters, payload and all.
pub try_parse-wire : (c : Content) → IsContent c → try_parse (wire c) ≡ ok (frame_of c)
unfolding try_parse
try_parse-wire c v =
    let behind = to_bytes c.src (is_nil c.route) ++ (wire_route c.route ++ wire_tail c) in
    let short : ltb (length (wire c)) 15 ≡ false = ground (arith, length-wire c v) in
    let fourteen : length (to_bytes c.dest false ++ to_bytes c.src (is_nil c.route)) ≡ 14 = omega (
      arith,
      length-append (to_bytes c.dest false) (to_bytes c.src (is_nil c.route)),
      length-to_bytes c.dest false v.dest_valid.six,
      length-to_bytes c.src (is_nil c.route) v.src_valid.six,
    ) in
    rw
      (
        short,
        address_at_lem c.dest false [] behind 0 v.dest_valid refl,
        address_at_lem c.src (is_nil c.route) (to_bytes c.dest false)
            (wire_route c.route ++ wire_tail c) 7 v.src_valid
            (sym (length-to_bytes c.dest false v.dest_valid.six)),
        route_read c.dest c.src c.route (wire_tail c) fourteen v.route_valid v.route_fits
            (source_bit c v),
      )
      (finish-wire c v)
