-- ===== src/Ax25/Build/RoundTrip.antt =====
-- `build_test_frame` lays out the frame that `try_parse` reads.
use mathlib.Core.List.{append_assoc}
use packet_radio_rs.Base.{
  ℕ, zero, suc, ◌+◌, ◌-◌, ◌≤◌, ◌<◌, ◌≡◌, refl, sym, ap, subst, ap₂, ◌∙◌, arith, min, true, false,
  List, [], ◌∷◌, ◌++◌, All, All-append, length, length-append, length-take, length-replicate, set,
  take, take-append, drop, replicate,
}
use packet_radio_rs.Ax25.Limits.{max_frame_len, max_info_len}
use packet_radio_rs.Ax25.Address.{to_bytes, callsign_str}
use packet_radio_rs.Ax25.Address.RoundTrip.{IsAddress, trimmed}
use packet_radio_rs.Ax25.Frame.{ok, try_parse}
use packet_radio_rs.Ax25.Frame.Slices.{length-to_bytes}
use packet_radio_rs.Ax25.Frame.RoundTrip.{Content, IsContent, wire, frame_of, try_parse-wire}
use packet_radio_rs.Ax25.Build.{address_from_str, build_test_frame, copy_at}

-- A callsign as text: at most six ASCII characters, not ending in a space.
pub record IsCall (call : List ℕ) : Type 0 where
  pub fits : length call ≤ 6
  pub ascii : All (λ c. c < 128) call
  pub no_space : trimmed call ≡ length call

-- The spaces behind a callsign.
abbrev pub padding : ℕ → List ℕ
padding k = replicate k b' '

trimmed-padding : (k : ℕ) → trimmed (padding k) ≡ 0
trimmed-padding zero = refl
trimmed-padding (suc k) = rw (trimmed-padding k) refl

trimmed-append : (call : List ℕ) (k : ℕ) → trimmed (call ++ padding k) ≡ trimmed call
trimmed-append [] k = trimmed-padding k
trimmed-append (c ∷ call) k = rw (trimmed-append call k) refl

padding_ascii : (k : ℕ) → All (λ c. c < 128) (padding k)
padding_ascii zero = tt
padding_ascii (suc k) = (omega arith, padding_ascii k)

address_from_str_callsign :
    (call : List ℕ)
    → IsCall call
    → (address_from_str call).callsign ≡ call ++ padding (6 - length call)
unfolding address_from_str
address_from_str_callsign [] i = refl
address_from_str_callsign (a ∷ []) i = refl
address_from_str_callsign (a ∷ b ∷ []) i = refl
address_from_str_callsign (a ∷ b ∷ c ∷ []) i = refl
address_from_str_callsign (a ∷ b ∷ c ∷ d ∷ []) i = refl
address_from_str_callsign (a ∷ b ∷ c ∷ d ∷ e ∷ []) i = refl
address_from_str_callsign (a ∷ b ∷ c ∷ d ∷ e ∷ f ∷ []) i = refl
address_from_str_callsign (a ∷ b ∷ c ∷ d ∷ e ∷ f ∷ g ∷ call) i = absurd (omega (arith, i.fits))

pub address_from_str-IsAddress : (call : List ℕ) → IsCall call → IsAddress (address_from_str call)
unfolding address_from_str
address_from_str-IsAddress call i =
    let pad = 6 - length call in
    let padded : (address_from_str call).callsign ≡ call ++ padding pad =
      address_from_str_callsign call i in
    let trims : trimmed (address_from_str call).callsign ≡ length call =
      ap trimmed padded ∙ trimmed-append call pad ∙ i.no_space in
    record {
      six =
          ap length padded
          ∙ omega
              (arith, length-append call (padding pad), length-replicate {A = ℕ} pad b' ', i.fits);
      ascii =
          subst (All (λ c. c < 128)) (sym padded)
            (All-append _ call (padding pad) i.ascii (padding_ascii pad));
      trimmed_len = omega (arith, trims, i.fits);
      ssid_fits = omega arith;
    }

-- The callsign that an address was made from is what it shows.
pub callsign_str-address_from_str :
    (call : List ℕ) → IsCall call → callsign_str (address_from_str call) ≡ call
unfolding callsign_str address_from_str
callsign_str-address_from_str call i =
    let padded : (address_from_str call).callsign ≡ call ++ padding (6 - length call) =
      address_from_str_callsign call i in
    let all : min (length call) 6 ≡ length call = omega (arith, i.fits) in
    ap₂ take all padded ∙ take-append call (padding (6 - length call))

-- The two addresses, the control field and the PID.
abbrev header : List ℕ → List ℕ → List ℕ
header d s = d ++ (s ++ 0x03 ∷ 0xF0 ∷ [])

-- The buffer when the payload is still missing.
abbrev headed : List ℕ → List ℕ → List ℕ
headed d s = set (set (copy_at (copy_at (replicate max_frame_len 0) 0 d) 7 s) 14 0x03) 15 0xF0

-- A list of length seven has seven elements.
seven :
    (P : List ℕ → Type 0)
    → ((a b c d e f g : ℕ) → P (a ∷ b ∷ c ∷ d ∷ e ∷ f ∷ g ∷ []))
    → (xs : List ℕ) → length xs ≡ 7
    → P xs
seven P k (a ∷ b ∷ c ∷ d ∷ e ∷ f ∷ g ∷ []) h = k a b c d e f g
seven P k (a ∷ b ∷ c ∷ d ∷ e ∷ f ∷ g ∷ x ∷ xs) h = absurd (omega arith)
seven P k xs h = absurd (omega arith)

take-headed : (d s : List ℕ) → length d ≡ 7 → length s ≡ 7 → take 16 (headed d s) ≡ header d s
take-headed d s h k =
    seven (λ d. take 16 (headed d s) ≡ header d s)
      (λ a b c d e f g.
        seven
          (λ s.
            take 16 (headed (a ∷ b ∷ c ∷ d ∷ e ∷ f ∷ g ∷ []) s)
            ≡ header (a ∷ b ∷ c ∷ d ∷ e ∷ f ∷ g ∷ []) s)
          (λ p q r t u v w. refl) s k)
      d h

-- The content of the frame that `build_test_frame` lays out.
abbrev pub built : List ℕ → List ℕ → List ℕ → Content
built src dest info = record {
  dest = address_from_str dest;
  src = address_from_str src;
  route = [];
  control = 0x03;
  pid = 0xF0;
  info = info;
}

-- The valid bytes of the buffer.
abbrev pub valid : List ℕ × ℕ → List ℕ
valid built_frame = take built_frame.1 built_frame.0

take-all : (xs : List ℕ) → take (length xs) xs ≡ xs
take-all [] = refl
take-all (x ∷ xs) = ap (◌∷◌ x) (take-all xs)

-- A payload behind the first sixteen bytes of a buffer.
take-copy_at :
    (buf info : List ℕ) (n : ℕ)
    → 16 ≤ length buf
    → n ≡ length info
    → take (16 + n) (copy_at buf 16 info) ≡ take 16 buf ++ info
take-copy_at buf info n h e =
    let front = take 16 buf in
    let rest = drop (16 + length info) buf in
    let size : 16 + n ≡ length (front ++ info) =
      omega (arith, length-append front info, length-take 16 buf) in
    rw (size, sym (append_assoc front info rest)) (take-append (front ++ info) rest)

pub build_test_frame-wire :
    (src dest info : List ℕ)
    → IsCall src
    → IsCall dest
    → length info ≤ 314
    → valid (build_test_frame src dest info) ≡ wire (built src dest info)
unfolding build_test_frame
build_test_frame-wire src dest info s d h =
    let first = to_bytes (address_from_str dest) false in
    let second = to_bytes (address_from_str src) true in
    let seven_first =
      length-to_bytes (address_from_str dest) false (address_from_str-IsAddress dest d).six in
    let seven_second =
      length-to_bytes (address_from_str src) true (address_from_str-IsAddress src s).six in
    let all : min (length info) 314 ≡ length info = omega arith in
    let front = take-headed first second seven_first seven_second in
    let regroup =
      append_assoc first (second ++ 0x03 ∷ 0xF0 ∷ []) info
      ∙ ap (λ t. first ++ t) (append_assoc second (0x03 ∷ 0xF0 ∷ []) info) in
    let room : 16 ≤ length (headed first second) = omega (
      arith,
      ap length front,
      length-take 16 (headed first second),
      length-append first (second ++ 0x03 ∷ 0xF0 ∷ []),
      length-append second (0x03 ∷ 0xF0 ∷ []),
      seven_first,
      seven_second,
    ) in
    rw (all, take-all info)
      (take-copy_at (headed first second) info (length info) room refl
        ∙ ap (λ t. t ++ info) front
        ∙ regroup)

built-IsContent :
    (src dest info : List ℕ)
    → IsCall src
    → IsCall dest
    → length info ≤ max_info_len
    → IsContent (built src dest info)
built-IsContent src dest info s d h = record {
  dest_valid = address_from_str-IsAddress dest d;
  src_valid = address_from_str-IsAddress src s;
  route_valid = tt;
  route_fits = omega arith;
  info_fits = h;
}

-- For callsigns of at most six ASCII characters that do not end in a space, and at most 256 bytes
-- of payload, `try_parse` reads the frame that `build_test_frame` lays out: the two addresses, no
-- digipeaters, control 0x03, PID 0xF0 and the payload.
pub try_parse-build_test_frame :
    (src dest info : List ℕ)
    → IsCall src
    → IsCall dest
    → length info ≤ max_info_len
    → try_parse (valid (build_test_frame src dest info)) ≡ ok (frame_of (built src dest info))
try_parse-build_test_frame src dest info s d h =
    ap try_parse (build_test_frame-wire src dest info s d (omega (arith, h)))
    ∙ try_parse-wire (built src dest info) (built-IsContent src dest info s d h)
