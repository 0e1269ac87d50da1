-- ===== src/Aprs/Nmea/Checksum.antt =====
-- A sentence with one wrong byte fails the checksum.
use packet_radio_rs.Base.{
  ℕ, suc, ◌+◌, ◌-◌, ◌*◌, ◌%◌, ◌^◌, ◌≡◌, ◌≢◌, refl, sym, ap, ◌∙◌, arith, Bool-cases, inl, inr, true,
  false, Option, none, some, List, [], ◌∷◌, ◌++◌, bit_or, bit_xor, bit_xor_assoc, bit_xor_comm,
  bit_xor_cancel, bit_xor-zero, zero-bit_xor, ltb, ==-ne, ==_iff, length, length-append, get_or,
  get_or-append, take, take-append, All,
}
use packet_radio_rs.Aprs.Nmea.{xor_all, xor_matches, checksum_at, validate_checksum, parse_nmea}
use packet_radio_rs.Aprs.Nmea.Digits.{hex_digit, position_from, position_of}

-- Bytes without a star.
abbrev pub NoStar : List ℕ → Type 0
NoStar bytes = All (λ b. b ≢ b'*') bytes

position_from_behind :
    (bytes rest : List ℕ) (i : ℕ)
    → NoStar bytes
    → position_from b'*' i (bytes ++ b'*' ∷ rest) ≡ some (i + length bytes)
unfolding position_from
position_from_behind [] rest i h = ap some (omega arith)
position_from_behind (b ∷ bytes) rest i (h, hs) =
    rw (==-ne b b'*' h) (position_from_behind bytes rest (i + 1) hs ∙ ap some (omega arith))

-- A sentence with its checksum, and whatever follows.
abbrev pub sentence : List ℕ → ℕ → ℕ → List ℕ → List ℕ
sentence bytes high low tail = b'$' ∷ (bytes ++ b'*' ∷ high ∷ low ∷ tail)

-- The checksum of such a sentence is compared with that of its bytes.
validate_sentence :
    (bytes : List ℕ) (high low : ℕ) (tail : List ℕ)
    → NoStar bytes
    → validate_checksum (sentence bytes high low tail)
      ≡ xor_matches (xor_all 0 bytes) (hex_digit high) (hex_digit low)
unfolding validate_checksum checksum_at position_of position_from
validate_sentence bytes high low tail h =
    let n = length bytes in
    let rest = b'*' ∷ high ∷ low ∷ tail in
    let found : position_from b'*' (0 + 1) (bytes ++ rest) ≡ some (suc n) =
      position_from_behind bytes (high ∷ low ∷ tail) (0 + 1) h ∙ ap some (omega arith) in
    let long : ltb (suc (length (bytes ++ rest))) (suc n + 3) ≡ false =
      ground (arith, length-append bytes rest) in
    let inside : take (suc n - 1) (bytes ++ rest) ≡ bytes =
      ap (λ (k : ℕ). take k (bytes ++ rest)) (omega arith) ∙ take-append bytes rest in
    let first : suc n + 1 ≡ suc (n + 1) = omega arith in
    let second : suc n + 2 ≡ suc (n + 2) = omega arith in
    let one : get_or (sentence bytes high low tail) (suc n + 1) 0 ≡ high =
      ap (λ (k : ℕ). get_or (sentence bytes high low tail) k 0) first
      ∙ get_or-append bytes rest 1 0 in
    let two : get_or (sentence bytes high low tail) (suc n + 2) 0 ≡ low =
      ap (λ (k : ℕ). get_or (sentence bytes high low tail) k 0) second
      ∙ get_or-append bytes rest 2 0 in
    ap (checksum_at (sentence bytes high low tail) 1) found ∙ rw (long, inside, one, two) refl

xor_all_from : (bytes : List ℕ) (v : ℕ) → xor_all v bytes ≡ bit_xor v (xor_all 0 bytes)
unfolding xor_all
xor_all_from [] v = sym (bit_xor-zero v)
xor_all_from (b ∷ bytes) v =
    xor_all_from bytes (bit_xor v b)
    ∙ bit_xor_assoc v b (xor_all 0 bytes)
    ∙ ap (bit_xor v) (
        sym (
          xor_all_from bytes (bit_xor 0 b)
          ∙ ap (λ (t : ℕ). bit_xor t (xor_all 0 bytes)) (zero-bit_xor b)))

xor_all-append : (xs ys : List ℕ) (v : ℕ) → xor_all v (xs ++ ys) ≡ xor_all (xor_all v xs) ys
unfolding xor_all
xor_all-append [] ys v = refl
xor_all-append (x ∷ xs) ys v = xor_all-append xs ys (bit_xor v x)

-- One byte can be read off the exclusive or of all.
xor_all_cancel :
    (pre post : List ℕ) (a b : ℕ)
    → xor_all 0 (pre ++ a ∷ post) ≡ xor_all 0 (pre ++ b ∷ post)
    → a ≡ b
unfolding xor_all
xor_all_cancel pre post a b e =
    let p = xor_all 0 pre in
    let q = xor_all 0 post in
    let shape : (c : ℕ) → xor_all 0 (pre ++ c ∷ post) ≡ bit_xor p (bit_xor q c) = λ c.
      xor_all-append pre (c ∷ post) 0
      ∙ xor_all_from post (bit_xor p c)
      ∙ bit_xor_assoc p c q
      ∙ ap (bit_xor p) (bit_xor_comm c q) in
    let same = sym (shape a) ∙ e ∙ shape b in
    let inner : bit_xor q a ≡ bit_xor q b =
      sym (bit_xor_cancel p (bit_xor q a)) ∙ ap (bit_xor p) same ∙ bit_xor_cancel p (bit_xor q b) in
    sym (bit_xor_cancel q a) ∙ ap (bit_xor q) inner ∙ bit_xor_cancel q b

-- Two values that match the same digits are equal.
xor_matches_same :
    (x y : ℕ) (h l : Option ℕ) → xor_matches x h l ≡ true → xor_matches y h l ≡ true → x ≡ y
unfolding xor_matches
xor_matches_same x y none l p q = absurd (cc)
xor_matches_same x y (some h) none p q = absurd (cc)
xor_matches_same x y (some h) (some l) p q =
    (==_iff x (bit_or (h * 16 % 2 ^ 8) l)).0 p ∙ sym ((==_iff y (bit_or (h * 16 % 2 ^ 8) l)).0 q)

append-NoStar :
    (pre post : List ℕ) (b : ℕ) → NoStar pre → b ≢ b'*' → NoStar post → NoStar (pre ++ b ∷ post)
append-NoStar [] post b p h q = (h, q)
append-NoStar (x ∷ pre) post b (p, ps) h q = (p, append-NoStar pre post b ps h q)

-- If a sentence `$`…`*` with two more bytes passes the checksum test, then the same sentence with
-- one byte in front of the star replaced by another, and no star among them, is not parsed.
pub parse_nmea_corrupted :
    (pre post tail : List ℕ) (a b high low : ℕ)
    → NoStar pre
    → NoStar post
    → a ≢ b'*'
    → b ≢ b'*'
    → a ≢ b
    → validate_checksum (sentence (pre ++ a ∷ post) high low tail) ≡ true
    → parse_nmea (sentence (pre ++ b ∷ post) high low tail) ≡ none
unfolding parse_nmea
parse_nmea_corrupted pre post tail a b high low p q ha hb differ fine =
    let right =
      sym (validate_sentence (pre ++ a ∷ post) high low tail (append-NoStar pre post a p ha q))
      ∙ fine in
    let wrong =
      validate_sentence (pre ++ b ∷ post) high low tail (append-NoStar pre post b p hb q) in
    elim (Bool-cases (validate_checksum (sentence (pre ++ b ∷ post) high low tail))) [
      | inr refused ↦ rw refused refl
      | inl passed ↦ absurd (
          differ (
            xor_all_cancel pre post a b (
              xor_matches_same (xor_all 0 (pre ++ a ∷ post)) (xor_all 0 (pre ++ b ∷ post))
                (hex_digit high) (hex_digit low) right (sym wrong ∙ passed))))
    ]
