-- ===== src/Kiss/Sound.antt =====
-- What the decoder reports is the unescaped text behind the last FEND.
use mathlib.Core.List.{append-nil, append_assoc}
use packet_radio_rs.Base.{
  ℕ, ◌/◌, ◌^◌, ◌≤◌, ◌<◌, ◌≡◌, ◌≢◌, refl, sym, ap, ap₂, ◌∙◌, arith, Bool, Bool-cases, inl, inr, true,
  false, ◌&&◌, some, List, [], ◌∷◌, ◌++◌, All, All-append, bit_and, ltb, ◌==◌, length, take, drop,
  get_or, zero, suc, ℕ_discrete, take-set_add_one,
}
use packet_radio_rs.Kiss.{
  fend, fesc, KissDecoder, Packet, command_of, from_byte, push_byte, reset, feed_byte, feed_fend,
  packet, run, new,
}
use packet_radio_rs.Kiss.Decode.{
  IsValid, new-IsValid, feed_byte-IsValid, run-IsValid, packet-length, feed_byte-some,
}
use packet_radio_rs.Kiss.Unescape.{
  character, text_of, unescape, escaped_by, unescape_last, escaped_by_last,
}

-- Of the bytes read, the buffer holds the text behind the last FEND.
record Inside (bytes : List ℕ) (d : KissDecoder) : Type 0 where
  start : List ℕ
  body : List ℕ
  read : bytes ≡ start ++ fend ∷ body
  no_fend : All (λ b. b ≢ fend) body
  escape_is : d.escape ≡ escaped_by false body
  held : take d.len d.buf ≡ unescape false body

abbrev HasHeard : List ℕ → KissDecoder → Type 0
HasHeard bytes d = d.in_frame ≡ true → d.overflow ≡ false → Inside bytes d

-- One byte more.
grown :
    (bytes : List ℕ) (d after : KissDecoder) (byte : ℕ)
    → byte ≢ fend
    → Inside bytes d
    → after.escape ≡ (byte == fesc)
    → take after.len after.buf ≡ take d.len d.buf ++ text_of d.escape byte
    → Inside (bytes ++ byte ∷ []) after
grown bytes d after byte other i e t = record {
  start = i.start;
  body = i.body ++ byte ∷ [];
  read = ap (λ xs. xs ++ byte ∷ []) i.read ∙ append_assoc i.start (fend ∷ i.body) (byte ∷ []);
  no_fend = All-append (λ b. b ≢ fend) i.body (byte ∷ []) i.no_fend (other, tt);
  escape_is = e ∙ sym (escaped_by_last i.body false byte);
  held =
      t
      ∙ ap₂ (λ xs (b : Bool). xs ++ text_of b byte) i.held i.escape_is
      ∙ sym (unescape_last i.body false byte);
}

-- A byte is pushed, or the decoder overflows.
push_byte-held :
    (d : KissDecoder) (c : ℕ)
    → IsValid d
    → (push_byte d c).overflow ≡ false
    → (d.overflow ≡ false)
      × ((push_byte d c).escape ≡ d.escape)
      × (take (push_byte d c).len (push_byte d c).buf ≡ take d.len d.buf ++ c ∷ [])
unfolding push_byte
push_byte-held d c v o = elim (Bool-cases (ltb d.len (length d.buf))) [
  | inl room ↦
      let kept : d.overflow ≡ false = rw room at o in
      rw room (kept, refl, take-set_add_one d.buf d.len c (ground (arith, room)))
  | inr full ↦ absurd (ground (arith, full, o))
]

feed_byte-character :
    (d : KissDecoder) (byte : ℕ)
    → d.in_frame ≡ true
    → byte ≢ fend
    → byte ≢ fesc
    → (feed_byte d byte).0 ≡ push_byte (record d { escape = false }) (character d.escape byte)
unfolding feed_byte
feed_byte-character d byte inside other plain = ground arith

feed_byte-fesc :
    (d : KissDecoder) → d.in_frame ≡ true → (feed_byte d fesc).0 ≡ record d { escape = true }
unfolding feed_byte
feed_byte-fesc d inside = ground arith

feed_byte-outside :
    (d : KissDecoder) (byte : ℕ) → d.in_frame ≡ false → byte ≢ fend → (feed_byte d byte).0 ≡ d
unfolding feed_byte
feed_byte-outside d byte outside other = ground arith

feed_fend-HasHeard :
    (bytes : List ℕ) (d : KissDecoder) → HasHeard (bytes ++ fend ∷ []) (feed_fend d).0
unfolding feed_fend reset escaped_by
feed_fend-HasHeard bytes d = elim (Bool-cases (d.in_frame && ltb 0 d.len)) [
  | inl ended ↦ elim (Bool-cases d.overflow) [
    | inl over ↦ rw (ended, over) (λ inside fits. cc)
    | inr whole ↦ rw (ended, whole) (λ inside fits. cc)
  ]
  | inr begins ↦ rw begins (λ inside fits. record {
    start = bytes;
    body = [];
    read = refl;
    no_fend = tt;
    escape_is = refl;
    held = refl;
  })
]

feed_byte-HasHeard :
    (bytes : List ℕ) (d : KissDecoder) (byte : ℕ)
    → IsValid d
    → HasHeard bytes d
    → HasHeard (bytes ++ byte ∷ []) (feed_byte d byte).0
feed_byte-HasHeard bytes d byte v h = elim (ℕ_discrete byte fend) [
  | yes same ↦ rw same (unfold feed_byte in feed_fend-HasHeard bytes d)
  | no other ↦ elim (Bool-cases d.in_frame) [
    | inr outside ↦ rw (feed_byte-outside d byte outside other) (λ inside fits. cc)
    | inl on ↦ elim (ℕ_discrete byte fesc) [
      | yes same ↦
          rw (same, feed_byte-fesc d on)
            (λ inside fits.
              grown bytes d (record d { escape = true }) fesc (λ e. omega (arith, e)) (h on fits)
                refl (sym (append-nil (take d.len d.buf))))
      | no plain ↦
          let c = character d.escape byte in
          let cleared : KissDecoder = record d { escape = false } in
          let valid : IsValid cleared = record {
            size = v.size;
            within = v.within;
            full_at = v.full_at;
          } in
          let not_fesc : (byte == fesc) ≡ false = ground (arith, plain) in
          rw (feed_byte-character d byte on other plain) (λ inside fits.
            let (whole, same, pushed) = push_byte-held cleared c valid fits in
            grown bytes d (push_byte cleared c) byte other (h on whole) (same ∙ sym not_fesc)
              (pushed ∙ ap (λ t. take d.len d.buf ++ t) (rw not_fesc refl)))
    ]
  ]
]

run-HasHeard :
    (later bytes : List ℕ) (d : KissDecoder)
    → IsValid d
    → HasHeard bytes d
    → HasHeard (bytes ++ later) (run d later)
unfolding run
run-HasHeard [] bytes d v h = rw append-nil h
run-HasHeard (b ∷ later) bytes d v h = rw append_assoc at (
    run-HasHeard later (bytes ++ b ∷ []) (feed_byte d b).0 (feed_byte-IsValid d b v)
      (feed_byte-HasHeard bytes d b v h))

-- A packet that the bytes read make: behind the last FEND stand the escaped bytes of the command byte
-- and the data, which are the decoder's buffer in use.
pub record IsReported (bytes : List ℕ) (d : KissDecoder) (p : Packet) : Type 0 where
  pub start : List ℕ
  pub body : List ℕ
  pub command : ℕ
  pub read : bytes ≡ start ++ fend ∷ body
  pub no_fend : All (λ b. b ≢ fend) body
  pub content : unescape false body ≡ command ∷ p.2
  pub in_buffer : take d.len d.buf ≡ command ∷ p.2
  pub port_here : p.0 ≡ bit_and (command / 2 ^ 4) 0x0F
  pub command_here : p.1 ≡ command_of (bit_and command 0x0F)
  pub at_most : length p.2 ≤ 511

-- A list in use begins with its first element.
take-first :
    (n : ℕ) (xs : List ℕ) → 0 < n → 0 < length xs → take n xs ≡ get_or xs 0 0 ∷ drop 1 (take n xs)
take-first zero xs h k = absurd (omega arith)
take-first (suc n) [] h k = absurd (omega arith)
take-first (suc n) (x ∷ xs) h k = refl

packet-parts :
    (d : KissDecoder)
    → IsValid d
    → 0 < d.len
    → (command : ℕ) × (take d.len d.buf ≡ command ∷ (packet d).2)
      × ((packet d).0 ≡ bit_and (command / 2 ^ 4) 0x0F)
      × ((packet d).1 ≡ command_of (bit_and command 0x0F))
unfolding packet from_byte
packet-parts d v h =
    (get_or d.buf 0 0, take-first d.len d.buf h (omega (arith, v.size)), refl, refl)

-- Whatever bytes a decoder has read since `new`, a packet that `feed_byte` reports is reported at FEND,
-- and is what they make: the bytes behind the last FEND, unescaped, are the decoder's buffer in use, and
-- they are the byte of the packet's port and command and the packet's data, at most 511 bytes.
pub feed_byte-packet :
    (before : List ℕ) (byte : ℕ) (p : Packet)
    → (feed_byte (run new before) byte).1 ≡ some p
    → (byte ≡ fend) × IsReported before (run new before) p
feed_byte-packet before byte p h =
    let d = run new before in
    let v = run-IsValid before new new-IsValid in
    let (is_packet, some_there, at_fend, inside, whole) = feed_byte-some d byte p h in
    let heard = run-HasHeard before [] new new-IsValid (λ on. unfold new in cc) inside whole in
    let (command, parts, port, code) = packet-parts d v some_there in
    let size = packet-length d v some_there in
    rw is_packet (
      at_fend,
      record {
        start = heard.start;
        body = heard.body;
        command = command;
        read = heard.read;
        no_fend = heard.no_fend;
        content = sym heard.held ∙ parts;
        in_buffer = parts;
        port_here = port;
        command_here = code;
        at_most = omega (arith, size, v.within);
      },
    )
