-- ===== src/Kiss/Decode.antt =====
-- The decoder's invariant, and what one run over escaped bytes does to its buffer.
use packet_radio_rs.Base.{
  ℕ, ◌+◌, ◌≤◌, ◌<◌, ◌≡◌, refl, ap, ◌∙◌, arith, true, false, some, List, [], ◌∷◌, ◌++◌, length, take,
  length-set, length-take, length-drop, take-set_add_one, length-append, lt→ltb, Option, none,
}
use packet_radio_rs.Kiss.{
  fend, fesc, KissDecoder, Packet, push_byte, reset, feed_byte, feed_fend, packet, run, packets,
  report, new,
}
use packet_radio_rs.Kiss.Encode.{escaped}

-- The buffer keeps its 512 bytes, `len` stays inside it, and only a full buffer inside a frame has
-- overflowed.
pub record IsValid (d : KissDecoder) : Type 0 where
  pub size : length d.buf ≡ 512
  pub within : d.len ≤ 512
  pub full_at : d.overflow ≡ true → (d.len ≡ 512) × (d.in_frame ≡ true)

pub new-IsValid : IsValid new
unfolding new
new-IsValid = record { size = refl; within = omega arith; full_at = λ h. cc }

push_byte-IsValid :
    (d : KissDecoder) (byte : ℕ) → d.in_frame ≡ true → IsValid d → IsValid (push_byte d byte)
unfolding push_byte
push_byte-IsValid d byte h v = ground (arith, length-set d.buf d.len byte)

unescaped-IsValid : (d : KissDecoder) → IsValid d → IsValid (record d { escape = false })
unescaped-IsValid d v = record { size = v.size; within = v.within; full_at = v.full_at }

feed_fend-IsValid : (d : KissDecoder) → IsValid d → IsValid (feed_fend d).0
unfolding feed_fend reset
feed_fend-IsValid d v = ground arith

-- `feed_byte` keeps the decoder valid, whatever the byte: no write leaves the buffer.
pub feed_byte-IsValid : (d : KissDecoder) (byte : ℕ) → IsValid d → IsValid (feed_byte d byte).0
unfolding feed_byte
feed_byte-IsValid d byte v = ground (
  arith,
  unescaped-IsValid d v,
  feed_fend-IsValid d v,
  push_byte-IsValid (record d { escape = false }) byte,
  push_byte-IsValid (record d { escape = false }) fend,
  push_byte-IsValid (record d { escape = false }) fesc,
)

pub run-IsValid : (bytes : List ℕ) (d : KissDecoder) → IsValid d → IsValid (run d bytes)
unfolding run
run-IsValid [] d v = v
run-IsValid (byte ∷ bytes) d v = run-IsValid bytes (feed_byte d byte).0 (feed_byte-IsValid d byte v)

pub packet-length : (d : KissDecoder) → IsValid d → 0 < d.len → length (packet d).2 + 1 ≡ d.len
unfolding packet
packet-length d v h =
    let held = length-take d.len d.buf in
    let kept = length-drop 1 (take d.len d.buf) in omega (arith, v.size, v.within)

-- A packet is reported only at FEND, from a frame that has its command byte and did not overflow.
pub feed_byte-some :
    (d : KissDecoder) (byte : ℕ) (p : Packet)
    → (feed_byte d byte).1 ≡ some p
    → (p ≡ packet d) × (0 < d.len) × (byte ≡ fend) × (d.in_frame ≡ true) × (d.overflow ≡ false)
unfolding feed_byte feed_fend
feed_byte-some d byte p h = ground arith

pub run-append : (xs ys : List ℕ) (d : KissDecoder) → run d (xs ++ ys) ≡ run (run d xs) ys
unfolding run
run-append [] ys d = refl
run-append (x ∷ xs) ys d = run-append xs ys (feed_byte d x).0

report-append : (o : Option Packet) (ps qs : List Packet) → report o (ps ++ qs) ≡ report o ps ++ qs
report-append none ps qs = refl
report-append (some p) ps qs = refl

pub packets-append :
    (xs ys : List ℕ) (d : KissDecoder)
    → packets d (xs ++ ys) ≡ packets d xs ++ packets (run d xs) ys
unfolding run packets
packets-append [] ys d = refl
packets-append (x ∷ xs) ys d =
    ap (report (feed_byte d x).1) (packets-append xs ys (feed_byte d x).0)
    ∙ report-append (feed_byte d x).1 _ _

-- Inside a frame, with `xs` in the buffer.
pub record Holds (xs : List ℕ) (d : KissDecoder) : Type 0 where
  pub size : length d.buf ≡ 512
  pub filled : d.len ≡ length xs
  pub held : take d.len d.buf ≡ xs
  pub inside : d.in_frame ≡ true
  pub plain : d.escape ≡ false
  pub fits : d.overflow ≡ false

pub push_byte-Holds :
    (xs : List ℕ) (d : KissDecoder) (x : ℕ)
    → length xs < 512
    → Holds xs d
    → Holds (xs ++ x ∷ []) (push_byte d x)
unfolding push_byte
push_byte-Holds xs d x h k =
    rw (lt→ltb d.len (length d.buf) (omega (arith, k.size, k.filled))) record {
      size = length-set d.buf d.len x ∙ k.size;
      filled = omega (arith, k.filled, length-append xs (x ∷ []));
      held =
          take-set_add_one d.buf d.len x (omega (arith, k.size, k.filled))
          ∙ ap (λ t. t ++ x ∷ []) k.held;
      inside = k.inside;
      plain = k.plain;
      fits = k.fits;
    }

-- The escaped form of a byte puts the byte itself into the buffer.
pub escaped-push_byte :
    (d : KissDecoder) (x : ℕ)
    → d.in_frame ≡ true
    → d.escape ≡ false
    → (run d (escaped x) ≡ push_byte (record d { escape = false }) x) × (packets d (escaped x) ≡ [])
unfolding run packets feed_byte feed_fend
escaped-push_byte d x h e = ground arith
