-- ===== src/Kiss/RoundTrip.antt =====
-- What the decoder makes of the frames that the encoder writes.
use mathlib.Core.List.{append-nil, append_assoc}
use packet_radio_rs.Base.{
  ℕ, ◌+◌, ◌≤◌, ◌<◌, ◌≡◌, refl, ap, ◌∙◌, arith, true, false, List, [], ◌∷◌, ◌++◌, ◌⊎◌, inl, inr,
  length, dec_lt, length-append, length-take, get_or-take, drop,
}
use packet_radio_rs.Kiss.{
  fend, KissDecoder, push_byte, reset, feed_byte, feed_fend, packet, run, packets, from_byte,
}
use packet_radio_rs.Kiss.Encode.{escaped, escape_all}
use packet_radio_rs.Kiss.Decode.{
  Holds, push_byte-Holds, escaped-push_byte, run-append, packets-append,
}

-- Between frames, with nothing lost.
pub record IsIdle (d : KissDecoder) : Type 0 where
  pub size : length d.buf ≡ 512
  pub between : (d.in_frame ≡ false) ⊎ (d.len ≡ 0)
  pub fits : d.overflow ≡ false

-- Inside a frame that has filled the buffer and lost bytes.
record Overflowed (d : KissDecoder) : Type 0 where
  size : length d.buf ≡ 512
  filled : d.len ≡ 512
  inside : d.in_frame ≡ true
  plain : d.escape ≡ false
  lost : d.overflow ≡ true

escaped-Holds :
    (xs : List ℕ) (d : KissDecoder) (x : ℕ)
    → length xs < 512
    → Holds xs d
    → Holds (xs ++ x ∷ []) (run d (escaped x)) × (packets d (escaped x) ≡ [])
escaped-Holds xs d x h k =
    let s = escaped-push_byte d x k.inside k.plain in
    let plain : Holds xs (record d { escape = false }) = record {
      size = k.size;
      filled = k.filled;
      held = k.held;
      inside = k.inside;
      plain = refl;
      fits = k.fits;
    } in
    (rw s.0 (push_byte-Holds xs (record d { escape = false }) x h plain), s.1)

escape_all-Holds :
    (bytes xs : List ℕ) (d : KissDecoder)
    → length xs + length bytes ≤ 512
    → Holds xs d
    → Holds (xs ++ bytes) (run d (escape_all bytes)) × (packets d (escape_all bytes) ≡ [])
escape_all-Holds [] xs d h k = unfold run packets in rw (append-nil xs) (k, refl)
escape_all-Holds (x ∷ bytes) xs d h k =
    let one = escaped-Holds xs d x (omega arith) k in
    let rest =
      escape_all-Holds bytes (xs ++ x ∷ []) (run d (escaped x))
        (omega (arith, length-append xs (x ∷ []))) one.0 in
    (
      rw (run-append (escaped x) (escape_all bytes) d) (rw append_assoc at rest.0),
      packets-append (escaped x) (escape_all bytes) d ∙ rw (one.1, rest.1),
    )

Holds-le : (xs : List ℕ) (d : KissDecoder) → Holds xs d → length xs ≤ 512
Holds-le xs d k = omega (arith, ap length k.held, length-take d.len d.buf, k.size)

-- A byte more than the buffer holds is lost, and the overflow is noted.
escaped-Overflowed :
    (xs : List ℕ) (d : KissDecoder) (x : ℕ)
    → Overflowed d ⊎ (Holds xs d × (512 ≤ length xs))
    → Overflowed (run d (escaped x)) × (packets d (escaped x) ≡ [])
escaped-Overflowed xs d x (inl k) =
    let s = escaped-push_byte d x k.inside k.plain in
    (rw s.0 (unfold push_byte in ground arith), s.1)
escaped-Overflowed xs d x (inr (k, h)) =
    let s = escaped-push_byte d x k.inside k.plain in
    let le = Holds-le xs d k in (rw s.0 (unfold push_byte in ground (arith, le)), s.1)

-- What is left of a frame that is too long.
abbrev TooLong : List ℕ → List ℕ → KissDecoder → Type 0
TooLong xs bytes d = Overflowed d ⊎ (Holds xs d × (512 < length xs + length bytes))

escaped-TooLong :
    (xs bytes : List ℕ) (d : KissDecoder) (x : ℕ)
    → TooLong xs (x ∷ bytes) d
    → TooLong (xs ++ x ∷ []) bytes (run d (escaped x)) × (packets d (escaped x) ≡ [])
escaped-TooLong xs bytes d x (inl k) = let o = escaped-Overflowed xs d x (inl k) in (inl o.0, o.1)
escaped-TooLong xs bytes d x (inr (k, h)) = elim (dec_lt (length xs) 512) [
  | yes room ↦
      let o = escaped-Holds xs d x room k in
      (inr (o.0, omega (arith, length-append xs (x ∷ []))), o.1)
  | no none_left ↦ let o = escaped-Overflowed xs d x (inr (k, omega arith)) in (inl o.0, o.1)
]

escape_all-Overflowed :
    (bytes xs : List ℕ) (d : KissDecoder)
    → TooLong xs bytes d
    → Overflowed (run d (escape_all bytes)) × (packets d (escape_all bytes) ≡ [])
escape_all-Overflowed [] xs d (inl k) = unfold run packets in (k, refl)
escape_all-Overflowed [] xs d (inr (k, h)) = absurd (omega (arith, Holds-le xs d k))
escape_all-Overflowed (x ∷ bytes) xs d k =
    let one = escaped-TooLong xs bytes d x k in
    let rest = escape_all-Overflowed bytes (xs ++ x ∷ []) (run d (escaped x)) one.0 in
    (
      rw (run-append (escaped x) (escape_all bytes) d) rest.0,
      packets-append (escaped x) (escape_all bytes) d ∙ rw (one.1, rest.1),
    )

pub open_frame :
    (d : KissDecoder) → IsIdle d → Holds [] (run d (fend ∷ [])) × (packets d (fend ∷ []) ≡ [])
unfolding run packets feed_byte feed_fend
open_frame d i = ground arith

close_frame :
    (c : ℕ) (payload : List ℕ) (d : KissDecoder)
    → Holds (c ∷ payload) d
    → IsIdle (run d (fend ∷ []))
      × (packets d (fend ∷ []) ≡ ((from_byte c).0, (from_byte c).1, payload) ∷ [])
unfolding run packets feed_byte feed_fend packet
close_frame c payload d k =
    ground (arith, get_or-take d.len d.buf payload c 0 k.held, ap (drop 1) k.held)

close_overflow :
    (d : KissDecoder) → Overflowed d → IsIdle (run d (fend ∷ [])) × (packets d (fend ∷ []) ≡ [])
unfolding run packets feed_byte feed_fend reset
close_overflow d k = ground arith

-- A frame body between two FENDs.
abbrev pub enclosed : List ℕ → List ℕ
enclosed body = fend ∷ (escape_all body ++ (fend ∷ []))

-- An idle decoder reports the body of a frame, once: its first byte as port and command, the rest
-- as data. It is idle again afterwards.
pub packets-enclosed :
    (c : ℕ) (payload : List ℕ) (d : KissDecoder)
    → IsIdle d
    → length payload ≤ 511
    → (packets d (enclosed (c ∷ payload)) ≡ ((from_byte c).0, (from_byte c).1, payload) ∷ [])
      × IsIdle (run d (enclosed (c ∷ payload)))
packets-enclosed c payload d i h =
    let body = escape_all (c ∷ payload) in
    let d₁ = run d (fend ∷ []) in
    let start = open_frame d i in
    let inner = escape_all-Holds (c ∷ payload) [] d₁ (omega arith) start.0 in
    let last = close_frame c payload (run d₁ body) inner.0 in
    (
      packets-append (fend ∷ []) (body ++ fend ∷ []) d
          ∙ rw (start.1, packets-append body (fend ∷ []) d₁, inner.1) last.1,
      rw (run-append (fend ∷ []) (body ++ fend ∷ []) d, run-append body (fend ∷ []) d₁) last.0,
    )

-- Of a frame body of more than 512 bytes an idle decoder reports nothing; it is idle again at the
-- closing FEND.
pub packets_too_long :
    (body : List ℕ) (d : KissDecoder)
    → IsIdle d
    → 512 < length body
    → (packets d (enclosed body) ≡ []) × IsIdle (run d (enclosed body))
packets_too_long body d i h =
    let d₁ = run d (fend ∷ []) in
    let start = open_frame d i in
    let inner = escape_all-Overflowed body [] d₁ (inr (start.0, omega arith)) in
    let last = close_overflow (run d₁ (escape_all body)) inner.0 in
    (
      packets-append (fend ∷ []) (escape_all body ++ fend ∷ []) d
          ∙ rw (start.1, packets-append (escape_all body) (fend ∷ []) d₁, inner.1) last.1,
      rw
          (
            run-append (fend ∷ []) (escape_all body ++ fend ∷ []) d,
            run-append (escape_all body) (fend ∷ []) d₁,
          )
          last.0,
    )
