-- ===== src/Fx25/Decode/Extract.antt =====
-- The frame that is found in the data of a block, and the layout of the codeword.
use mathlib.Core.List.{append_assoc}
use packet_radio_rs.Base.{
  ℕ, ◌+◌, ◌-◌, ◌≤◌, ◌≡◌, sym, ap, ap₂, subst, ◌∙◌, arith, true, not, Option, none, some, List, [],
  ◌∷◌, ◌++◌, length, length-append, take, take-append, drop, drop-append, replicate, leb, le→leb,
  ◌==◌, if◌then◌else◌,
}
use packet_radio_rs.Ax25.Hdlc
use packet_radio_rs.Ax25.Hdlc.{HdlcDecoder, frames, report}
use packet_radio_rs.Fx25.Tags.{Fx25Tag}
use packet_radio_rs.Fx25.Decode.{first_frame, full_block}

-- One step of the search, where the rest of the stream reports one frame if this bit does not.
first_step :
    (o : Option (List ℕ)) (rest : Option (List ℕ)) (fs : List (List ℕ)) (f : List ℕ)
    → 15 ≤ length f
    → report o fs ≡ f ∷ []
    → (fs ≡ f ∷ [] → rest ≡ some f)
    → (elim o as (λ o. Option (List ℕ)) [
      | none ↦ rest
      | some g ↦ if leb 15 (length g) then some g else rest
    ])
      ≡ some f
first_step none rest fs f h e k = k e
first_step (some g) rest fs f h e k =
    let same : g ≡ f = ap (λ (xs : List (List ℕ)). elim xs [ [] ↦ g | x ∷ ys ↦ x ]) e in
    let long : leb 15 (length g) ≡ true =
      le→leb 15 (length g) (subst (λ (xs : List ℕ). 15 ≤ length xs) (sym same) h) in
    rw long (ap some same)

-- If exactly one frame of 15 bytes or more is reported of the first bits, the search finds it.
pub first_frame-frames :
    (xs ys : List ℕ) (d : HdlcDecoder) (f : List ℕ)
    → 15 ≤ length f
    → frames d xs ≡ f ∷ []
    → first_frame d (xs ++ ys) ≡ some f
unfolding first_frame frames
first_frame-frames [] ys d f h e = absurd (cc)
first_frame-frames (x ∷ xs) ys d f h e =
    let step = Hdlc.feed_bit d (not (x == 0)) in
    first_step step.1 (first_frame step.0 (xs ++ ys)) (frames step.0 xs) f h e
      (λ e'. first_frame-frames xs ys step.0 f h e')

-- The received bytes are laid out as the codeword.
pub full_block_lem :
    (t : Fx25Tag) (payload parity rest : List ℕ)
    → length payload ≡ t.rs_k
    → length parity ≡ t.check_bytes
    → t.rs_n ≡ t.rs_k + t.check_bytes
    → full_block t ((payload ++ parity) ++ rest)
      ≡ payload ++ (replicate (255 - t.check_bytes - t.rs_k) 0 ++ parity)
unfolding full_block
full_block_lem t payload parity rest p q n =
    let word : take t.rs_n ((payload ++ parity) ++ rest) ≡ payload ++ parity =
      ap (λ (k : ℕ). take k ((payload ++ parity) ++ rest))
        (omega (arith, length-append payload parity, p, q, n))
      ∙ take-append (payload ++ parity) rest in
    let front : take t.rs_k ((payload ++ parity) ++ rest) ≡ payload =
      ap₂ (λ (k : ℕ) xs. take k xs) (sym p) (append_assoc payload parity rest)
      ∙ take-append payload (parity ++ rest) in
    let back : drop t.rs_k (take t.rs_n ((payload ++ parity) ++ rest)) ≡ parity =
      ap₂ (λ (k : ℕ) xs. drop k xs) (sym p) word ∙ drop-append payload parity in
    ap₂ (λ xs ys. xs ++ (replicate (255 - t.check_bytes - t.rs_k) 0 ++ ys)) front back
