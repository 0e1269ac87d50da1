-- ===== src/Modem/FrameOutput/Slots.antt =====
-- A frame that was pushed stays in its slot.
use packet_radio_rs.Base.{
  ℕ, zero, suc, ◌+◌, ◌%◌, ◌^◌, ◌≤◌, ◌<◌, ◌≡◌, ◌≢◌, refl, sym, ap, ◌∙◌, arith, min, true, false,
  none, some, List, [], ◌∷◌, ◌++◌, leb, ◌⊎◌, inl, inr, Bool-cases, length, length-take, length-set,
  get_or, set, take, take-append, drop,
}
use packet_radio_rs.Modem.FrameOutput.{
  max_frame_size, DecodedFrame, FrameOutputBuffer, blank, frame, store, push_with_cost, replace,
}

get_or-set :
    (fs : List DecodedFrame) (i : ℕ) (f : DecodedFrame)
    → i < length fs
    → get_or (set fs i f) i blank ≡ f
get_or-set [] i f h = absurd (omega arith)
get_or-set (x ∷ fs) zero f h = refl
get_or-set (x ∷ fs) (suc i) f h = get_or-set fs i f (omega arith)

get_or-set_other :
    (fs : List DecodedFrame) (i j : ℕ) (f : DecodedFrame)
    → i ≢ j
    → get_or (set fs i f) j blank ≡ get_or fs j blank
get_or-set_other [] i j f h = refl
get_or-set_other (x ∷ fs) zero zero f h = absurd (h refl)
get_or-set_other (x ∷ fs) zero (suc j) f h = refl
get_or-set_other (x ∷ fs) (suc i) zero f h = refl
get_or-set_other (x ∷ fs) (suc i) (suc j) f h = get_or-set_other fs i j f (λ e. h (ap suc e))

-- The bytes that a stored frame shows.
store_lem :
    (f : DecodedFrame) (bytes : List ℕ) (cost : ℕ)
    → take (store f bytes cost).len (store f bytes cost).data_bytes ≡ take max_frame_size bytes
unfolding store
store_lem f bytes cost =
    let len = min (length bytes) max_frame_size in
    let kept : len ≡ length (take len bytes) = omega (arith, length-take len bytes) in
    ap (λ (t : ℕ). take t (take len bytes ++ drop len f.data_bytes)) kept
    ∙ take-append (take len bytes) (drop len f.data_bytes)
    ∙ shorter max_frame_size bytes
  where
    nothing : (k : ℕ) → take {A = ℕ} k [] ≡ []
    nothing zero = refl
    nothing (suc k) = refl

    shorter : (n : ℕ) (xs : List ℕ) → take (min (length xs) n) xs ≡ take n xs
    shorter n [] = nothing (min 0 n) ∙ sym (nothing n)
    shorter zero (x ∷ xs) =
        let e : min (suc (length xs)) 0 ≡ 0 = omega arith in ap (λ (t : ℕ). take t (x ∷ xs)) e
    shorter (suc n) (x ∷ xs) =
        let e : min (suc (length xs)) (suc n) ≡ suc (min (length xs) n) = omega arith in
        ap (λ (t : ℕ). take t (x ∷ xs)) e ∙ ap (◌∷◌ x) (shorter n xs)

-- What a write to a slot leaves.
pub record IsStored (b after : FrameOutputBuffer) (slot : ℕ) (bytes : List ℕ) : Type 0 where
  pub shown : frame after slot ≡ take max_frame_size bytes
  pub others : (j : ℕ) → slot ≢ j → frame after j ≡ frame b j
  pub size : length after.frames ≡ length b.frames

stored :
    (b : FrameOutputBuffer) (slot count cost : ℕ) (bytes : List ℕ)
    → slot < length b.frames
    → IsStored b
        (record {
          frames = set b.frames slot (store (get_or b.frames slot blank) bytes cost);
          count = count;
        })
        slot
        bytes
unfolding frame
stored b slot count cost bytes h =
    let f = store (get_or b.frames slot blank) bytes cost in
    record {
      shown =
          ap (λ (g : DecodedFrame). take g.len g.data_bytes) (get_or-set b.frames slot f h)
          ∙ store_lem (get_or b.frames slot blank) bytes cost;
      others = λ j ne.
          ap (λ (g : DecodedFrame). take g.len g.data_bytes)
            (get_or-set_other b.frames slot j f ne);
      size = length-set b.frames slot f;
    }

-- With a free place, `push_with_cost` returns the slot as a byte and counts one frame more, the
-- slot then shows the first 330 of the bytes, and every other slot shows what it did; a full buffer
-- returns none and is left as it is.
pub push_with_cost_lem :
    (b : FrameOutputBuffer) (bytes : List ℕ) (cost : ℕ)
    → let r = push_with_cost b bytes cost in
      ((b.count < length b.frames)
        × (r.0 ≡ some (b.count % 2 ^ 8))
        × (r.1.count ≡ b.count + 1)
        × IsStored b r.1 b.count bytes)
      ⊎ ((length b.frames ≤ b.count) × (r ≡ (none, b)))
unfolding push_with_cost
push_with_cost_lem b bytes cost = elim (Bool-cases (leb (length b.frames) b.count)) [
  | inl full ↦ let h : length b.frames ≤ b.count = ground (arith, full) in rw full (inr (h, refl))
  | inr room ↦
      let h : b.count < length b.frames = ground (arith, room) in
      rw room (inl (h, refl, refl, stored b b.count (b.count + 1) cost bytes h))
]

-- For a slot in use, `replace` succeeds, the slot then shows the first 330 of the bytes, and every
-- other slot shows what it did; for any other slot it fails and changes nothing.
pub replace_lem :
    (b : FrameOutputBuffer) (slot cost : ℕ) (bytes : List ℕ)
    → b.count ≤ length b.frames
    → let r = replace b slot bytes cost in
      ((slot < b.count) × (r.0 ≡ true) × (r.1.count ≡ b.count) × IsStored b r.1 slot bytes)
      ⊎ ((b.count ≤ slot) × (r ≡ (false, b)))
unfolding replace
replace_lem b slot cost bytes v = elim (Bool-cases (leb b.count slot)) [
  | inl out ↦ let h : b.count ≤ slot = ground (arith, out) in rw out (inr (h, refl))
  | inr inside ↦
      let h : slot < b.count = ground (arith, inside) in
      rw inside (inl (h, refl, refl, stored b slot b.count cost bytes (omega (arith, h, v))))
]
