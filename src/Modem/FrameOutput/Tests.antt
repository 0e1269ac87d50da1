-- ===== src/Modem/FrameOutput/Tests.antt =====
-- A buffer of two frames.
use packet_radio_rs.Base.{
  ◌+◌, ◌%◌, ◌^◌, ◌≤◌, ◌<◌, ◌≡◌, refl, arith, ◌⊎◌, true, false, none, some, [], ◌∷◌, length,
}
use packet_radio_rs.Modem.FrameOutput.{
  FrameOutputBuffer, new, push, push_with_cost, replace, is_full, is_empty, store,
}
use packet_radio_rs.Modem.FrameOutput.Slots.{IsStored, push_with_cost_lem, replace_lem}

abbrev one_frame : FrameOutputBuffer
one_frame = (push (new 2) (7 ∷ 8 ∷ [])).1

empty_at_first : (is_empty (new 2) ≡ true) × (is_full (new 2) ≡ false)
unfolding is_empty is_full new
empty_at_first = (refl, refl)

push_with_cost_lem_example :
    let r = push_with_cost (new 2) (1 ∷ 2 ∷ []) 3 in
    (((new 2).count < length (new 2).frames)
      × (r.0 ≡ some ((new 2).count % 2 ^ 8))
      × (r.1.count ≡ (new 2).count + 1)
      × IsStored (new 2) r.1 (new 2).count (1 ∷ 2 ∷ []))
    ⊎ ((length (new 2).frames ≤ (new 2).count) × (r ≡ (none, new 2)))
push_with_cost_lem_example = push_with_cost_lem (new 2) (1 ∷ 2 ∷ []) 3

one_frame_fits : one_frame.count ≤ length one_frame.frames
unfolding push push_with_cost new store
one_frame_fits = omega arith

replace_lem_example :
    let r = replace one_frame 0 (9 ∷ []) 1 in
    ((0 < one_frame.count)
      × (r.0 ≡ true)
      × (r.1.count ≡ one_frame.count)
      × IsStored one_frame r.1 0 (9 ∷ []))
    ⊎ ((one_frame.count ≤ 0) × (r ≡ (false, one_frame)))
replace_lem_example = replace_lem one_frame 0 1 (9 ∷ []) one_frame_fits
