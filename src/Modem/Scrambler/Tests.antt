-- ===== src/Modem/Scrambler/Tests.antt =====
-- Scrambling concrete bits.
use packet_radio_rs.Base.{◌≡◌, refl, arith, Bool, true, false, List, ◌∷◌, ◌++◌, drop, replicate}
use packet_radio_rs.Modem.Scrambler.{
  new_descrambler, new_scrambler, descramble_all, scramble_all, scramble, tapped, shift_in,
  reset_scrambler, reset_descrambler,
}
use packet_radio_rs.Modem.Scrambler.Sync.{
  descramble_all-scramble_all, descramble_all-scramble_all_sync,
}

-- A one appears again 12 and 17 bits later.
abbrev pulse : List Bool
pulse = true ∷ replicate 19 false

pulse_scrambled :
    scramble_all new_scrambler pulse
    ≡ true ∷ (replicate 11 false ++ (true ∷ (replicate 4 false ++ (true ∷ replicate 2 false))))
unfolding scramble_all scramble tapped shift_in
pulse_scrambled = refl

after_reset :
    (reset_scrambler (record { shift_reg = 5 }) ≡ new_scrambler)
    × (reset_descrambler (record { shift_reg = 5 }) ≡ new_descrambler)
unfolding reset_scrambler reset_descrambler
after_reset = (refl, refl)

descramble_all-scramble_all_example :
    descramble_all
      (record { shift_reg = 0x1ACE5 })
      (scramble_all (record { shift_reg = 0x1ACE5 }) pulse)
    ≡ pulse
descramble_all-scramble_all_example = descramble_all-scramble_all 0x1ACE5 pulse (omega arith)

descramble_all-scramble_all_sync_example :
    drop 17 (
      descramble_all
        (record { shift_reg = 0x1FFFF })
        (scramble_all (record { shift_reg = 0x12345 }) pulse))
    ≡ drop 17 pulse
descramble_all-scramble_all_sync_example =
    descramble_all-scramble_all_sync (record { shift_reg = 0x12345 })
      (record { shift_reg = 0x1FFFF }) pulse (omega arith) (omega arith)
