-- ===== src/Ax25/Build/Tests.antt =====
-- `build_test_frame` on concrete text.
use packet_radio_rs.Base.{ℕ, ◌≡◌, refl, arith, List, [], ◌∷◌}
use packet_radio_rs.Ax25.Frame.{ok, try_parse}
use packet_radio_rs.Ax25.Frame.RoundTrip.{frame_of}
use packet_radio_rs.Ax25.Build.{build_test_frame}
use packet_radio_rs.Ax25.Build.RoundTrip.{IsCall, built, valid, try_parse-build_test_frame}

abbrev n0call : List ℕ
n0call = b'N' ∷ b'0' ∷ b'C' ∷ b'A' ∷ b'L' ∷ b'L' ∷ []

abbrev aprs : List ℕ
aprs = b'A' ∷ b'P' ∷ b'R' ∷ b'S' ∷ []

abbrev status : List ℕ
status = b'>' ∷ b'o' ∷ b'k' ∷ []

n0call-IsCall : IsCall n0call
n0call-IsCall = record { fits = omega arith; ascii = omega arith; no_space = refl }

aprs-IsCall : IsCall aprs
aprs-IsCall = record { fits = omega arith; ascii = omega arith; no_space = refl }

try_parse-build_test_frame_example :
    try_parse (valid (build_test_frame n0call aprs status))
    ≡ ok (frame_of (built n0call aprs status))
try_parse-build_test_frame_example =
    try_parse-build_test_frame n0call aprs status n0call-IsCall aprs-IsCall (omega arith)
