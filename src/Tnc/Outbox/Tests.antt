-- ===== src/Tnc/Outbox/Tests.antt =====
-- The outbox on some bytes.
use packet_radio_rs.Base.{◌≡◌, refl, true, List, [], ◌∷◌}
use packet_radio_rs.Tnc.Outbox.{new, Op, write_op, read_op, wrote, filled, run}
use packet_radio_rs.Tnc.Outbox.Fifo.{queue_run, run-queue_run}

abbrev uses : List Op
uses =
    write_op (1 ∷ 2 ∷ 3 ∷ [])
    ∷ read_op (0 ∷ 0 ∷ [])
    ∷ write_op (4 ∷ [])
    ∷ read_op (0 ∷ 0 ∷ 0 ∷ [])
    ∷ []

run-queue_run_example : run new uses ≡ queue_run [] uses
run-queue_run_example = run-queue_run uses

replies :
    queue_run [] uses
    ≡ wrote true ∷ filled 2 (1 ∷ 2 ∷ []) ∷ wrote true ∷ filled 2 (3 ∷ 4 ∷ 0 ∷ []) ∷ []
replies = refl
