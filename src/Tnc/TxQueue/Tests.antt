-- ===== src/Tnc/TxQueue/Tests.antt =====
-- The transmit queue on some frames.
use packet_radio_rs.Base.{◌≡◌, refl, true, false, none, some, List, [], ◌∷◌, replicate}
use packet_radio_rs.Tnc.TxQueue.{new, Op, enqueue_op, dequeue_op, enqueued, dequeued, run}
use packet_radio_rs.Tnc.TxQueue.Order.{frames_run, run-frames_run}

abbrev uses : List Op
uses =
    enqueue_op (1 ∷ 2 ∷ [])
    ∷ enqueue_op (replicate 331 0)
    ∷ enqueue_op (3 ∷ [])
    ∷ dequeue_op (0 ∷ 0 ∷ 0 ∷ [])
    ∷ dequeue_op (0 ∷ 0 ∷ [])
    ∷ dequeue_op (9 ∷ [])
    ∷ []

run-frames_run_example : run new uses ≡ frames_run [] uses
run-frames_run_example = run-frames_run uses

replies :
    frames_run [] uses
    ≡ enqueued true
      ∷ enqueued false
      ∷ enqueued true
      ∷ dequeued (some 2) (1 ∷ 2 ∷ 0 ∷ [])
      ∷ dequeued (some 1) (3 ∷ 0 ∷ [])
      ∷ dequeued none (9 ∷ [])
      ∷ []
replies = refl
