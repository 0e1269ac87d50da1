-- ===== src/Tnc/TxQueue.antt =====
-- `TxQueue` of core/src/tnc.rs, a ring of four frames that wait to be sent.
pub mod Order
mod Tests
use packet_radio_rs.Base.{
  ℕ, zero, suc, ◌+◌, ◌-◌, ◌%◌, Bool, true, false, Option, none, some, List, [], ◌∷◌, ◌++◌, ltb, leb,
  ◌==◌, ◌||◌, if◌then◌else◌, length, get_or, set, take, drop, replicate,
}
use packet_radio_rs.Ax25.Limits.{max_frame_len}

-- TX_QUEUE_SIZE
abbrev pub tx_queue_size : ℕ
tx_queue_size = 4

pub record TxQueue : Type 0 where
  pub frames : List (List ℕ)
  pub lengths : List ℕ
  pub head : ℕ
  pub count : ℕ

unfoldable pub new : TxQueue
new = record {
  frames = replicate tx_queue_size (replicate max_frame_len 0);
  lengths = replicate tx_queue_size 0;
  head = 0;
  count = 0;
}

unfoldable pub is_empty : TxQueue → Bool
is_empty q = q.count == 0

unfoldable pub is_full : TxQueue → Bool
is_full q = leb tx_queue_size q.count

unfoldable pub len : TxQueue → ℕ
len q = q.count

-- What `enqueue` does at slot `idx`.
unfoldable pub fill_slot : TxQueue → ℕ → List ℕ → TxQueue
fill_slot q idx bytes = record {
  frames = set q.frames idx (bytes ++ drop (length bytes) (get_or q.frames idx []));
  lengths = set q.lengths idx (length bytes);
  head = q.head;
  count = q.count + 1;
}

unfoldable pub enqueue : TxQueue → List ℕ → TxQueue × Bool
enqueue q bytes =
    if is_full q || ltb max_frame_len (length bytes)
    then (q, false)
    else (fill_slot q ((q.head + q.count) % tx_queue_size) bytes, true)

-- What `dequeue_into` does with the slot of length `n` at the head.
unfoldable pub empty_slot : TxQueue → ℕ → List ℕ → Option ℕ × List ℕ × TxQueue
empty_slot q n out = (
  some n,
  take n (get_or q.frames q.head []) ++ drop n out,
  record q { head = (q.head + 1) % tx_queue_size; count = q.count - 1 },
)

-- The result, the output and the queue afterwards.
unfoldable pub dequeue_into : TxQueue → List ℕ → Option ℕ × List ℕ × TxQueue
dequeue_into q out =
    if is_empty q then (none, out, q) else empty_slot q (get_or q.lengths q.head 0) out

-- A use of the queue, and what it gives.
pub data Op : Type 0 where
  enqueue_op dequeue_op : List ℕ → Op

pub data Reply : Type 0 where
  enqueued : Bool → Reply
  dequeued : Option ℕ → List ℕ → Reply

unfoldable pub step : TxQueue → Op → TxQueue × Reply
step q (enqueue_op bytes) = let (after, ok) = enqueue q bytes in (after, enqueued ok)
step q (dequeue_op out) = let (n, got, after) = dequeue_into q out in (after, dequeued n got)

unfoldable pub run : TxQueue → List Op → List Reply
run q [] = []
run q (op ∷ ops) = let (after, reply) = step q op in reply ∷ run after ops
