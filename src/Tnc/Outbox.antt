-- ===== src/Tnc/Outbox.antt =====
-- `KissOutbox` of core/src/tnc.rs, a ring buffer of 2048 bytes.
pub mod Fifo
mod Tests
use packet_radio_rs.Base.{
  ℕ, zero, suc, ◌+◌, ◌-◌, ◌%◌, min, Bool, true, false, Option, none, some, List, [], ◌∷◌, ltb, leb,
  ◌==◌, if◌then◌else◌, length, get_or, set, take, replicate,
}
use packet_radio_rs.Kiss.{encode_frame}

-- KISS_OUTBOX_SIZE
abbrev pub kiss_outbox_size : ℕ
kiss_outbox_size = 2048

pub record KissOutbox : Type 0 where
  pub buf : List ℕ
  pub head : ℕ
  pub tail : ℕ

unfoldable pub new : KissOutbox
new = record { buf = replicate kiss_outbox_size 0; head = 0; tail = 0 }

unfoldable pub len : KissOutbox → ℕ
len o = if leb o.head o.tail then o.tail - o.head else kiss_outbox_size - o.head + o.tail

unfoldable pub is_empty : KissOutbox → Bool
is_empty o = o.head == o.tail

unfoldable pub free_space : KissOutbox → ℕ
free_space o = kiss_outbox_size - 1 - len o

-- The loop of `write`.
unfoldable pub write_bytes : List ℕ → KissOutbox → KissOutbox
write_bytes [] o = o
write_bytes (b ∷ bytes) o =
    write_bytes bytes
      (record o { buf = set o.buf o.tail b; tail = (o.tail + 1) % kiss_outbox_size })

unfoldable pub write : KissOutbox → List ℕ → KissOutbox × Bool
write o bytes =
    if ltb (free_space o) (length bytes) then (o, false) else (write_bytes bytes o, true)

-- The loop of `read` with `n` rounds left, at index `i` of the output.
unfoldable pub read_bytes : ℕ → ℕ → List ℕ → KissOutbox → List ℕ × KissOutbox
read_bytes zero i out o = (out, o)
read_bytes (suc n) i out o =
    read_bytes n (i + 1) (set out i (get_or o.buf o.head 0))
      (record o { head = (o.head + 1) % kiss_outbox_size })

-- The number of bytes read, the output and the outbox afterwards.
unfoldable pub read : KissOutbox → List ℕ → ℕ × List ℕ × KissOutbox
read o out =
    let n = min (length out) (len o) in
    let (filled, after) = read_bytes n 0 out o in (n, filled, after)

-- What `write_kiss_frame` does with the encoded frame.
unfoldable pub write_encoded : KissOutbox → List ℕ × Option ℕ → KissOutbox × Bool
write_encoded o (tmp, none) = (o, false)
write_encoded o (tmp, some n) = write o (take n tmp)

unfoldable pub write_kiss_frame : KissOutbox → List ℕ → KissOutbox × Bool
write_kiss_frame o frame = write_encoded o (encode_frame 0 frame (replicate 700 0))

-- A use of the outbox, and what it gives.
pub data Op : Type 0 where
  write_op read_op : List ℕ → Op

pub data Reply : Type 0 where
  wrote : Bool → Reply
  filled : ℕ → List ℕ → Reply

unfoldable pub step : KissOutbox → Op → KissOutbox × Reply
step o (write_op bytes) = let (after, ok) = write o bytes in (after, wrote ok)
step o (read_op out) = let (n, got, after) = read o out in (after, filled n got)

unfoldable pub run : KissOutbox → List Op → List Reply
run o [] = []
run o (op ∷ ops) = let (after, reply) = step o op in reply ∷ run after ops
