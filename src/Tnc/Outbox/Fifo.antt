-- ===== src/Tnc/Outbox/Fifo.antt =====
-- The outbox is a queue of at most 2047 bytes.
use mathlib.Core.List.{append-nil, append_assoc}
use packet_radio_rs.Base.{
  ℕ, zero, suc, ◌+◌, ◌-◌, ◌%◌, ◌≤◌, ◌<◌, ◌≡◌, ◌≢◌, refl, sym, ap, ap₂, ◌∙◌, arith, min, Bool-cases,
  inl, inr, true, false, List, [], ◌∷◌, ◌++◌, ltb, leb, if◌then◌else◌, length, length-append,
  length-set, take-set_add_one, drop-set, take-append-drop, length-replicate, get_or, get_or-set,
  get_or-set_other, set, take, drop,
}
use packet_radio_rs.Tnc.Outbox.{
  kiss_outbox_size, KissOutbox, new, len, free_space, write_bytes, write, read_bytes, read, Op,
  write_op, read_op, Reply, wrote, filled, step, run,
}

-- The bytes of the ring from `head` on.
ring_from : ℕ → ℕ → List ℕ → List ℕ
ring_from zero head buf = []
ring_from (suc n) head buf = get_or buf head 0 ∷ ring_from n ((head + 1) % 2048) buf

-- A write at a place behind them changes nothing.
ring_from-set :
    (n k head j v : ℕ) (buf : List ℕ)
    → head < 2048
    → n ≤ k
    → k < 2048
    → j ≡ (head + k) % 2048
    → ring_from n head (set buf j v) ≡ ring_from n head buf
unfolding ring_from
ring_from-set zero k head j v buf h l m e = refl
ring_from-set (suc n) zero head j v buf h l m e = absurd (omega arith)
ring_from-set (suc n) (suc k) head j v buf h l m e =
    let other : j ≢ head = λ same. absurd (omega (arith, same, e, h, m)) in
    ap₂ ◌∷◌ (get_or-set_other buf j head v 0 other) (
      ring_from-set n k ((head + 1) % 2048) j v buf (omega arith) (omega (arith, l))
        (omega (arith, m)) (omega (arith, e, h, m)))

ring_from_last :
    (n head : ℕ) (buf : List ℕ)
    → head < 2048
    → ring_from (suc n) head buf ≡ ring_from n head buf ++ get_or buf ((head + n) % 2048) 0 ∷ []
unfolding ring_from
ring_from_last zero head buf h =
    let here : head ≡ (head + 0) % 2048 = omega (arith, h) in
    ap (λ (i : ℕ). get_or buf i 0 ∷ []) here
ring_from_last (suc n) head buf h =
    let there : ((head + 1) % 2048 + n) % 2048 ≡ (head + suc n) % 2048 = omega arith in
    ap (◌∷◌ (get_or buf head 0)) (
      ring_from_last n ((head + 1) % 2048) buf (omega arith)
      ∙ ap (λ (i : ℕ). ring_from n ((head + 1) % 2048) buf ++ get_or buf i 0 ∷ []) there)

-- The outbox holds the bytes of a queue.
record Holds (o : KissOutbox) (xs : List ℕ) : Type 0 where
  size : length o.buf ≡ kiss_outbox_size
  head_fits : o.head < kiss_outbox_size
  tail_at : o.tail ≡ (o.head + length xs) % kiss_outbox_size
  fits : length xs ≤ 2047
  content : ring_from (length xs) o.head o.buf ≡ xs

len-Holds : (o : KissOutbox) (xs : List ℕ) → Holds o xs → len o ≡ length xs
unfolding len
len-Holds o xs h = ground (arith, h.head_fits, h.tail_at, h.fits)

write_bytes-Holds :
    (bytes xs : List ℕ) (o : KissOutbox)
    → Holds o xs
    → length xs + length bytes ≤ 2047
    → Holds (write_bytes bytes o) (xs ++ bytes)
unfolding write_bytes
write_bytes-Holds [] xs o h l = rw append-nil h
write_bytes-Holds (b ∷ bytes) xs o h l =
    let n = length xs in
    let longer : length (xs ++ b ∷ []) ≡ suc n = length-append xs (b ∷ []) ∙ omega arith in
    let place : (o.head + n) % 2048 ≡ o.tail = sym h.tail_at in
    let inside : o.tail < length o.buf = omega (arith, h.tail_at, h.size) in
    let written = set o.buf o.tail b in
    let content : ring_from (length (xs ++ b ∷ [])) o.head written ≡ xs ++ b ∷ [] =
      ap (λ (k : ℕ). ring_from k o.head written) longer
      ∙ ring_from_last n o.head written h.head_fits
      ∙ ap₂ (λ ys (y : ℕ). ys ++ y ∷ [])
          (ring_from-set n n o.head o.tail b o.buf h.head_fits (omega arith) (omega (arith, l))
              h.tail_at
            ∙ h.content)
          (ap (λ (i : ℕ). get_or written i 0) place ∙ get_or-set o.buf o.tail b 0 inside) in
    rw append_assoc at (
      write_bytes-Holds bytes (xs ++ b ∷ [])
        (record o { buf = written; tail = (o.tail + 1) % kiss_outbox_size })
        (record {
          size = length-set o.buf o.tail b ∙ h.size;
          head_fits = h.head_fits;
          tail_at = omega (arith, h.tail_at, longer);
          fits = omega (arith, longer, l);
          content = content;
        })
        (omega (arith, longer, l)))

-- Reading the first bytes.
record IsRead (xs out : List ℕ) (i n : ℕ) (r : List ℕ × KissOutbox) : Type 0 where
  output : r.0 ≡ take i out ++ (take n xs ++ drop (i + n) out)
  holds : Holds r.1 (drop n xs)

read_bytes-IsRead :
    (n i : ℕ) (xs out : List ℕ) (o : KissOutbox)
    → Holds o xs
    → n ≤ length xs
    → i + n ≤ length out
    → IsRead xs out i n (read_bytes n i out o)
unfolding read_bytes
read_bytes-IsRead zero i xs out o h l m =
    let here : i ≡ i + 0 = omega arith in
    record {
      output = sym (ap (λ (k : ℕ). take i out ++ drop k out) (sym here) ∙ take-append-drop i out);
      holds = h;
    }
read_bytes-IsRead (suc n) i [] out o h l m = absurd (omega arith)
read_bytes-IsRead (suc n) i (x ∷ xs) out o h l m =
    let first : get_or o.buf o.head 0 ≡ x =
      unfold ring_from in ap (λ (ys : List ℕ). get_or ys 0 0) h.content in
    let behind : ring_from (length xs) ((o.head + 1) % 2048) o.buf ≡ xs =
      unfold ring_from in ap (drop 1) h.content in
    let next = record o { head = (o.head + 1) % kiss_outbox_size } in
    let set_out = set out i (get_or o.buf o.head 0) in
    let r =
      read_bytes-IsRead n (i + 1) xs set_out next
        (record {
          size = h.size;
          head_fits = omega arith;
          tail_at = omega (arith, h.tail_at);
          fits = omega (arith, h.fits);
          content = behind;
        })
        (omega (arith, l)) (omega (arith, m, length-set out i (get_or o.buf o.head 0))) in
    let place : i + 1 + n ≡ i + suc n = omega arith in
    record {
      output =
          r.output
          ∙ ap₂ (λ ys zs. ys ++ (take n xs ++ zs))
              (take-set_add_one out i (get_or o.buf o.head 0) (omega (arith, m))
                ∙ ap (λ (y : ℕ). take i out ++ y ∷ []) first)
              (drop-set out i (i + 1 + n) (get_or o.buf o.head 0) (omega arith)
                ∙ ap (λ (k : ℕ). drop k out) place)
          ∙ append_assoc (take i out) (x ∷ []) (take n xs ++ drop (i + suc n) out);
      holds = r.holds;
    }

-- The queue that the outbox stands for.
abbrev pub queue_step : List ℕ → Op → List ℕ × Reply
queue_step xs (write_op bytes) =
    if leb (length xs + length bytes) 2047 then (xs ++ bytes, wrote true) else (xs, wrote false)
queue_step xs (read_op out) =
    let n = min (length out) (length xs) in (drop n xs, filled n (take n xs ++ drop n out))

abbrev pub queue_run : List ℕ → List Op → List Reply
queue_run xs [] = []
queue_run xs (op ∷ ops) = (queue_step xs op).1 ∷ queue_run (queue_step xs op).0 ops

record Simulates (xs : List ℕ) (op : Op) (r : KissOutbox × Reply) : Type 0 where
  holds : Holds r.0 (queue_step xs op).0
  reply : r.1 ≡ (queue_step xs op).1

step-Simulates : (o : KissOutbox) (xs : List ℕ) (op : Op) → Holds o xs → Simulates xs op (step o op)
unfolding step write read free_space
step-Simulates o xs (write_op bytes) h =
    let size = len-Holds o xs h in
    elim (Bool-cases (ltb (kiss_outbox_size - 1 - len o) (length bytes))) [
      | inl full ↦
          let refused : leb (length xs + length bytes) 2047 ≡ false =
            ground (arith, full, size, h.fits) in
          rw full record { holds = rw refused h; reply = rw refused refl }
      | inr room ↦
          let enough : length xs + length bytes ≤ 2047 = ground (arith, room, size, h.fits) in
          let taken : leb (length xs + length bytes) 2047 ≡ true = ground (arith, enough) in
          rw room record {
            holds = rw taken (write_bytes-Holds bytes xs o h enough);
            reply = rw taken refl;
          }
    ]
step-Simulates o xs (read_op out) h =
    let n = min (length out) (length xs) in
    let r = read_bytes-IsRead n 0 xs out o h (omega arith) (omega arith) in
    let none_before : 0 + n ≡ n = omega arith in
    rw (len-Holds o xs h) record {
      holds = r.holds;
      reply = ap (filled n) (r.output ∙ ap (λ (k : ℕ). take n xs ++ drop k out) none_before);
    }

run-Holds :
    (ops : List Op) (o : KissOutbox) (xs : List ℕ) → Holds o xs → run o ops ≡ queue_run xs ops
unfolding run
run-Holds [] o xs h = refl
run-Holds (op ∷ ops) o xs h =
    let s = step-Simulates o xs op h in
    ap₂ ◌∷◌ s.reply (run-Holds ops (step o op).0 (queue_step xs op).0 s.holds)

-- Whatever is written to a new outbox and read from it, it replies as a queue of at most 2047 bytes:
-- a write is taken whole or refused, and a read gives the oldest bytes in their order.
pub run-queue_run : (ops : List Op) → run new ops ≡ queue_run [] ops
unfolding new ring_from
run-queue_run ops = run-Holds ops new [] record {
  size = length-replicate {A = ℕ} kiss_outbox_size 0;
  head_fits = omega arith;
  tail_at = refl;
  fits = omega arith;
  content = refl;
}
