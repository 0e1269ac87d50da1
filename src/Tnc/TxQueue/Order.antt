-- ===== src/Tnc/TxQueue/Order.antt =====
-- The transmit queue is a queue of at most four frames.
use packet_radio_rs.Base.{
  ℕ, zero, suc, ◌+◌, ◌%◌, ◌≤◌, ◌<◌, ◌≡◌, ◌≢◌, refl, sym, ap, ap₂, ◌∙◌, arith, Bool-cases, inl, inr,
  true, false, Option, none, some, List, [], ◌∷◌, ◌++◌, map, ltb, leb, ◌==◌, ◌||◌, ◌&&◌,
  if◌then◌else◌, length, length-append, length-set, length-replicate, get_or, get_or-set,
  get_or-set_other, set, take, take-append, drop, replicate,
}
use packet_radio_rs.Tnc.TxQueue.{
  tx_queue_size, TxQueue, new, is_empty, is_full, fill_slot, enqueue, empty_slot, dequeue_into, Op,
  enqueue_op, dequeue_op, Reply, enqueued, dequeued, step, run,
}

-- `n` slots of the ring from `head` on, read by `at`.
slots : ℕ → ℕ → (ℕ → ℕ × List ℕ) → List (ℕ × List ℕ)
slots zero head at_slot = []
slots (suc n) head at_slot = at_slot head ∷ slots n ((head + 1) % 4) at_slot

-- They are the same if only a slot behind them differs.
slots-agree :
    (f g : ℕ → ℕ × List ℕ) (n k head j : ℕ)
    → ((i : ℕ) → j ≢ i → f i ≡ g i)
    → head < 4
    → n ≤ k
    → k < 4
    → j ≡ (head + k) % 4
    → slots n head f ≡ slots n head g
unfolding slots
slots-agree f g zero k head j a h l m e = refl
slots-agree f g (suc n) zero head j a h l m e = absurd (omega arith)
slots-agree f g (suc n) (suc k) head j a h l m e =
    let other : j ≢ head = λ same. absurd (omega (arith, same, e, h, m)) in
    ap₂ ◌∷◌ (a head other) (
      slots-agree f g n k ((head + 1) % 4) j a (omega arith) (omega (arith, l)) (omega (arith, m))
        (omega (arith, e, h, m)))

slots_last :
    (f : ℕ → ℕ × List ℕ) (n head : ℕ)
    → head < 4
    → slots (suc n) head f ≡ slots n head f ++ f ((head + n) % 4) ∷ []
unfolding slots
slots_last f zero head h =
    let here : head ≡ (head + 0) % 4 = omega (arith, h) in ap (λ (i : ℕ). f i ∷ []) here
slots_last f (suc n) head h =
    let there : ((head + 1) % 4 + n) % 4 ≡ (head + suc n) % 4 = omega arith in
    ap (◌∷◌ (f head)) (
      slots_last f n ((head + 1) % 4) (omega arith)
      ∙ ap (λ (i : ℕ). slots n ((head + 1) % 4) f ++ f i ∷ []) there)

-- A slot's length and the frame of that length in it.
slot_at : List (List ℕ) → List ℕ → ℕ → ℕ × List ℕ
slot_at frames lengths i = (get_or lengths i 0, take (get_or lengths i 0) (get_or frames i []))

with_length : List ℕ → ℕ × List ℕ
with_length x = (length x, x)

-- The queue holds the frames `xs`.
record Holds (q : TxQueue) (xs : List (List ℕ)) : Type 0 where
  frames_size : length q.frames ≡ tx_queue_size
  lengths_size : length q.lengths ≡ tx_queue_size
  head_fits : q.head < tx_queue_size
  count_is : q.count ≡ length xs
  fits : length xs ≤ tx_queue_size
  content : slots (length xs) q.head (slot_at q.frames q.lengths) ≡ map with_length xs

map_last :
    (xs : List (List ℕ)) (x : List ℕ)
    → map with_length (xs ++ x ∷ []) ≡ map with_length xs ++ with_length x ∷ []
map_last [] x = refl
map_last (y ∷ ys) x = ap (◌∷◌ (with_length y)) (map_last ys x)

fill_slot-Holds :
    (q : TxQueue) (xs : List (List ℕ)) (x : List ℕ)
    → Holds q xs
    → length xs < tx_queue_size
    → Holds (fill_slot q ((q.head + q.count) % tx_queue_size) x) (xs ++ x ∷ [])
unfolding fill_slot slot_at with_length
fill_slot-Holds q xs x h room =
    let n = length xs in
    let idx = (q.head + q.count) % tx_queue_size in
    let slot = x ++ drop (length x) (get_or q.frames idx []) in
    let frames = set q.frames idx slot in
    let lengths = set q.lengths idx (length x) in
    let longer : length (xs ++ x ∷ []) ≡ suc n = length-append xs (x ∷ []) ∙ omega arith in
    let place : idx ≡ (q.head + n) % 4 = omega (arith, h.count_is) in
    let frame_set : get_or frames idx [] ≡ slot =
      get_or-set q.frames idx slot [] (omega (arith, h.frames_size)) in
    let length_set : get_or lengths idx 0 ≡ length x =
      get_or-set q.lengths idx (length x) 0 (omega (arith, h.lengths_size)) in
    let filled : slot_at frames lengths idx ≡ (length x, x) =
      ap₂ (λ (l : ℕ) f. (l, take l f)) length_set frame_set
      ∙ ap (λ (f : List ℕ). (length x, f))
          (take-append x (drop (length x) (get_or q.frames idx []))) in
    let others : (i : ℕ) → idx ≢ i → slot_at frames lengths i ≡ slot_at q.frames q.lengths i =
      λ i other.
        ap₂ (λ (l : ℕ) (f : List ℕ). (l, take l f))
          (get_or-set_other q.lengths idx i (length x) 0 other)
          (get_or-set_other q.frames idx i slot [] other) in
    record {
      frames_size = length-set q.frames idx slot ∙ h.frames_size;
      lengths_size = length-set q.lengths idx (length x) ∙ h.lengths_size;
      head_fits = h.head_fits;
      count_is = omega (arith, longer, h.count_is);
      fits = omega (arith, longer, room);
      content =
          ap (λ (k : ℕ). slots k q.head (slot_at frames lengths)) longer
          ∙ slots_last (slot_at frames lengths) n q.head h.head_fits
          ∙ ap₂ (λ ys y. ys ++ y ∷ [])
              (slots-agree (slot_at frames lengths) (slot_at q.frames q.lengths) n n q.head idx
                  others h.head_fits (omega arith) room place
                ∙ h.content)
              (ap (slot_at frames lengths) (sym place) ∙ filled)
          ∙ sym (map_last xs x);
    }

-- Taking the oldest frame.
record IsDequeued (x : List ℕ) (xs : List (List ℕ)) (out : List ℕ) (r : Option ℕ × List ℕ × TxQueue)
    : Type 0 where
  reply : dequeued r.0 r.1 ≡ dequeued (some (length x)) (x ++ drop (length x) out)
  holds : Holds r.2 xs

empty_slot-IsDequeued :
    (q : TxQueue) (x : List ℕ) (xs : List (List ℕ)) (out : List ℕ)
    → Holds q (x ∷ xs)
    → IsDequeued x xs out (empty_slot q (get_or q.lengths q.head 0) out)
unfolding empty_slot slots slot_at with_length
empty_slot-IsDequeued q x xs out h =
    let none_there : ℕ × List ℕ = (0, []) in
    let first : slot_at q.frames q.lengths q.head ≡ with_length x =
      ap (λ ys. get_or ys 0 none_there) h.content in
    record {
      reply = ap (λ (s : ℕ × List ℕ). dequeued (some s.0) (s.1 ++ drop s.0 out)) first;
      holds = record {
        frames_size = h.frames_size;
        lengths_size = h.lengths_size;
        head_fits = omega arith;
        count_is = omega (arith, h.count_is);
        fits = omega (arith, h.fits);
        content = ap (drop 1) h.content;
      };
    }

-- The queue of frames that the ring stands for.
abbrev pub frames_step : List (List ℕ) → Op → List (List ℕ) × Reply
frames_step xs (enqueue_op x) =
    if ltb (length xs) 4 && leb (length x) 330
    then (xs ++ x ∷ [], enqueued true)
    else (xs, enqueued false)
frames_step [] (dequeue_op out) = ([], dequeued none out)
frames_step (x ∷ xs) (dequeue_op out) = (xs, dequeued (some (length x)) (x ++ drop (length x) out))

abbrev pub frames_run : List (List ℕ) → List Op → List Reply
frames_run xs [] = []
frames_run xs (op ∷ ops) = (frames_step xs op).1 ∷ frames_run (frames_step xs op).0 ops

record Simulates (xs : List (List ℕ)) (op : Op) (r : TxQueue × Reply) : Type 0 where
  holds : Holds r.0 (frames_step xs op).0
  reply : r.1 ≡ (frames_step xs op).1

step-Simulates :
    (q : TxQueue) (xs : List (List ℕ)) (op : Op) → Holds q xs → Simulates xs op (step q op)
unfolding step enqueue dequeue_into is_empty is_full
step-Simulates q xs (enqueue_op x) h =
    let count = h.count_is in
    elim (Bool-cases (leb tx_queue_size q.count || ltb 330 (length x))) [
      | inl refused ↦
          let same : ltb (length xs) 4 && leb (length x) 330 ≡ false =
            ground (arith, refused, count) in
          rw refused record { holds = rw same h; reply = rw same refl }
      | inr taken ↦
          let same : ltb (length xs) 4 && leb (length x) 330 ≡ true =
            ground (arith, taken, count) in
          let room : length xs < tx_queue_size = ground (arith, taken, count) in
          rw taken record { holds = rw same (fill_slot-Holds q xs x h room); reply = rw same refl }
    ]
step-Simulates q [] (dequeue_op out) h =
    let count : q.count ≡ 0 = h.count_is in
    let empty : (q.count == 0) ≡ true = ap (λ (n : ℕ). n == 0) count in
    rw empty record { holds = h; reply = refl }
step-Simulates q (x ∷ xs) (dequeue_op out) h =
    let r = empty_slot-IsDequeued q x xs out h in
    let count = h.count_is in
    let full : (q.count == 0) ≡ false = ground (arith, count) in
    rw full record { holds = r.holds; reply = r.reply }

run-Holds :
    (ops : List Op) (q : TxQueue) (xs : List (List ℕ)) → Holds q xs → run q ops ≡ frames_run xs ops
unfolding run
run-Holds [] q xs h = refl
run-Holds (op ∷ ops) q xs h =
    let s = step-Simulates q xs op h in
    ap₂ ◌∷◌ s.reply (run-Holds ops (step q op).0 (frames_step xs op).0 s.holds)

-- Whatever is put into a new transmit queue and taken from it, it replies as a queue of frames: a frame
-- is refused if four are waiting or it has more than 330 bytes, and the oldest frame is taken first, its
-- bytes in front of what the output has behind them; from an empty queue nothing is taken.
pub run-frames_run : (ops : List Op) → run new ops ≡ frames_run [] ops
unfolding new slots
run-frames_run ops = run-Holds ops new [] record {
  frames_size = length-replicate {A = List ℕ} tx_queue_size (replicate 330 0);
  lengths_size = length-replicate {A = ℕ} tx_queue_size 0;
  head_fits = omega arith;
  count_is = refl;
  fits = omega arith;
  content = refl;
}
