-- ===== src/Kiss/Encode.antt =====
-- `encode_frame` against a description of the frame that has no buffer.
use packet_radio_rs.Base.{
  ℕ, ◌+◌, ◌≤◌, ◌<◌, ◌≡◌, refl, sym, ap, ap₂, fun_ext, ◌∙◌, arith, Option, none, some, List, [], ◌∷◌,
  ◌++◌, ◌==◌, if◌then◌else◌, Bool-cases, inl, inr, length, take, drop, set, length-set,
  take-set_add_one, drop-set, dec_lt,
}
use mathlib.Core.List.{append-nil, append_assoc}
use packet_radio_rs.Kiss.{
  fend, fesc, tfend, tfesc, data_frame, to_byte, OutBuf, Attempt, wrote, full, ◌>>=◌, write,
  write_escaped, write_data, outcome, encode_frame,
}

-- A byte as it stands inside a frame.
abbrev pub escaped : ℕ → List ℕ
escaped byte =
    if byte == fend
    then fesc ∷ tfend ∷ []
    else if byte == fesc
    then fesc ∷ tfesc ∷ []
    else byte ∷ []

abbrev pub escape_all : List ℕ → List ℕ
escape_all [] = []
escape_all (byte ∷ bytes) = escaped byte ++ escape_all bytes

-- The KISS frame that carries `bytes` to `port`.
abbrev pub frame_bytes : ℕ → List ℕ → List ℕ
frame_bytes port bytes = fend ∷ to_byte data_frame port ∷ (escape_all bytes ++ (fend ∷ []))

write_room :
    (x : ℕ) (b : OutBuf)
    → b.pos < length b.out
    → write x b ≡ wrote (record { out = set b.out b.pos x; pos = b.pos + 1 })
unfolding write
write_room x b h = ground arith

write_list : List ℕ → OutBuf → Attempt
write_list [] b = wrote b
write_list (x ∷ xs) b = write x b >>= write_list xs

>>=-wrote : (a : Attempt) → (a >>= wrote) ≡ a
>>=-wrote (wrote b) = refl
>>=-wrote (full b) = refl

>>=_assoc : (a : Attempt) (f g : OutBuf → Attempt) → (a >>= f >>= g) ≡ (a >>= λ b. f b >>= g)
>>=_assoc (wrote b) f g = refl
>>=_assoc (full b) f g = refl

write_list-append :
    (xs ys : List ℕ) (b : OutBuf) → write_list (xs ++ ys) b ≡ (write_list xs b >>= write_list ys)
unfolding write_list
write_list-append [] ys b = refl
write_list-append (x ∷ xs) ys b =
    ap (◌>>=◌ (write x b)) (fun_ext (write_list-append xs ys))
    ∙ sym (>>=_assoc (write x b) (write_list xs) (write_list ys))

write_escaped-list : (x : ℕ) (b : OutBuf) → write_escaped x b ≡ write_list (escaped x) b
unfolding write_escaped write_list
write_escaped-list x b = elim (Bool-cases (x == fend)) [
  | inl e ↦ rw e (ap (◌>>=◌ (write fesc b)) (fun_ext (λ c. sym (>>=-wrote (write tfend c)))))
  | inr n ↦ rw n (elim (Bool-cases (x == fesc)) [
    | inl e ↦ rw e (ap (◌>>=◌ (write fesc b)) (fun_ext (λ c. sym (>>=-wrote (write tfesc c)))))
    | inr m ↦ rw m (sym (>>=-wrote (write x b)))
  ])
]

write_data-list : (xs : List ℕ) (b : OutBuf) → write_data xs b ≡ write_list (escape_all xs) b
unfolding write_data write_list
write_data-list [] b = refl
write_data-list (x ∷ xs) b =
    ap₂ ◌>>=◌ (write_escaped-list x b) (fun_ext (write_data-list xs))
    ∙ sym (write_list-append (escaped x) (escape_all xs) b)

-- The bytes `xs` went behind what was written before, and nothing behind them changed.
record Written (b : OutBuf) (xs : List ℕ) (a : Attempt) : Type 0 where
  after : OutBuf
  is_wrote : a ≡ wrote after
  advanced : after.pos ≡ b.pos + length xs
  written : take after.pos after.out ≡ take b.pos b.out ++ xs
  kept : drop after.pos after.out ≡ drop after.pos b.out
  same_length : length after.out ≡ length b.out

Written-cons :
    (x : ℕ) (xs : List ℕ) (b : OutBuf) (a : Attempt)
    → b.pos < length b.out
    → Written (record { out = set b.out b.pos x; pos = b.pos + 1 }) xs a
    → Written b (x ∷ xs) a
Written-cons x xs b a h w = record {
  after = w.after;
  is_wrote = w.is_wrote;
  advanced = omega (arith, w.advanced);
  written =
      w.written
      ∙ rw (take-set_add_one b.out b.pos x h) (append_assoc (take b.pos b.out) (x ∷ []) xs);
  kept = w.kept ∙ drop-set b.out b.pos w.after.pos x (omega (arith, w.advanced));
  same_length = w.same_length ∙ length-set b.out b.pos x;
}

write_list-Written :
    (xs : List ℕ) (b : OutBuf) → b.pos + length xs ≤ length b.out → Written b xs (write_list xs b)
unfolding write_list
write_list-Written [] b h = record {
  after = b;
  is_wrote = refl;
  advanced = omega arith;
  written = sym (append-nil _);
  kept = refl;
  same_length = refl;
}
write_list-Written (x ∷ xs) b h =
    let next : OutBuf = record { out = set b.out b.pos x; pos = b.pos + 1 } in
    Written-cons x xs b (write_list (x ∷ xs) b) (omega arith) (
      rw (write_room x b (omega arith))
        (write_list-Written xs next (omega (arith, length-set b.out b.pos x))))

write_list-full :
    (xs : List ℕ) (b : OutBuf)
    → b.pos ≤ length b.out
    → length b.out < b.pos + length xs
    → (c : OutBuf) × (write_list xs b ≡ full c)
unfolding write_list
write_list-full [] b p h = absurd (omega arith)
write_list-full (x ∷ xs) b p h = elim (dec_lt b.pos (length b.out)) [
  | yes room ↦
      let next : OutBuf = record { out = set b.out b.pos x; pos = b.pos + 1 } in
      let size = length-set b.out b.pos x in
      rw (write_room x b room) (write_list-full xs next (omega arith) (omega arith))
  | no none_left ↦ (b, unfold write in ground arith)
]

write_list_one : (x : ℕ) (b : OutBuf) → write_list (x ∷ []) b ≡ write x b
unfolding write_list
write_list_one x b = >>=-wrote (write x b)

write_tail :
    (bytes : List ℕ) (b : OutBuf)
    → (write_data bytes b >>= write fend) ≡ write_list (escape_all bytes ++ fend ∷ []) b
write_tail bytes b =
    ap₂ ◌>>=◌ (write_data-list bytes b) (fun_ext (λ c. sym (write_list_one fend c)))
    ∙ sym (write_list-append (escape_all bytes) (fend ∷ []) b)

encode_frame-list :
    (port : ℕ) (bytes out : List ℕ)
    → encode_frame port bytes out
      ≡ outcome (write_list (frame_bytes port bytes) (record { out = out; pos = 0 }))
unfolding encode_frame write_list
encode_frame-list port bytes out =
    let b : OutBuf = record { out = out; pos = 0 } in
    ap outcome (
      >>=_assoc (write fend b >>= write (to_byte data_frame port)) (write_data bytes) (write fend)
      ∙ >>=_assoc (write fend b) (write (to_byte data_frame port))
          (λ c. write_data bytes c >>= write fend)
      ∙ ap (◌>>=◌ (write fend b)) (
          fun_ext
            (λ c. ap (◌>>=◌ (write (to_byte data_frame port) c)) (fun_ext (write_tail bytes)))))

-- What `encode_frame` reports on output `out` when all of `xs` was written.
abbrev pub Filled : List ℕ → List ℕ → List ℕ × Option ℕ → Type 0
Filled xs out r =
    (r.1 ≡ some (length xs))
    × (take (length xs) r.0 ≡ xs)
    × (drop (length xs) r.0 ≡ drop (length xs) out)
    × (length r.0 ≡ length out)

outcome-Filled :
    (xs out : List ℕ) (a : Attempt)
    → Written (record { out = out; pos = 0 }) xs a
    → Filled xs out (outcome a)
unfolding outcome
outcome-Filled xs out a w =
    let at_end : length xs ≡ w.after.pos = omega (arith, w.advanced) in
    rw (w.is_wrote, at_end) (refl, w.written, w.kept, w.same_length)

-- With room for the frame, `encode_frame` returns its length, puts the frame at the front of the
-- output slice and leaves the bytes behind it, and the length of the slice, as they were.
pub encode_frame_fits :
    (port : ℕ) (bytes out : List ℕ)
    → length (frame_bytes port bytes) ≤ length out
    → Filled (frame_bytes port bytes) out (encode_frame port bytes out)
encode_frame_fits port bytes out h = rw (encode_frame-list port bytes out) (
    outcome-Filled (frame_bytes port bytes) out _
      (write_list-Written (frame_bytes port bytes) (record { out = out; pos = 0 }) (omega arith)))

outcome-full : (a : Attempt) → ((c : OutBuf) × (a ≡ full c)) → (outcome a).1 ≡ none
unfolding outcome
outcome-full a (c, e) = rw e

-- Without room for the whole frame, `encode_frame` returns `none`.
pub encode_frame_full :
    (port : ℕ) (bytes out : List ℕ)
    → length out < length (frame_bytes port bytes)
    → (encode_frame port bytes out).1 ≡ none
encode_frame_full port bytes out h = rw (encode_frame-list port bytes out) (
    outcome-full _ (
      write_list-full (frame_bytes port bytes) (record { out = out; pos = 0 }) (omega arith)
        (omega arith)))
