-- ===== src/Fx25/Rs/Sound.antt =====
-- What `rs_decode` accepts is a codeword.
use packet_radio_rs.Base.{
  ℕ, zero, suc, ◌+◌, ◌-◌, ◌/◌, ◌%◌, ◌^◌, ◌≤◌, ◌<◌, ◌≡◌, refl, sym, ap, subst, ◌∙◌, arith, Bool,
  true, false, List, [], ◌∷◌, ◌++◌, ◌⊎◌, inl, inr, ltb, leb, ◌==◌, if◌then◌else◌, length,
  length-set, length-append, length-take, length-drop, length-replicate, get_or, set, take,
  take-append, take-append-drop, drop, drop-append, replicate,
}
use packet_radio_rs.Fx25.Gf256.{gf_add, gf_pow_alpha}
use packet_radio_rs.Fx25.Rs.{
  max_check, max_n, RsError, RsResult, ok, err, ◌>>=◌, horner, syndromes_from, compute_syndromes,
  berlekamp_massey, chien_search, forney, correct, repair, rs_decode, too_many_errors,
}

-- A guard that returns an error was passed.
guard_passed :
    {A : Type 0} (b : Bool) (e : RsError) (x : RsResult A) (a : A)
    → (if b then err e else x) ≡ ok a
    → (b ≡ false) × (x ≡ ok a)
guard_passed true e x a h = ground (arith, h)
guard_passed false e x a h = (refl, h)

bind_passed :
    {A B : Type 0} (r : RsResult A) (f : A → RsResult B) (b : B)
    → (r >>= f) ≡ ok b
    → (a : A) × (r ≡ ok a) × (f a ≡ ok b)
bind_passed (ok a) f b h = (a, refl, h)
bind_passed (err e) f b h = ground (arith, h)

ok_inj : {A : Type 0} (a b : A) → ◌≡◌ {A = RsResult A} (ok a) (ok b) → a ≡ b
ok_inj {A} a b h = ap (λ (r : RsResult A). elim r [ ok x ↦ x | err e ↦ a ]) h

verified :
    {A : Type 0} (b : Bool) (e : RsError) (x a : A)
    → ◌≡◌ {A = RsResult A} (if b then ok x else err e) (ok a)
    → (b ≡ true) × (x ≡ a)
verified true e x a h = (refl, ok_inj x a h)
verified false e x a h = ground (arith, h)

-- `all_zero` means that every syndrome is zero.
syndromes_zero :
    (n s : ℕ) (codeword syndromes : List ℕ) (b : Bool)
    → (syndromes_from n s codeword syndromes b).1 ≡ true
    → (b ≡ true) × ((i : ℕ) → i < n → horner codeword (gf_pow_alpha ((s + i + 1) % 2 ^ 8)) 0 ≡ 0)
unfolding syndromes_from
syndromes_zero zero s codeword syndromes b h = (h, λ i l. absurd (omega arith))
syndromes_zero (suc n) s codeword syndromes b h =
    let val = horner codeword (gf_pow_alpha ((s + 1) % 2 ^ 8)) 0 in
    let (now, later) =
      syndromes_zero n (s + 1) codeword (set syndromes s val) (if val == 0 then b else false) h in
    let zero_now : val ≡ 0 = ground (arith, now) in
    (ground (arith, now), λ i l. each val zero_now later i l)
  where
    each :
        (val : ℕ)
        → horner codeword (gf_pow_alpha ((s + 1) % 2 ^ 8)) 0 ≡ 0
        → ((i : ℕ) → i < n → horner codeword (gf_pow_alpha ((s + 1 + i + 1) % 2 ^ 8)) 0 ≡ 0)
        → (i : ℕ) → i < suc n
        → horner codeword (gf_pow_alpha ((s + i + 1) % 2 ^ 8)) 0 ≡ 0
    each val z later zero l =
        ap (λ (t : ℕ). horner codeword (gf_pow_alpha (t % 2 ^ 8)) 0) (omega arith) ∙ z
    each val z later (suc i) l =
        ap (λ (t : ℕ). horner codeword (gf_pow_alpha (t % 2 ^ 8)) 0) (omega arith)
        ∙ later i (omega arith)

take-set_behind : (xs : List ℕ) (n m v : ℕ) → n ≤ m → take n (set xs m v) ≡ take n xs
take-set_behind xs zero m v h = refl
take-set_behind [] (suc n) m v h = refl
take-set_behind (x ∷ xs) (suc n) zero v h = absurd (omega arith)
take-set_behind (x ∷ xs) (suc n) (suc m) v h = ap (◌∷◌ x) (take-set_behind xs n m v (omega arith))

-- A correction leaves the padding alone.
correct_lem :
    (k i pad : ℕ) (positions mags padded fixed : List ℕ)
    → correct k i pad positions mags padded ≡ ok fixed
    → (length fixed ≡ length padded) × (take pad fixed ≡ take pad padded)
unfolding correct
correct_lem zero i pad positions mags padded fixed h =
    let e = ok_inj padded fixed h in (sym (ap length e), sym (ap (take pad) e))
correct_lem (suc k) i pad positions mags padded fixed h =
    let pos = get_or positions i 0 in
    let v = gf_add (get_or padded pos 0) (get_or mags i 0) in
    let rest = correct k (i + 1) pad positions mags (set padded pos v) in
    let (inside, h') =
      guard_passed (ltb pos pad) too_many_errors
        (if leb max_n pos then err too_many_errors else rest) fixed h in
    let (_, h'') = guard_passed (leb max_n pos) too_many_errors rest fixed h' in
    let behind : pad ≤ pos = ground (arith, inside) in
    let (size, front) = correct_lem k (i + 1) pad positions mags (set padded pos v) fixed h'' in
    (size ∙ length-set padded pos v, front ∙ take-set_behind padded pad pos v behind)

-- A repaired block has its padding and no syndromes left.
repair_lem :
    (syndromes : List ℕ) (nsym num_errors : ℕ) (lambda : List ℕ) (pad : ℕ) (padded fixed : List ℕ)
    → repair syndromes nsym num_errors lambda pad padded ≡ ok fixed
    → (length fixed ≡ length padded)
      × (take pad fixed ≡ take pad padded)
      × ((compute_syndromes fixed nsym (replicate max_check 0)).1 ≡ true)
unfolding repair
repair_lem syndromes nsym num_errors lambda pad padded fixed h =
    let (positions, _, h') =
      bind_passed (chien_search lambda num_errors max_n (replicate max_check 0)) _ fixed h in
    let mags =
      forney (take nsym syndromes) lambda num_errors positions max_n nsym (replicate max_check 0) in
    let (after, corrected, h'') =
      bind_passed (correct num_errors 0 pad positions mags padded) _ fixed h' in
    let (clean, same) =
      verified (compute_syndromes after nsym (replicate max_check 0)).1 too_many_errors after fixed
        h'' in
    let (size, front) = correct_lem num_errors 0 pad positions mags padded after corrected in
    subst
      (λ (f : List ℕ).
        (length f ≡ length padded)
        × (take pad f ≡ take pad padded)
        × ((compute_syndromes f nsym (replicate max_check 0)).1 ≡ true))
      same (size, front, clean)

-- A codeword of `n` bytes with its padding.
abbrev pub padded_word : ℕ → List ℕ → List ℕ
padded_word n codeword = replicate (max_n - n) 0 ++ take n codeword

-- A codeword after decoding.
pub record IsDecoded (codeword : List ℕ) (n nsym k : ℕ) (out : List ℕ) : Type 0 where
  pub size : length out ≡ length codeword
  pub rest_kept : drop n out ≡ drop n codeword
  pub few : k ≤ nsym / 2
  pub no_syndrome : (s : ℕ) → s < nsym → horner (padded_word n out) (gf_pow_alpha (s + 1)) 0 ≡ 0

clean_lem :
    (codeword : List ℕ) (nsym : ℕ)
    → nsym ≤ 64
    → (compute_syndromes codeword nsym (replicate max_check 0)).1 ≡ true
    → (s : ℕ) → s < nsym
    → horner codeword (gf_pow_alpha (s + 1)) 0 ≡ 0
unfolding compute_syndromes
clean_lem codeword nsym f h s l =
    ap (λ (t : ℕ). horner codeword (gf_pow_alpha t) 0) (omega arith)
    ∙ (syndromes_zero nsym 0 codeword (replicate max_check 0) true h).1 s l

-- The codeword that is copied back from the repaired block.
copied_back :
    (codeword fixed : List ℕ) (n nsym k : ℕ)
    → nsym ≤ 64
    → n ≤ 255
    → n ≤ length codeword
    → k ≤ nsym / 2
    → length fixed ≡ length (padded_word n codeword)
    → take (max_n - n) fixed ≡ take (max_n - n) (padded_word n codeword)
    → (compute_syndromes fixed nsym (replicate max_check 0)).1 ≡ true
    → IsDecoded codeword n nsym k (drop (max_n - n) fixed ++ drop n codeword)
copied_back codeword fixed n nsym k f g l few size front clean =
    let pad = max_n - n in
    let back = drop pad fixed in
    let long : length (padded_word n codeword) ≡ 255 = omega (
      arith,
      length-append (replicate {A = ℕ} pad 0) (take n codeword),
      length-replicate {A = ℕ} pad 0,
      length-take n codeword,
    ) in
    let behind : n ≡ length back = omega (arith, length-drop pad fixed, size, long) in
    let zeros : take pad (padded_word n codeword) ≡ replicate pad 0 =
      ap (λ (t : ℕ). take t (padded_word n codeword)) (sym (length-replicate {A = ℕ} pad 0))
      ∙ take-append (replicate pad 0) (take n codeword) in
    let whole : padded_word n (back ++ drop n codeword) ≡ fixed =
      ap (λ t. replicate pad 0 ++ t)
        (ap (λ (t : ℕ). take t (back ++ drop n codeword)) behind
          ∙ take-append back (drop n codeword))
      ∙ ap (λ t. t ++ back) (sym (front ∙ zeros))
      ∙ take-append-drop pad fixed in
    record {
      size = omega (arith, length-append back (drop n codeword), length-drop n codeword, behind);
      rest_kept =
          ap (λ (t : ℕ). drop t (back ++ drop n codeword)) behind
          ∙ drop-append back (drop n codeword);
      few = few;
      no_syndrome = λ s m.
          ap (λ t. horner t (gf_pow_alpha (s + 1)) 0) whole ∙ clean_lem fixed nsym f clean s m;
    }

-- A codeword that is left as it is.
untouched :
    (codeword : List ℕ) (n nsym : ℕ)
    → nsym ≤ 64
    → (compute_syndromes (padded_word n codeword) nsym (replicate max_check 0)).1 ≡ true
    → IsDecoded codeword n nsym 0 codeword
untouched codeword n nsym f clean = record {
  size = refl;
  rest_kept = refl;
  few = omega arith;
  no_syndrome = clean_lem (padded_word n codeword) nsym f clean;
}

either :
    {A : Type 0} (b : Bool) (x y : RsResult A) (a : A)
    → (if b then x else y) ≡ ok a
    → ((b ≡ true) × (x ≡ ok a)) ⊎ (y ≡ ok a)
either true x y a h = inl (refl, h)
either false x y a h = inr h

-- When `rs_decode` returns a number of corrections, that number is at most half of the check
-- bytes, the codeword has kept its length and the bytes behind its `n` bytes, and padded with
-- zeros to 255 bytes it is zero at every root of the code.
pub rs_decode_sound :
    (codeword : List ℕ) (n nsym k : ℕ) (out : List ℕ)
    → n ≤ length codeword
    → rs_decode codeword n nsym ≡ ok (k, out)
    → IsDecoded codeword n nsym k out
unfolding rs_decode
rs_decode_sound codeword n nsym k out l h =
    let padded = padded_word n codeword in
    let found = compute_syndromes padded nsym (replicate max_check 0) in
    let located = berlekamp_massey found.0 nsym (replicate (max_check + 1) 0) in
    let (small, h1) = guard_passed (ltb max_check nsym) _ _ (k, out) h in
    let (_, h2) = guard_passed (nsym == 0) _ _ (k, out) h1 in
    let (short, h3) = guard_passed (ltb max_n n) _ _ (k, out) h2 in
    let f : nsym ≤ 64 = ground (arith, small) in
    let g : n ≤ 255 = ground (arith, short) in
    elim (either found.1 _ _ (k, out) h3) [
      | inl (clean, e) ↦
          subst (λ (p : ℕ × List ℕ). IsDecoded codeword n nsym p.0 p.1)
            (ok_inj (0, codeword) (k, out) e) (untouched codeword n nsym f clean)
      | inr h4 ↦
          let (_, h5) = guard_passed (located.0 == 0) _ _ (k, out) h4 in
          let (half, h6) = guard_passed (ltb (nsym / 2) located.0) _ _ (k, out) h5 in
          let few : located.0 ≤ nsym / 2 = ground (arith, half) in
          let (fixed, repaired, h7) =
            bind_passed (repair found.0 nsym located.0 located.1 (max_n - n) padded) _ (k, out)
              h6 in
          let (size, front, clean) =
            repair_lem found.0 nsym located.0 located.1 (max_n - n) padded fixed repaired in
          subst (λ (p : ℕ × List ℕ). IsDecoded codeword n nsym p.0 p.1)
            (ok_inj (located.0, drop (max_n - n) fixed ++ drop n codeword) (k, out) h7)
            (copied_back codeword fixed n nsym located.0 f g l few size front clean)
    ]
