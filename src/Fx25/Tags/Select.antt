-- ===== src/Fx25/Tags/Select.antt =====
-- `select_tag` finds the shortest code that holds the data.
use mathlib.Core.List.{append-nil, append_assoc}
use packet_radio_rs.Base.{
  ℕ, zero, suc, ◌+◌, ◌≤◌, ◌<◌, ◌≡◌, refl, sym, subst, arith, inl, inr, true, false, Option, none,
  some, List, [], ◌∷◌, ◌++◌, All, All-append, length, length-append, get_elem?, Bool-cases,
}
use packet_radio_rs.Fx25.Tags.{Fx25Tag, fx25_tags, takes, select_from, select_tag}

module _ (data_len min_check : ℕ) where
  -- A code with enough check bytes, at least one, that holds the data.
  pub record Fits (t : Fx25Tag) : Type 0 where
    pub enough : min_check ≤ t.check_bytes
    pub some_check : 0 < t.check_bytes
    pub holds_data : data_len ≤ t.rs_k

  -- What a choice among the tags means: none if none fits, else one that fits and is not longer
  -- than any other that fits.
  abbrev pub Choice : List Fx25Tag → Option ℕ → Type 0
  Choice tags none = All (λ u. ¬ Fits u) tags
  Choice tags (some i) =
      (t : Fx25Tag) × (get_elem? tags i ≡ some t)
      × Fits t
      × All (λ u. Fits u → t.rs_n ≤ u.rs_n) tags

  -- The loop's variables after some tags.
  abbrev Best : List Fx25Tag → Option ℕ → ℕ → Type 0
  Best seen none n = (n ≡ 0xFFFF) × All (λ u. ¬ Fits u) seen
  Best seen (some i) n =
      (t : Fx25Tag) × (get_elem? seen i ≡ some t)
      × Fits t
      × (n ≡ t.rs_n)
      × All (λ u. Fits u → n ≤ u.rs_n) seen

  Best-Choice : (seen : List Fx25Tag) (r : Option ℕ) (n : ℕ) → Best seen r n → Choice seen r
  Best-Choice seen none n b = b.1
  Best-Choice seen (some i) n (t, here, f, e, least) =
      (t, here, f, subst (λ (m : ℕ). All (λ u. Fits u → m ≤ u.rs_n) seen) e least)

  takes-Fits : (n : ℕ) (t : Fx25Tag) → takes data_len min_check n t ≡ true → Fits t × (t.rs_n < n)
  unfolding takes
  takes-Fits n t h = (
    record {
      enough = ground (arith, h);
      some_check = ground (arith, h);
      holds_data = ground (arith, h);
    },
    ground (arith, h),
  )

  refuses : (n : ℕ) (t : Fx25Tag) → takes data_len min_check n t ≡ false → Fits t → n ≤ t.rs_n
  unfolding takes
  refuses n t h f = ground (arith, h, f.enough, f.some_check, f.holds_data)

  All-weaken :
      (P Q : Fx25Tag → Type 0) (ts : List Fx25Tag)
      → ((u : Fx25Tag) → P u → Q u)
      → All P ts
      → All Q ts
  All-weaken P Q [] f h = tt
  All-weaken P Q (t ∷ ts) f (p, h) = (f t p, All-weaken P Q ts f h)

  get_elem?-append :
      (seen : List Fx25Tag) (i : ℕ) (t u : Fx25Tag)
      → get_elem? seen i ≡ some t
      → get_elem? (seen ++ u ∷ []) i ≡ some t
  get_elem?-append [] i t u h = ground (arith, h)
  get_elem?-append (s ∷ seen) zero t u h = h
  get_elem?-append (s ∷ seen) (suc i) t u h = get_elem?-append seen i t u h

  get_elem?-last :
      (seen : List Fx25Tag) (t : Fx25Tag) → get_elem? (seen ++ t ∷ []) (length seen) ≡ some t
  get_elem?-last [] t = refl
  get_elem?-last (s ∷ seen) t = get_elem?-last seen t

  -- A tag that is not taken.
  Best-keep :
      (seen : List Fx25Tag) (t : Fx25Tag) (r : Option ℕ) (n : ℕ)
      → t.rs_n < 0xFFFF
      → takes data_len min_check n t ≡ false
      → Best seen r n
      → Best (seen ++ t ∷ []) r n
  Best-keep seen t none n l h (e, b) = (
    e,
    All-append (λ u. ¬ Fits u) seen (t ∷ []) b
        ((λ f. absurd (omega (arith, e, l, refuses n t h f))), tt),
  )
  Best-keep seen t (some i) n l h (u, here, f, e, b) = (
    u,
    get_elem?-append seen i u t here,
    f,
    e,
    All-append (λ u. Fits u → n ≤ u.rs_n) seen (t ∷ []) b (refuses n t h, tt),
  )

  -- A tag that is taken is shorter than all that fit before it.
  shorter :
      (seen : List Fx25Tag) (t : Fx25Tag) (r : Option ℕ) (n : ℕ)
      → t.rs_n < n
      → Best seen r n
      → All (λ u. Fits u → t.rs_n ≤ u.rs_n) seen
  shorter seen t none n l (e, b) =
      All-weaken (λ u. ¬ Fits u) (λ u. Fits u → t.rs_n ≤ u.rs_n) seen
        (λ u never f. absurd (never f)) b
  shorter seen t (some i) n l (u, here, f, e, b) =
      All-weaken (λ u. Fits u → n ≤ u.rs_n) (λ u. Fits u → t.rs_n ≤ u.rs_n) seen
        (λ u least f'. omega (arith, least f', l)) b

  Best-take :
      (seen : List Fx25Tag) (t : Fx25Tag) (r : Option ℕ) (n : ℕ)
      → takes data_len min_check n t ≡ true
      → Best seen r n
      → Best (seen ++ t ∷ []) (some (length seen)) t.rs_n
  Best-take seen t r n h b =
      let (f, l) = takes-Fits n t h in
      (
        t,
        get_elem?-last seen t,
        f,
        refl,
        All-append (λ u. Fits u → t.rs_n ≤ u.rs_n) seen (t ∷ []) (shorter seen t r n l b)
            ((λ f'. omega arith), tt),
      )

  select_from-Choice :
      (rest seen : List Fx25Tag) (r : Option ℕ) (n : ℕ)
      → All (λ u. u.rs_n < 0xFFFF) rest
      → Best seen r n
      → Choice (seen ++ rest) (select_from (length seen) rest data_len min_check r n)
  unfolding select_from
  select_from-Choice [] seen r n l b =
      subst (λ ts. Choice ts r) (sym (append-nil seen)) (Best-Choice seen r n b)
  select_from-Choice (t ∷ rest) seen r n l b =
      let next : length (seen ++ t ∷ []) ≡ length seen + 1 = length-append seen (t ∷ []) in
      subst (λ ts. Choice ts (select_from (length seen) (t ∷ rest) data_len min_check r n))
        (append_assoc seen (t ∷ []) rest)
        (elim (Bool-cases (takes data_len min_check n t)) [
          | inl taken ↦
              rw (taken, sym next)
                (select_from-Choice rest (seen ++ t ∷ []) (some (length seen)) t.rs_n l.1
                  (Best-take seen t r n taken b))
          | inr refused ↦
              rw (refused, sym next)
                (select_from-Choice rest (seen ++ t ∷ []) r n l.1
                  (Best-keep seen t r n l.0 refused b))
        ])

  -- `select_tag` gives none if no tag with at least the wanted check bytes, and at least one, holds
  -- the data; else the index of such a tag whose codeword is not longer than that of any other.
  pub select_tag-Choice : Choice fx25_tags (select_tag data_len min_check)
  unfolding select_tag
  select_tag-Choice = select_from-Choice fx25_tags [] none 0xFFFF (omega arith) (refl, tt)
