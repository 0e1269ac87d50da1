-- ===== src/Ax25/Frame/Digipeaters.antt =====
-- The digipeater loop reads a list of addresses whose last one is marked.
use mathlib.Core.List.{append_assoc}
use packet_radio_rs.Base.{
  ℕ, zero, suc, ◌+◌, ◌-◌, ◌*◌, ◌≤◌, ◌≡◌, ◌≢◌, refl, sym, ap, ap₂, ◌∙◌, arith, Bool, true, false,
  List, [], ◌∷◌, ◌++◌, All, length, length-append, set-append, replicate, leb, le→leb,
  if◌then◌else◌,
}
use packet_radio_rs.Ax25.Address.{Address, to_bytes}
use packet_radio_rs.Ax25.Address.RoundTrip.{IsAddress}
use packet_radio_rs.Ax25.Frame.{ok, blank, Route, next_route, read_route}
use packet_radio_rs.Ax25.Frame.Slices.{length-to_bytes, address_at_lem, extension_bit}

-- Digipeater addresses on the wire: the last one carries the extension bit.
abbrev pub wire_route : List Address → List ℕ
wire_route [] = []
wire_route (a ∷ []) = to_bytes a true
wire_route (a ∷ b ∷ rest) = to_bytes a false ++ wire_route (b ∷ rest)

pub length-wire_route :
    (route : List Address) → All IsAddress route → length (wire_route route) ≡ 7 * length route
length-wire_route [] h = refl
length-wire_route (a ∷ []) h = length-to_bytes a true h.0.six
length-wire_route (a ∷ b ∷ rest) h = omega (
  arith,
  length-append (to_bytes a false) (wire_route (b ∷ rest)),
  length-to_bytes a false h.0.six,
  length-wire_route (b ∷ rest) h.1,
)

-- One round of the loop, at an address that stands whole in the data.
read_route_step :
    (n : ℕ) (a : Address) (l : Bool) (pre rest : List ℕ) (p : Route)
    → IsAddress a
    → p.pos ≡ length pre
    → read_route (suc n) (pre ++ (to_bytes a l ++ rest)) p ≡ (
        if l
        then ok (next_route p a)
        else read_route n (pre ++ (to_bytes a l ++ rest)) (next_route p a))
unfolding read_route
read_route_step n a l pre rest p i h =
    let room : leb (p.pos + 7) (length (pre ++ (to_bytes a l ++ rest))) ≡ true =
      le→leb (p.pos + 7) (length (pre ++ (to_bytes a l ++ rest))) (
        omega (
          arith,
          length-append pre (to_bytes a l ++ rest),
          length-append (to_bytes a l) rest,
          length-to_bytes a l i.six,
        )) in
    rw (room, address_at_lem a l pre rest p.pos i h, extension_bit a l pre rest p.pos i h) refl

-- The loop's variables when `route` was read behind `done`.
abbrev pub read_from : List Address → List Address → ℕ → ℕ → Route
read_from done route n pos = record {
  digipeaters = done ++ (route ++ replicate (n - length route) blank);
  num_digipeaters = length done + length route;
  pos = pos + 7 * length route;
}

next_route_lem :
    (a : Address) (done : List Address) (n pos : ℕ)
    → next_route
        (record {
          digipeaters = done ++ replicate (suc n) blank;
          num_digipeaters = length done;
          pos = pos;
        })
        a
      ≡ record {
        digipeaters = (done ++ a ∷ []) ++ replicate n blank;
        num_digipeaters = length (done ++ a ∷ []);
        pos = pos + 7;
      }
next_route_lem a done n pos =
    rw
      (
        set-append done (replicate n blank) blank a,
        length-append done (a ∷ []),
        append_assoc done (a ∷ []) (replicate n blank),
      )
      refl

-- The loop's variables when the addresses `done` were read and `n` places are left.
abbrev so_far : List Address → ℕ → ℕ → Route
so_far done n pos = record {
  digipeaters = done ++ replicate n blank;
  num_digipeaters = length done;
  pos = pos;
}

Route-eq :
    (d e : List Address) (m n p q : ℕ)
    → d ≡ e
    → m ≡ n
    → p ≡ q
    → ◌≡◌ {A = Route}
        (record { digipeaters = d; num_digipeaters = m; pos = p })
        (record { digipeaters = e; num_digipeaters = n; pos = q })
Route-eq d e m n p q r s t = λ i. record { digipeaters = r i; num_digipeaters = s i; pos = t i }

read_from_nil :
    (done : List Address) (n pos : ℕ)
    → record { digipeaters = done ++ replicate n blank; num_digipeaters = length done; pos = pos }
      ≡ read_from done [] n pos
read_from_nil done n pos =
    Route-eq _ _ _ _ _ _ (ap (λ (k : ℕ). done ++ replicate k blank) (omega arith)) (omega arith)
      (omega arith)

read_from_cons :
    (a : Address) (route done : List Address) (n pos : ℕ)
    → read_from (done ++ a ∷ []) route n (pos + 7) ≡ read_from done (a ∷ route) (suc n) pos
read_from_cons a route done n pos =
    Route-eq _ _ _ _ _ _
      (append_assoc done (a ∷ []) _
        ∙ ap (λ (k : ℕ). done ++ (a ∷ (route ++ replicate k blank))) (omega arith))
      (omega (arith, length-append done (a ∷ []))) (omega arith)

pub read_route-wire_route :
    (route done : List Address) (n pos : ℕ) (pre rest : List ℕ)
    → route ≢ []
    → length route ≤ n
    → All IsAddress route
    → pos ≡ length pre
    → read_route n (pre ++ (wire_route route ++ rest)) (record {
      digipeaters = done ++ replicate n blank;
      num_digipeaters = length done;
      pos = pos;
    })
      ≡ ok (read_from done route n pos)
read_route-wire_route [] done n pos pre rest ne h i p = absurd (ne refl)
read_route-wire_route (a ∷ route) done zero pos pre rest ne h i p = absurd (omega arith)
read_route-wire_route (a ∷ []) done (suc n) pos pre rest ne h i p =
    read_route_step n a true pre rest _ i.0 p
    ∙ ap ok (
        next_route_lem a done n pos
        ∙ read_from_nil (done ++ a ∷ []) n (pos + 7)
        ∙ read_from_cons a [] done n pos)
read_route-wire_route (a ∷ b ∷ route) done (suc n) pos pre rest ne h i p =
    let later = wire_route (b ∷ route) in
    let first = to_bytes a false in
    let behind : pos + 7 ≡ length (pre ++ first) =
      omega (arith, length-append pre first, length-to_bytes a false i.0.six) in
    ap (λ t. read_route (suc n) t (so_far done (suc n) pos))
      (ap (λ t. pre ++ t) (append_assoc first later rest))
    ∙ read_route_step n a false pre (later ++ rest) _ i.0 p
    ∙ ap₂ (read_route n) (sym (append_assoc pre first (later ++ rest)))
        (next_route_lem a done n pos)
    ∙ read_route-wire_route (b ∷ route) (done ++ a ∷ []) n (pos + 7) (pre ++ first) rest (λ e. cc)
        (omega arith) i.1 behind
    ∙ ap ok (read_from_cons a (b ∷ route) done n pos)
