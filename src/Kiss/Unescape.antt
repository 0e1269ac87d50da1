-- ===== src/Kiss/Unescape.antt =====
-- The text that escaped bytes stand for: the independent description of the decoder.
use mathlib.Core.List.{append-nil, append_assoc}
use packet_radio_rs.Base.{
  ℕ, ◌≡◌, refl, sym, ap, ◌∙◌, Bool, ◌&&◌, List, [], ◌∷◌, ◌++◌, ◌==◌, if◌then◌else◌,
}
use packet_radio_rs.Kiss.{fend, fesc, tfend, tfesc}

-- The character that a byte stands for, behind FESC or not: one that ends no escape stands for itself.
abbrev pub character : Bool → ℕ → ℕ
character escape b = if escape && b == tfend then fend else if escape && b == tfesc then fesc else b

-- FESC itself stands for nothing.
abbrev pub text_of : Bool → ℕ → List ℕ
text_of escape b = if b == fesc then [] else character escape b ∷ []

-- The text that escaped bytes stand for.
abbrev pub unescape : Bool → List ℕ → List ℕ
unescape escape [] = []
unescape escape (b ∷ bytes) = text_of escape b ++ unescape (b == fesc) bytes

-- Whether the last byte was FESC.
unfoldable pub escaped_by : Bool → List ℕ → Bool
escaped_by escape [] = escape
escaped_by escape (b ∷ bytes) = escaped_by (b == fesc) bytes

pub unescape_last :
    (bytes : List ℕ) (escape : Bool) (b : ℕ)
    → unescape escape (bytes ++ b ∷ [])
      ≡ unescape escape bytes ++ text_of (escaped_by escape bytes) b
unfolding escaped_by
unescape_last [] escape b = append-nil (text_of escape b)
unescape_last (x ∷ bytes) escape b =
    ap (λ t. text_of escape x ++ t) (unescape_last bytes (x == fesc) b)
    ∙ sym (append_assoc (text_of escape x) _ _)

pub escaped_by_last :
    (bytes : List ℕ) (escape : Bool) (b : ℕ) → escaped_by escape (bytes ++ b ∷ []) ≡ (b == fesc)
unfolding escaped_by
escaped_by_last [] escape b = refl
escaped_by_last (x ∷ bytes) escape b = escaped_by_last bytes (x == fesc) b
