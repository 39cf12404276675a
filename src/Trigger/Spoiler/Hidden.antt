-- ===== src/Trigger/Spoiler/Hidden.antt =====
-- What stands between two markers does not reach the matcher.
use gin_bot.Base.{
  List, All, ◌⊎◌, ℕ, zero, suc, ◌<◌, [], ◌∷◌, ◌++◌, none, some, length, length-append, ◌≡◌, refl,
  ap, ◌∙◌, arith, inl, inr,
}
use gin_bot.Base.Text.{Text}
use gin_bot.Trigger.Spoiler.{cut_marker, fields, join_spaces, strip_spans, strip_spoilers}

abbrev marker : Text
marker = b'|' ∷ b'|' ∷ []

-- The text holds no marker and does not end with a bar.
abbrev Unmarked : Text → Type 0
Unmarked a = cut_marker (a ++ b'|' ∷ []) ≡ none

cut_marker-append : (a x : Text) → Unmarked a → cut_marker (a ++ (b'|' ∷ b'|' ∷ x)) ≡ some (a, x)
unfolding cut_marker
cut_marker-append [] x h = refl
cut_marker-append (c ∷ []) x h = ground arith
cut_marker-append (c ∷ d ∷ a) x h = ground (arith, cut_marker-append (d ∷ a) x)

strip_spans-hidden :
    (f : ℕ) (a h rest : Text)
    → Unmarked a
    → Unmarked h
    → strip_spans (suc f) (a ++ (b'|' ∷ b'|' ∷ (h ++ (b'|' ∷ b'|' ∷ rest))))
      ≡ a ++ (32 ∷ strip_spans f rest)
unfolding strip_spans
strip_spans-hidden f a h rest ua uh =
    rw
      (cut_marker-append a (h ++ (b'|' ∷ b'|' ∷ rest)) ua, cut_marker-append h rest uh, strip_spans)

length-hidden :
    (a h rest : Text) → length rest < length (a ++ (b'|' ∷ b'|' ∷ (h ++ (b'|' ∷ b'|' ∷ rest))))
length-hidden a h rest = omega (
  arith,
  length-append a (b'|' ∷ b'|' ∷ (h ++ (b'|' ∷ b'|' ∷ rest))),
  length-append h (b'|' ∷ b'|' ∷ rest),
)

-- A text with spans: before each span, the text that is shown and the text that is hidden.
unfoldable pub spelled : List (Text × Text) → Text → Text
spelled [] tail = tail
spelled ((a, h) ∷ spans) tail = a ++ (b'|' ∷ b'|' ∷ (h ++ (b'|' ∷ b'|' ∷ spelled spans tail)))

-- The same with one space in place of each span and its markers.
unfoldable pub shown : List (Text × Text) → Text → Text
shown [] tail = tail
shown ((a, h) ∷ spans) tail = a ++ (32 ∷ shown spans tail)

-- No marker, or a single one that nothing closes.
abbrev pub IsUnclosed : Text → Type 0
IsUnclosed t =
    (cut_marker t ≡ none) ⊎ ((p : Text × Text) × (cut_marker t ≡ some p) × (cut_marker p.1 ≡ none))

abbrev pub IsSpan : Text × Text → Type 0
IsSpan (a, h) = Unmarked a × Unmarked h

strip_spans-unclosed : (f : ℕ) (t : Text) → IsUnclosed t → strip_spans (suc f) t ≡ t
unfolding strip_spans
strip_spans-unclosed f t (inl e) = rw (e, strip_spans) refl
strip_spans-unclosed f t (inr (p, e, e')) = rw (e, e', strip_spans) refl

strip_spans-spelled :
    (spans : List (Text × Text)) (tail : Text) (f : ℕ)
    → All IsSpan spans
    → IsUnclosed tail
    → length (spelled spans tail) < f
    → strip_spans f (spelled spans tail) ≡ shown spans tail
unfolding spelled shown
strip_spans-spelled spans tail zero each open_tail h = absurd (omega arith)
strip_spans-spelled [] tail (suc f) each open_tail h = strip_spans-unclosed f tail open_tail
strip_spans-spelled ((a, s) ∷ spans) tail (suc f) ((ua, us), each) open_tail h =
    strip_spans-hidden f a s (spelled spans tail) ua us
    ∙ ap (λ t. a ++ (32 ∷ t))
        (strip_spans-spelled spans tail f each open_tail
          (omega (arith, length-hidden a s (spelled spans tail))))

-- Spoilered text has no influence, in any number of spans: a text whose markers pair up into
-- spans, where neither the text before a span nor the text inside it holds a marker or ends with a
-- bar, is left for the matcher as the words of the text with a space in place of each span and its
-- markers. Behind the last span stands no marker, or one that nothing closes, and that rest is kept.
pub strip_spoilers-hidden :
    (spans : List (Text × Text)) (tail : Text)
    → All IsSpan spans
    → IsUnclosed tail
    → strip_spoilers (spelled spans tail) ≡ join_spaces (fields (shown spans tail))
unfolding strip_spoilers
strip_spoilers-hidden spans tail each open_tail =
    ap (λ t. join_spaces (fields t))
      (strip_spans-spelled spans tail (suc (length (spelled spans tail))) each open_tail
        (omega arith))
