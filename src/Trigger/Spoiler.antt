-- ===== src/Trigger/Spoiler.antt =====
-- pkg/trigger/spoiler.go. The loop runs on fuel: each round drops a span and its two markers.
pub mod Hidden
use gin_bot.Base.{
  ℕ, zero, suc, Bool, true, false, ◌&&◌, List, [], ◌∷◌, ◌++◌, Option, none, some, ◌==◌, length,
  if◌then◌else◌, ◌≡◌, refl,
}
use gin_bot.Base.Text.{Text, codes, is_space}

-- What `strings.Index(s, "||")` splits off: the text before the first marker, and the text after.
abbrev pub before : ℕ → Option (Text × Text) → Option (Text × Text)
before c none = none
before c (some (a, r)) = some (c ∷ a, r)

unfoldable pub cut_marker : Text → Option (Text × Text)
cut_marker [] = none
cut_marker (c ∷ []) = none
cut_marker (c ∷ d ∷ s) =
    let rest = before c (cut_marker (d ∷ s)) in
    if c == b'|' then (if d == b'|' then some ([], s) else rest) else rest

-- `strings.Fields`: the runs of characters that are no spaces. The second argument is the run
-- being read, and the third says whether there is one.
unfoldable fields_from : Text → Text → List Text
unfolding is_space
fields_from [] [] = []
fields_from [] (d ∷ run) = (d ∷ run) ∷ []
fields_from (c ∷ s) [] = fields_from s (if is_space c then [] else c ∷ [])
fields_from (c ∷ s) (d ∷ run) =
    let split = fields_from s [] in
    let more = fields_from s ((d ∷ run) ++ c ∷ []) in if is_space c then (d ∷ run) ∷ split else more

unfoldable pub fields : Text → List Text
unfolding fields_from
fields s = fields_from s []

-- strings.Join(parts, " ")
unfoldable pub join_spaces : List Text → Text
join_spaces [] = []
join_spaces (p ∷ []) = p
join_spaces (p ∷ q ∷ ps) = p ++ (32 ∷ join_spaces (q ∷ ps))

-- The loop over `i`; without an opening or a closing marker the rest is copied.
unfoldable pub strip_spans : ℕ → Text → Text
unfolding cut_marker
strip_spans zero s = s
strip_spans (suc fuel) s = elim (cut_marker s) [
  | none ↦ s
  | some (a, r) ↦ elim (cut_marker r) [
    | none ↦ s
    | some (hidden, rest) ↦ a ++ (32 ∷ strip_spans fuel rest)
  ]
]

unfoldable pub strip_spoilers : Text → Text
unfolding strip_spans fields join_spaces
strip_spoilers s = join_spaces (fields (strip_spans (suc (length s)) s))

spoiler_test : strip_spoilers (codes " say ||secret|| word ||open") ≡ codes "say word ||open"
unfolding strip_spoilers
spoiler_test = refl
