-- ===== src/Command/Chat/Prefix.antt =====
-- The prefix that a message is read behind.
use gin_bot.Base.{
  ◌≤◌, true, false, ◌||◌, List, [], ◌∷◌, none, some, if◌then◌else◌, leb, ◌≡◌, ◌≢◌, refl, sym,
  some-eq, ◌∙◌, arith, Elem, ◌⊎◌, inl, inr, Bool-cases,
}
use gin_bot.Base.Text.{Text, byte_len, has_prefix}
use gin_bot.Command.Registry.{is_blank}
use gin_bot.Command.Chat.{longest_prefix, match_prefix, nonblank}

-- The result is one of the candidates that the message begins with, or the one at the start.
abbrev Chosen : Text → Text → Text → List Text → Type 0
Chosen content longest r ps = (r ≡ longest) ⊎ (Elem r ps × (has_prefix content r ≡ true))

module _ (content : Text) where
  abbrev next : Text → Text → Text
  next longest p =
      if is_blank p || leb (byte_len p) (byte_len longest)
      then longest
      else if has_prefix content p
      then p
      else longest

  next_cases :
      (longest p : Text)
      → (next longest p ≡ longest) ⊎ ((next longest p ≡ p) × (has_prefix content p ≡ true))
  next_cases longest p = ground arith

  next-le : (longest p : Text) → byte_len longest ≤ byte_len (next longest p)
  next-le longest p = ground arith

  next_covers :
      (longest p : Text) → has_prefix content p ≡ true → byte_len p ≤ byte_len (next longest p)
  next_covers longest [] h = omega arith
  next_covers longest (c ∷ s) h = ground arith

  longest_prefix-Chosen :
      (longest : Text) (ps : List Text)
      → Chosen content longest (longest_prefix content longest ps) ps
  unfolding longest_prefix
  longest_prefix-Chosen longest [] = inl refl
  longest_prefix-Chosen longest (p ∷ ps) = elim (longest_prefix-Chosen (next longest p) ps) [
    | inl same ↦ elim (next_cases longest p) [
      | inl old ↦ inl (same ∙ old)
      | inr (taken, hit) ↦ inr (inl (same ∙ taken), rw (same ∙ taken) hit)
    ]
    | inr (there, hit) ↦ inr (inr there, hit)
  ]

  longest_prefix-le :
      (longest : Text) (ps : List Text)
      → byte_len longest ≤ byte_len (longest_prefix content longest ps)
  unfolding longest_prefix
  longest_prefix-le longest [] = omega arith
  longest_prefix-le longest (p ∷ ps) =
      omega (arith, next-le longest p, longest_prefix-le (next longest p) ps)

  longest_prefix_covers :
      (longest q : Text) (ps : List Text)
      → Elem q ps
      → has_prefix content q ≡ true
      → byte_len q ≤ byte_len (longest_prefix content longest ps)
  unfolding longest_prefix
  longest_prefix_covers longest q [] e h = absurd e
  longest_prefix_covers longest q (p ∷ ps) (inl e) h =
      let covered : byte_len q ≤ byte_len (next longest p) =
        rw e (next_covers longest p (rw e at h)) in
      omega (arith, covered, longest_prefix-le (next longest p) ps)
  longest_prefix_covers longest q (p ∷ ps) (inr e) h =
      longest_prefix_covers (next longest p) q ps e h

nonblank-some : (s : Text) {t : Text} → nonblank s ≡ some t → (s ≡ t) × (t ≢ [])
nonblank-some [] h = absurd (cc)
nonblank-some (c ∷ s) h = (some-eq h, λ e. ground arith)

-- The matched prefix is a listed one that the message begins with, and it is not empty.
match_prefix-some :
    (content : Text) (prefixes : List Text) {p : Text}
    → match_prefix content prefixes ≡ some p
    → Elem p prefixes × (has_prefix content p ≡ true) × (p ≢ [])
unfolding match_prefix
match_prefix-some content prefixes {p} h =
    let (eq, ne) = nonblank-some (longest_prefix content [] prefixes) h in
    elim (longest_prefix-Chosen content [] prefixes) [
      | inl start ↦ absurd (ne (sym eq ∙ start))
      | inr (there, hit) ↦ (rw (← eq) there, rw (← eq) hit, ne)
    ]

-- No listed prefix that the message begins with has more bytes than the matched one.
match_prefix_longest :
    (content : Text) (prefixes : List Text) (q : Text) {p : Text}
    → match_prefix content prefixes ≡ some p
    → Elem q prefixes
    → has_prefix content q ≡ true
    → byte_len q ≤ byte_len p
unfolding match_prefix
match_prefix_longest content prefixes q h e hq =
    rw (← (nonblank-some (longest_prefix content [] prefixes) h).0)
      (longest_prefix_covers content [] q prefixes e hq)

nonblank-none : (s : Text) → nonblank s ≡ none → s ≡ []
nonblank-none [] h = refl
nonblank-none (c ∷ s) h = absurd (cc)

byte_len-zero : (s : Text) → byte_len s ≤ 0 → s ≡ []
byte_len-zero [] h = refl
byte_len-zero (c ∷ s) h = absurd (ground arith)

-- When no prefix is matched, the message begins with none of the listed ones that are not empty.
match_prefix-none :
    (content : Text) (prefixes : List Text) (q : Text)
    → match_prefix content prefixes ≡ none
    → Elem q prefixes
    → q ≢ []
    → has_prefix content q ≡ false
unfolding match_prefix
match_prefix-none content prefixes q h e ne = elim (Bool-cases (has_prefix content q)) [
  | inl hq ↦
      let empty = nonblank-none (longest_prefix content [] prefixes) h in
      let covered : byte_len q ≤ byte_len [] =
        rw empty at (longest_prefix_covers content [] q prefixes e hq) in
      absurd (ne (byte_len-zero q covered))
  | inr miss ↦ miss
]
