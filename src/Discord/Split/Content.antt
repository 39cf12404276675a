-- ===== src/Discord/Split/Content.antt =====
-- pkg/discord/respond.go: the bytes of the content in the chunks.
use gin_bot.Base.{
  ℕ, zero, suc, ◌==◌, ◌≡◌, refl, sym, ap, ◌∙◌, false, List, [], ◌∷◌, ◌++◌, append-nil, append_assoc,
  inl, inr, Bool-cases, if◌then◌else◌, leb, ltb, length, take, drop,
}
use gin_bot.Discord.{Bytes}
use gin_bot.Discord.Split.{
  cut_point, break_line, joined_length, join_line, close_chunk, add_line, add_lines, push_byte,
  split_lines, split_content,
}

-- The bytes that are not newlines.
unfoldable pub letters : Bytes → Bytes
letters [] = []
letters (b ∷ s) = let rest = letters s in if b == 10 then rest else b ∷ rest

unfoldable pub all_letters : List Bytes → Bytes
unfolding letters
all_letters [] = []
all_letters (s ∷ chunks) = letters s ++ all_letters chunks

letters-append : (s t : Bytes) → letters (s ++ t) ≡ letters s ++ letters t
unfolding letters
letters-append [] t = refl
letters-append (b ∷ s) t = elim (Bool-cases (b == 10)) [
  | inl e ↦ rw e (letters-append s t)
  | inr e ↦ rw e (ap (λ r. b ∷ r) (letters-append s t))
]

all_letters-append :
    (xs ys : List Bytes) → all_letters (xs ++ ys) ≡ all_letters xs ++ all_letters ys
unfolding all_letters
all_letters-append [] ys = refl
all_letters-append (s ∷ xs) ys =
    ap (λ r. letters s ++ r) (all_letters-append xs ys)
    ∙ sym (append_assoc (letters s) (all_letters xs) (all_letters ys))

take-drop : {A : Type 0} (n : ℕ) (xs : List A) → take n xs ++ drop n xs ≡ xs
take-drop zero xs = refl
take-drop (suc n) [] = refl
take-drop (suc n) (x ∷ xs) = ap (λ r. x ∷ r) (take-drop n xs)

break_line-letters :
    (fuel limit : ℕ) (s : Bytes)
    → all_letters (break_line fuel limit s).0 ++ letters (break_line fuel limit s).1 ≡ letters s
unfolding break_line all_letters
break_line-letters zero limit s = refl
break_line-letters (suc fuel) limit s = elim (Bool-cases (ltb limit (length s))) [
  | inl long ↦ rw long (
      append_assoc (letters (take (cut_point limit s) s)) _ _
      ∙ ap (λ r. letters (take (cut_point limit s) s) ++ r)
          (break_line-letters fuel limit (drop (cut_point limit s) s))
      ∙ sym (letters-append (take (cut_point limit s) s) (drop (cut_point limit s) s))
      ∙ ap letters (take-drop (cut_point limit s) s))
  | inr short ↦ rw short refl
]

join_line-letters :
    (current line : Bytes) → letters (join_line current line) ≡ letters current ++ letters line
unfolding letters
join_line-letters [] line = refl
join_line-letters (b ∷ s) line = letters-append (b ∷ s) (10 ∷ line)

close_chunk-letters :
    (chunks : List Bytes) (current : Bytes)
    → all_letters (close_chunk chunks current) ≡ all_letters chunks ++ letters current
unfolding all_letters letters
close_chunk-letters chunks [] = sym (append-nil (all_letters chunks))
close_chunk-letters chunks (b ∷ s) =
    all_letters-append chunks ((b ∷ s) ∷ [])
    ∙ ap (λ r. all_letters chunks ++ r) (append-nil (letters (b ∷ s)))

add_line-letters :
    (limit : ℕ) (chunks : List Bytes) (current line : Bytes)
    → all_letters (add_line limit chunks current line).0
        ++ letters (add_line limit chunks current line).1
      ≡ (all_letters chunks ++ letters current) ++ letters line
unfolding add_line
add_line-letters limit chunks current line =
    elim (Bool-cases (leb (joined_length current line) limit)) [
      | inl e ↦ rw e (
          ap (λ r. all_letters chunks ++ r) (join_line-letters current line)
          ∙ sym (append_assoc (all_letters chunks) (letters current) (letters line)))
      | inr e ↦ rw e (
          ap (λ r. r ++ letters (break_line (length line) limit line).1)
            (all_letters-append (close_chunk chunks current)
              (break_line (length line) limit line).0)
          ∙ append_assoc (all_letters (close_chunk chunks current)) _ _
          ∙ ap (λ r. all_letters (close_chunk chunks current) ++ r)
              (break_line-letters (length line) limit line)
          ∙ ap (λ r. r ++ letters line) (close_chunk-letters chunks current))
    ]

add_lines-letters :
    (limit : ℕ) (lines : List Bytes) (chunks : List Bytes) (current : Bytes)
    → all_letters (add_lines limit chunks current lines)
      ≡ (all_letters chunks ++ letters current) ++ all_letters lines
unfolding add_lines all_letters
add_lines-letters limit [] chunks current =
    close_chunk-letters chunks current ∙ sym (append-nil (all_letters chunks ++ letters current))
add_lines-letters limit (line ∷ lines) chunks current =
    add_lines-letters limit lines _ _
    ∙ ap (λ r. r ++ all_letters lines) (add_line-letters limit chunks current line)
    ∙ append_assoc (all_letters chunks ++ letters current) (letters line) (all_letters lines)

push_byte-letters :
    (b : ℕ) (lines : List Bytes)
    → (b == 10) ≡ false
    → all_letters (push_byte b lines) ≡ b ∷ all_letters lines
unfolding all_letters letters
push_byte-letters b [] e = rw e refl
push_byte-letters b (line ∷ lines) e = rw e refl

split_lines-letters : (s : Bytes) → all_letters (split_lines s) ≡ letters s
unfolding split_lines all_letters letters
split_lines-letters [] = refl
split_lines-letters (b ∷ s) = elim (Bool-cases (b == 10)) [
  | inl e ↦ rw e (split_lines-letters s)
  | inr e ↦ rw e (push_byte-letters b (split_lines s) e ∙ ap (λ r. b ∷ r) (split_lines-letters s))
]

-- Newlines aside, the chunks put together are the content, at every limit.
pub split_content-letters :
    (content : Bytes) (limit : ℕ) → all_letters (split_content content limit) ≡ letters content
unfolding split_content all_letters letters
split_content-letters [] limit = refl
split_content-letters (b ∷ s) limit = elim (Bool-cases (leb (length (b ∷ s)) limit)) [
  | inl e ↦ rw e (append-nil (letters (b ∷ s)))
  | inr e ↦ rw e (add_lines-letters limit (split_lines (b ∷ s)) [] [] ∙ split_lines-letters (b ∷ s))
]
