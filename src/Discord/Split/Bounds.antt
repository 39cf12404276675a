-- ===== src/Discord/Split/Bounds.antt =====
-- pkg/discord/respond.go: the sizes of the chunks, and the rounds of the loop over a long line.
use gin_bot.Base.{
  ℕ, zero, suc, ◌+◌, ◌-◌, ◌≤◌, ◌<◌, ◌≡◌, refl, false, List, [], ◌∷◌, inl, inr, All, All-append,
  arith, Bool-cases, leb, ltb, length, get_elem?, take, drop, length-append, leb→le,
}
use gin_bot.Discord.{Bytes}
use gin_bot.Discord.Split.{
  starts_rune, back_up, cut_point, break_line, joined_length, join_line, close_chunk, add_line,
  add_lines, split_lines, split_content, truncate_content, max_chat_content, ellipsis,
}

back_up-le : (s : Bytes) (n : ℕ) → back_up s n ≤ n
unfolding back_up
back_up-le s zero = omega arith
back_up-le s (suc n) = elim (Bool-cases (starts_rune (get_elem? s (suc n)))) [
  | inl e ↦ rw e (omega arith)
  | inr e ↦ rw e (let le = back_up-le s n in omega arith)
]

cut_point-bounds :
    (limit : ℕ) (s : Bytes) → 1 ≤ limit → (1 ≤ cut_point limit s) × (cut_point limit s ≤ limit)
unfolding cut_point
cut_point-bounds limit s positive = let le = back_up-le s limit in (ground arith, ground arith)

length-take : {A : Type 0} (n : ℕ) (xs : List A) → n ≤ length xs → length (take n xs) ≡ n
length-take zero xs le = refl
length-take (suc n) [] le = omega arith
length-take (suc n) (x ∷ xs) le = let rest = length-take n xs (omega arith) in omega arith

length-drop :
    {A : Type 0} (n : ℕ) (xs : List A) → n ≤ length xs → length (drop n xs) + n ≡ length xs
length-drop zero xs le = omega arith
length-drop (suc n) [] le = omega arith
length-drop (suc n) (x ∷ xs) le = let rest = length-drop n xs (omega arith) in omega arith

-- A chunk that is sent.
abbrev pub Fits : ℕ → Bytes → Type 0
Fits limit s = (1 ≤ length s) × (length s ≤ limit)

break_line-Fits :
    (fuel limit : ℕ) (s : Bytes)
    → 1 ≤ limit
    → length s ≤ fuel
    → All (Fits limit) (break_line fuel limit s).0 × (length (break_line fuel limit s).1 ≤ limit)
unfolding break_line
break_line-Fits zero limit s positive enough = (tt, omega arith)
break_line-Fits (suc fuel) limit s positive enough = elim (Bool-cases (ltb limit (length s))) [
  | inl long ↦
      let (some_cut, within) = cut_point-bounds limit s positive in
      let shorter = length-drop (cut_point limit s) s (ground arith) in
      let exactly = length-take (cut_point limit s) s (ground arith) in
      let (pieces, rest) =
        break_line-Fits fuel limit (drop (cut_point limit s) s) positive (omega arith) in
      rw long (((omega arith, omega arith), pieces), rest)
  | inr short ↦ rw short (tt, ground arith)
]

close_chunk-Fits :
    (limit : ℕ) (chunks : List Bytes) (current : Bytes)
    → All (Fits limit) chunks
    → length current ≤ limit
    → All (Fits limit) (close_chunk chunks current)
close_chunk-Fits limit chunks [] all le = all
close_chunk-Fits limit chunks (b ∷ s) all le =
    All-append (Fits limit) chunks ((b ∷ s) ∷ []) all ((omega arith, le), tt)

join_line-le :
    (limit : ℕ) (current line : Bytes)
    → joined_length current line ≤ limit
    → length (join_line current line) ≤ limit
join_line-le limit [] line le = omega arith
join_line-le limit (b ∷ s) line le = let e = length-append (b ∷ s) (10 ∷ line) in omega arith

add_line-Fits :
    (limit : ℕ) (chunks : List Bytes) (current line : Bytes)
    → 1 ≤ limit
    → All (Fits limit) chunks
    → length current ≤ limit
    → All (Fits limit) (add_line limit chunks current line).0
      × (length (add_line limit chunks current line).1 ≤ limit)
unfolding add_line
add_line-Fits limit chunks current line positive all le =
    let (pieces, rest) = break_line-Fits (length line) limit line positive (omega arith) in
    elim (Bool-cases (leb (joined_length current line) limit)) [
      | inl e ↦ rw e (all, join_line-le limit current line (ground arith))
      | inr e ↦ rw e (
        All-append (Fits limit) (close_chunk chunks current) _
            (close_chunk-Fits limit chunks current all le) pieces,
        rest,
      )
    ]

add_lines-Fits :
    (limit : ℕ) (lines : List Bytes) (chunks : List Bytes) (current : Bytes)
    → 1 ≤ limit
    → All (Fits limit) chunks
    → length current ≤ limit
    → All (Fits limit) (add_lines limit chunks current lines)
unfolding add_lines
add_lines-Fits limit [] chunks current positive all le =
    close_chunk-Fits limit chunks current all le
add_lines-Fits limit (line ∷ lines) chunks current positive all le =
    let (next, rest) = add_line-Fits limit chunks current line positive all le in
    add_lines-Fits limit lines _ _ positive next rest

-- With a positive limit every chunk has at least one byte and at most the limit.
pub split_content-Fits :
    (content : Bytes) (limit : ℕ) → 1 ≤ limit → All (Fits limit) (split_content content limit)
unfolding split_content
split_content-Fits [] limit positive = tt
split_content-Fits (b ∷ s) limit positive = elim (Bool-cases (leb (length (b ∷ s)) limit)) [
  | inl e ↦ rw e ((omega arith, ground arith), tt)
  | inr e ↦ rw e (add_lines-Fits limit (split_lines (b ∷ s)) [] [] positive tt (omega arith))
]

leb→gt : (a b : ℕ) → leb a b ≡ false → b < a
leb→gt a b h = ground arith

-- A truncated reply fits one message.
truncate_content-le : (content : Bytes) → length (truncate_content content) ≤ max_chat_content
unfolding truncate_content
truncate_content-le content = elim (Bool-cases (leb (length content) max_chat_content)) [
  | inl e ↦ rw e (leb→le (length content) max_chat_content e)
  | inr e ↦
      let long = leb→gt (length content) max_chat_content e in
      let le = back_up-le content (max_chat_content - length ellipsis) in
      let kept =
        length-take (back_up content (max_chat_content - length ellipsis)) content (omega arith) in
      let whole =
        length-append (take (back_up content (max_chat_content - length ellipsis)) content)
          ellipsis in
      rw e (omega arith)
]
