-- ===== src/Discord/Split.antt =====
-- pkg/discord/respond.go: splitContent and truncateContent. The inner loop of splitContent runs on
-- fuel; the length of the line is enough whenever the limit is positive.
pub mod Bounds
pub mod Content
use gin_bot.Base.{
  ℕ, zero, suc, ◌+◌, ◌-◌, ◌==◌, Bool, true, false, not, ◌&&◌, List, [], ◌∷◌, ◌++◌, Option, none,
  some, if◌then◌else◌, leb, ltb, length, get_elem?, take, drop,
}
use gin_bot.Discord.{Bytes, is_rune_start}

abbrev pub max_chat_content : ℕ
max_chat_content = 2000

abbrev pub starts_rune : Option ℕ → Bool
starts_rune none = true
starts_rune (some b) = is_rune_start b

-- The last rune boundary at or before an index, or 0.
unfoldable pub back_up : Bytes → ℕ → ℕ
back_up s zero = 0
back_up s (suc n) =
    let earlier = back_up s n in if starts_rune (get_elem? s (suc n)) then suc n else earlier

unfoldable pub cut_point : ℕ → Bytes → ℕ
unfolding back_up
cut_point limit s = let cut = back_up s limit in if cut == 0 then limit else cut

-- The pieces that are cut off a line, and what remains.
unfoldable pub break_line : ℕ → ℕ → Bytes → List Bytes × Bytes
unfolding cut_point
break_line zero limit s = ([], s)
break_line (suc fuel) limit s =
    let cut = cut_point limit s in
    let rest = break_line fuel limit (drop cut s) in
    if ltb limit (length s) then (take cut s ∷ rest.0, rest.1) else ([], s)

abbrev pub is_nonempty : Bytes → Bool
is_nonempty [] = false
is_nonempty (b ∷ s) = true

abbrev pub joined_length : Bytes → Bytes → ℕ
joined_length current line = (if is_nonempty current then length current + 1 else 0) + length line

abbrev pub join_line : Bytes → Bytes → Bytes
join_line current line = if is_nonempty current then current ++ (10 ∷ line) else line

abbrev pub close_chunk : List Bytes → Bytes → List Bytes
close_chunk chunks current = if is_nonempty current then chunks ++ (current ∷ []) else chunks

-- One line: it joins the current chunk, or the chunk is closed and the line is broken.
unfoldable pub add_line : ℕ → List Bytes → Bytes → Bytes → List Bytes × Bytes
unfolding break_line
add_line limit chunks current line =
    let broken = break_line (length line) limit line in
    if leb (joined_length current line) limit
    then (chunks, join_line current line)
    else (close_chunk chunks current ++ broken.0, broken.1)

unfoldable pub add_lines : ℕ → List Bytes → Bytes → List Bytes → List Bytes
unfolding add_line
add_lines limit chunks current [] = close_chunk chunks current
add_lines limit chunks current (line ∷ lines) =
    let next = add_line limit chunks current line in add_lines limit next.0 next.1 lines

-- strings.Split(content, "\n")
abbrev pub push_byte : ℕ → List Bytes → List Bytes
push_byte b [] = (b ∷ []) ∷ []
push_byte b (line ∷ lines) = (b ∷ line) ∷ lines

unfoldable pub split_lines : Bytes → List Bytes
split_lines [] = [] ∷ []
split_lines (b ∷ s) = let rest = split_lines s in if b == 10 then [] ∷ rest else push_byte b rest

unfoldable pub split_content : Bytes → ℕ → List Bytes
unfolding add_lines split_lines
split_content content limit =
    if not (is_nonempty content)
    then []
    else if leb (length content) limit
    then content ∷ []
    else add_lines limit [] [] (split_lines content)

-- The bytes of "…"
abbrev pub ellipsis : Bytes
ellipsis = 226 ∷ 128 ∷ 166 ∷ []

unfoldable pub truncate_content : Bytes → Bytes
unfolding back_up
truncate_content content =
    if leb (length content) max_chat_content
    then content
    else take (back_up content (max_chat_content - length ellipsis)) content ++ ellipsis
