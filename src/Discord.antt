-- ===== src/Discord.antt =====
-- pkg/discord: the text of the replies, as bytes.
pub mod Split
use gin_bot.Base.{ℕ, Bool, true, false, not, ◌&&◌, leb, ltb, List}

-- A Go string as its bytes
abbrev pub Bytes : Type 0
Bytes = List ℕ

-- utf8.RuneStart
abbrev pub is_rune_start : ℕ → Bool
is_rune_start b = not (leb 128 b && ltb b 192)
