-- ===== src/Examples/Replies.antt =====
-- pkg/discord/respond.go at concrete texts.
use gin_bot.Base.{◌≡◌, refl, All, arith, [], ◌∷◌}
use gin_bot.Discord.{Bytes}
use gin_bot.Discord.Split.{split_content}
use gin_bot.Discord.Split.Bounds.{Fits, split_content-Fits}
use gin_bot.Discord.Split.Content.{letters, all_letters, split_content-letters}

-- "abc", a newline and "é"
abbrev reply : Bytes
reply = 97 ∷ 98 ∷ 99 ∷ 10 ∷ 195 ∷ 169 ∷ []

split_content_test : split_content reply 2 ≡ (97 ∷ 98 ∷ []) ∷ (99 ∷ []) ∷ (195 ∷ 169 ∷ []) ∷ []
unfolding split_content
split_content_test = refl

split_content-letters_example : all_letters (split_content reply 2) ≡ letters reply
split_content-letters_example = split_content-letters reply 2

split_content-Fits_example : All (Fits 2) (split_content reply 2)
split_content-Fits_example = split_content-Fits reply 2 (omega arith)
