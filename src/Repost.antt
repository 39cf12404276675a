-- ===== src/Repost.antt =====
-- pkg/repost: perceptual hashes, their chunks, and the confidence tiers.
pub mod Tiers
pub mod Hash
use gin_bot.Base.{ℕ}

-- repost.go
abbrev pub max_distance : ℕ
max_distance = 7

abbrev pub chunk_count : ℕ
chunk_count = 8
