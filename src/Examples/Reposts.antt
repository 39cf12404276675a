-- ===== src/Examples/Reposts.antt =====
-- pkg/repost at concrete hashes and bounds.
use gin_bot.Base.{ℕ, ◌<◌, some, get_elem?, ◌≡◌, arith}
use gin_bot.Base.Int.{pos, negsuc}
use gin_bot.Repost.{chunk_count}
use gin_bot.Repost.Tiers.{Tiers, IsNormal, default_tiers}
use gin_bot.Repost.Hash.{chunks, distance}
use gin_bot.Repost.Hash.Pigeonhole.{chunks_pigeonhole}

chunks_pigeonhole_example :
    (i : ℕ) × (i < chunk_count)
    × (c : ℕ) × (get_elem? (chunks 0x01) i ≡ some c)
    × (get_elem? (chunks 0x0100) i ≡ some c)
chunks_pigeonhole_example = chunks_pigeonhole 0x01 0x0100 (unfold distance in omega arith)

abbrev odd_tiers : Tiers
odd_tiers = record { identical = negsuc 2; high = pos 9; probable = pos 1 }

default-IsNormal : IsNormal default_tiers
unfolding default_tiers
default-IsNormal = omega arith
