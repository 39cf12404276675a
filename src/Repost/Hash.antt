-- ===== src/Repost/Hash.antt =====
-- pkg/repost/repost.go: Chunks and Distance. A uint64 is a number below 2 ^ 64. The mask with 0xFF
-- is the remainder by 256, and the shift to the right a division.
pub mod Pigeonhole
use Prim.Native.Nat.{bit_xor}
use gin_bot.Base.{ℕ, zero, suc, ◌+◌, ◌-◌, ◌*◌, ◌/◌, ◌%◌, ◌^◌, List, [], ◌∷◌, ◌≡◌, refl}
use gin_bot.Repost.{chunk_count}

-- The chunk of the round with index i.
unfoldable chunk : ℕ → ℕ → ℕ
chunk hash i = hash / 2 ^ ((chunk_count - 1 - i) * 8) % 256

-- The loop over i, by the rounds left.
unfoldable chunks_from : ℕ → ℕ → ℕ → List ℕ
unfolding chunk
chunks_from zero i hash = []
chunks_from (suc rounds) i hash = chunk hash i ∷ chunks_from rounds (i + 1) hash

unfoldable pub chunks : ℕ → List ℕ
unfolding chunks_from
chunks hash = chunks_from chunk_count 0 hash

-- bits.OnesCount64, by the bits left
unfoldable pub ones_count : ℕ → ℕ → ℕ
ones_count zero x = 0
ones_count (suc bits) x = x % 2 + ones_count bits (x / 2)

unfoldable pub distance : ℕ → ℕ → ℕ
unfolding ones_count
distance a b = ones_count 64 (bit_xor a b)

chunks_test : chunks 0x0102030405060708 ≡ 1 ∷ 2 ∷ 3 ∷ 4 ∷ 5 ∷ 6 ∷ 7 ∷ 8 ∷ []
unfolding chunks
chunks_test = refl

-- One bit in every chunk is too far for the index: no chunk is shared.
distance_test : distance 0x0101010101010101 0 ≡ 8
unfolding distance
distance_test = refl
