-- ===== src/Repost/Hash/Pigeonhole.antt =====
-- Two hashes within the widest distance share a chunk: with eight chunks and at most seven bits
-- that differ, one chunk has none of them.
use Prim.Native.Nat.{bit_xor, bit_xor-bitwise, digits, differ}
use native.Mathlib.Decide.{dec_le}
use gin_bot.Base.{
  ℕ, zero, suc, ◌+◌, ◌-◌, ◌*◌, ◌/◌, ◌%◌, ◌≤◌, ◌<◌, some, get_elem?, ◌≡◌, refl, sym, ◌∙◌, ap, arith,
}
use gin_bot.Repost.{max_distance, chunk_count}
use gin_bot.Repost.Hash.{chunks, ones_count, distance}

abbrev xor_digits : ℕ → ℕ → ℕ → ℕ
xor_digits n a b = digits (λ b. b) differ n a b

xor_digits_fuel : (n m a b : ℕ) → a ≤ n → a ≤ m → xor_digits n a b ≡ xor_digits m a b
xor_digits_fuel zero zero a b p q = refl
xor_digits_fuel zero (suc m) zero b p q = refl
xor_digits_fuel zero (suc m) (suc a) b p q = absurd (omega arith)
xor_digits_fuel (suc n) zero zero b p q = refl
xor_digits_fuel (suc n) zero (suc a) b p q = absurd (omega arith)
xor_digits_fuel (suc n) (suc m) zero b p q = refl
xor_digits_fuel (suc n) (suc m) (suc a) b p q =
    omega (arith, xor_digits_fuel n m (suc a / 2) (b / 2) (omega arith) (omega arith))

zero-bit_xor : (b : ℕ) → bit_xor 0 b ≡ b
zero-bit_xor b = bit_xor-bitwise 0 b

differ_bits : (x y : ℕ) → x < 2 → y < 2 → (differ x y ≤ 1) × (differ x y ≡ 0 → x ≡ y)
differ_bits zero y p q = (omega arith, λ e. omega arith)
differ_bits (suc zero) zero p q = (omega arith, λ e. omega arith)
differ_bits (suc zero) (suc zero) p q = (omega arith, λ e. refl)
differ_bits (suc zero) (suc (suc y)) p q = absurd (omega arith)
differ_bits (suc (suc x)) y p q = absurd (omega arith)

differ-le : (a b : ℕ) → differ (a % 2) (b % 2) ≤ 1
differ-le a b = (differ_bits (a % 2) (b % 2) (omega arith) (omega arith)).0

differ_zero : (a b : ℕ) → differ (a % 2) (b % 2) ≡ 0 → a % 2 ≡ b % 2
differ_zero a b = (differ_bits (a % 2) (b % 2) (omega arith) (omega arith)).1

bit_xor_step : (a b : ℕ) → bit_xor a b ≡ bit_xor (a / 2) (b / 2) * 2 + differ (a % 2) (b % 2)
bit_xor_step zero b = omega (arith, zero-bit_xor b, zero-bit_xor (b / 2))
bit_xor_step (suc a) b = omega (
  arith,
  bit_xor-bitwise (suc a) b,
  bit_xor-bitwise (suc a / 2) (b / 2),
  xor_digits_fuel a (suc a / 2) (suc a / 2) (b / 2) (omega arith) (omega arith),
)

-- The number of places at which the lowest bits differ.
hamming : ℕ → ℕ → ℕ → ℕ
hamming zero a b = 0
hamming (suc bits) a b = differ (a % 2) (b % 2) + hamming bits (a / 2) (b / 2)

ones_count-bit_xor : (bits a b : ℕ) → ones_count bits (bit_xor a b) ≡ hamming bits a b
unfolding ones_count hamming
ones_count-bit_xor zero a b = refl
ones_count-bit_xor (suc bits) a b =
    let low : bit_xor a b % 2 ≡ differ (a % 2) (b % 2) =
      omega (arith, bit_xor_step a b, differ-le a b) in
    let high : bit_xor a b / 2 ≡ bit_xor (a / 2) (b / 2) =
      omega (arith, bit_xor_step a b, differ-le a b) in
    rw (low, high, ones_count-bit_xor bits (a / 2) (b / 2))

half_eight : (a : ℕ) → a / 2 / 2 / 2 / 2 / 2 / 2 / 2 / 2 ≡ a / 256
half_eight a = omega arith

hamming_byte :
    (bits a b : ℕ)
    → hamming (suc (suc (suc (suc (suc (suc (suc (suc bits)))))))) a b
      ≡ hamming 8 a b + hamming bits (a / 256) (b / 256)
unfolding hamming
hamming_byte bits a b = rw (half_eight a, half_eight b) (omega arith)

hamming_zero : (a b : ℕ) → hamming 8 a b ≡ 0 → a % 256 ≡ b % 256
unfolding hamming
hamming_zero a b h = omega (
  arith,
  differ_zero a b (omega arith),
  differ_zero (a / 2) (b / 2) (omega arith),
  differ_zero (a / 2 / 2) (b / 2 / 2) (omega arith),
  differ_zero (a / 2 / 2 / 2) (b / 2 / 2 / 2) (omega arith),
  differ_zero (a / 2 / 2 / 2 / 2) (b / 2 / 2 / 2 / 2) (omega arith),
  differ_zero (a / 2 / 2 / 2 / 2 / 2) (b / 2 / 2 / 2 / 2 / 2) (omega arith),
  differ_zero (a / 2 / 2 / 2 / 2 / 2 / 2) (b / 2 / 2 / 2 / 2 / 2 / 2) (omega arith),
  differ_zero (a / 2 / 2 / 2 / 2 / 2 / 2 / 2) (b / 2 / 2 / 2 / 2 / 2 / 2 / 2) (omega arith),
)

-- The chunk with the index `i` counted from the least significant one.
low_chunk : ℕ → ℕ → ℕ
low_chunk zero a = a % 256
low_chunk (suc i) a = low_chunk i (a / 256)

-- The distance of hashes of `k` chunks.
hamming_chunks : ℕ → ℕ → ℕ → ℕ
hamming_chunks zero a b = 0
hamming_chunks (suc k) a b = hamming 8 a b + hamming_chunks k (a / 256) (b / 256)

-- Eight bits for each of `k` chunks.
abbrev bits_of : ℕ → ℕ
bits_of zero = zero
bits_of (suc k) = suc (suc (suc (suc (suc (suc (suc (suc (bits_of k))))))))

hamming_chunks_lem : (k a b : ℕ) → hamming (bits_of k) a b ≡ hamming_chunks k a b
unfolding hamming_chunks
hamming_chunks_lem zero a b = unfold hamming in refl
hamming_chunks_lem (suc k) a b =
    hamming_byte (bits_of k) a b
    ∙ ap (λ rest. hamming 8 a b + rest) (hamming_chunks_lem k (a / 256) (b / 256))

shared_low_chunk :
    (k a b : ℕ) → hamming_chunks k a b < k → (i : ℕ) × (i < k) × (low_chunk i a ≡ low_chunk i b)
unfolding hamming_chunks low_chunk
shared_low_chunk zero a b h = elim h [ ]
shared_low_chunk (suc k) a b h = elim (dec_le (hamming 8 a b) 0) [
  | yes z ↦ (0, omega arith, hamming_zero a b (omega arith))
  | no nz ↦
      let (i, lt, same) = shared_low_chunk k (a / 256) (b / 256) (omega arith) in
      (suc i, omega arith, same)
]

-- The chunk that is `i` from the end stands at `7 - i`.
get_elem?-chunks : (i hash : ℕ) → i < 8 → get_elem? (chunks hash) (7 - i) ≡ some (low_chunk i hash)
unfolding chunks low_chunk
get_elem?-chunks zero hash h = ap some (omega arith)
get_elem?-chunks (suc zero) hash h = ap some (omega arith)
get_elem?-chunks (suc (suc zero)) hash h = ap some (omega arith)
get_elem?-chunks (suc (suc (suc zero))) hash h = ap some (omega arith)
get_elem?-chunks (suc (suc (suc (suc zero)))) hash h = ap some (omega arith)
get_elem?-chunks (suc (suc (suc (suc (suc zero))))) hash h = ap some (omega arith)
get_elem?-chunks (suc (suc (suc (suc (suc (suc zero)))))) hash h = ap some (omega arith)
get_elem?-chunks (suc (suc (suc (suc (suc (suc (suc zero))))))) hash h = ap some (omega arith)
get_elem?-chunks (suc (suc (suc (suc (suc (suc (suc (suc i)))))))) hash h = absurd (omega arith)

-- Two hashes whose distance is at most the widest one hold the same chunk in the same column.
pub chunks_pigeonhole :
    (a b : ℕ)
    → distance a b ≤ max_distance
    → (i : ℕ) × (i < chunk_count)
      × (c : ℕ) × (get_elem? (chunks a) i ≡ some c)
      × (get_elem? (chunks b) i ≡ some c)
unfolding distance
chunks_pigeonhole a b h =
    let near : hamming_chunks 8 a b < 8 =
      omega (arith, ones_count-bit_xor 64 a b, hamming_chunks_lem 8 a b) in
    let (i, lt, same) = shared_low_chunk 8 a b near in
    (
      7 - i,
      omega arith,
      low_chunk i a,
      get_elem?-chunks i a lt,
      get_elem?-chunks i b lt ∙ ap some (sym same),
    )
