-- ===== src/Access/Origins/Cache.antt =====
-- The bound and the contents of the origin cache.
use gin_bot.Base.{
  ℕ, zero, suc, ◌+◌, ◌/◌, ◌≤◌, ◌<◌, ◌≡◌, true, List, [], ◌∷◌, some, if◌then◌else◌, leb, length,
  arith, All, list_eq, list_beq_iff, Bool-cases, inl, inr, ◌⊎◌,
}
use gin_bot.Base.Dict.{
  Dict, get, delete, get-put, get-delete, length-delete, length-delete_present, length-put,
}
use gin_bot.Base.Text.{Text}
use gin_bot.Access.Origins.{
  OriginCache, known, is_present, delete_first, at_least_one, evict, remember,
  origin_cache_max_entries, origin_cache_evict_divisor,
}

-- A range over a map visits every key of it, and each once.
abbrev pub IsRange : (Dict Text (Unit {0}) → List Text) → Type 0
IsRange order =
    (m : Dict Text (Unit {0}))
    → (length (order m) ≡ length m) × All (λ key. get m key ≡ some tt) (order m)

length-delete_first :
    (n : ℕ) (keys : List Text) (m : Dict Text (Unit {0}))
    → length (delete_first n keys m) ≤ length m
unfolding delete_first
length-delete_first zero keys m = omega arith
length-delete_first (suc n) [] m = omega arith
length-delete_first (suc n) (key ∷ keys) m =
    omega (arith, length-delete_first n keys (delete m key), length-delete m key)

shrinks :
    (n : ℕ) (keys : List Text) (m : Dict Text (Unit {0}))
    → length keys ≡ length m
    → All (λ key. get m key ≡ some tt) keys
    → 0 < n
    → 0 < length m
    → length (delete_first n keys m) + 1 ≤ length m
unfolding delete_first
shrinks zero keys m e all h k = absurd (omega arith)
shrinks (suc n) [] m e all h k = absurd (omega arith)
shrinks (suc n) (key ∷ keys) m e (here, all) h k =
    omega (arith, length-delete_first n keys (delete m key), length-delete_present m key here)

module _ (order : Dict Text (Unit {0}) → List Text) where
  -- At every order of the range, the cache never holds more than its 4096 entries.
  pub remember-bounded :
      (c : OriginCache) (key : Text)
      → IsRange order
      → length c.seen ≤ origin_cache_max_entries
      → length (remember order c key).seen ≤ origin_cache_max_entries
  unfolding remember evict
  remember-bounded c key range h =
      elim (Bool-cases (leb origin_cache_max_entries (length c.seen))) [
        | inr e ↦
            let room : length c.seen < origin_cache_max_entries = ground arith in
            rw e (omega (arith, length-put c.seen key tt, room))
        | inl e ↦
            let (all_keys, present) = range c.seen in
            let n = at_least_one (length c.seen / origin_cache_evict_divisor) in
            let some_room : length (delete_first n (order c.seen) c.seen) + 1 ≤ length c.seen =
              shrinks n (order c.seen) c.seen all_keys present (ground arith) (ground arith) in
            rw e
              (omega (arith, length-put (delete_first n (order c.seen) c.seen) key tt, some_room))
      ]

  get-delete_first :
      (n : ℕ) (keys : List Text) (m : Dict Text (Unit {0})) (key : Text)
      → is_present (get (delete_first n keys m) key) ≡ true
      → is_present (get m key) ≡ true
  unfolding delete_first
  get-delete_first zero keys m key h = h
  get-delete_first (suc n) [] m key h = h
  get-delete_first (suc n) (k ∷ keys) m key h =
      ground (arith, get-delete_first n keys (delete m k) key h, get-delete m k key)

  kept_known :
      (c : OriginCache) (other : Text)
      → is_present (
          get
            (if leb origin_cache_max_entries (length c.seen) then evict order c else c).seen
            other)
        ≡ true
      → is_present (get c.seen other) ≡ true
  unfolding evict
  kept_known c other h = elim (Bool-cases (leb origin_cache_max_entries (length c.seen))) [
    | inr e ↦ rw e at h
    | inl e ↦
        get-delete_first (at_least_one (length c.seen / origin_cache_evict_divisor)) (order c.seen)
          c.seen other (rw e at h)
  ]

  pub known-remember : (c : OriginCache) (key : Text) → known (remember order c key) key ≡ true
  unfolding remember known
  known-remember c key =
      let kept = if leb origin_cache_max_entries (length c.seen) then evict order c else c in
      ground (arith, get-put kept.seen key tt key, list_beq_iff key key)

  -- Remembering one origin makes no other one known: what is known afterwards was known or is it.
  known-remember_other :
      (c : OriginCache) (key other : Text)
      → known (remember order c key) other ≡ true
      → (other ≡ key) ⊎ (known c other ≡ true)
  unfolding remember known
  known-remember_other c key other h =
      let kept = if leb origin_cache_max_entries (length c.seen) then evict order c else c in
      ground (arith, get-put kept.seen key tt other, list_beq_iff key other, kept_known c other)
