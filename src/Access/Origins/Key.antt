-- ===== src/Access/Origins/Key.antt =====
-- The keys of the origin cache.
use gin_bot.Base.{
  ◌≡◌, ◌≢◌, refl, sym, ap, ◌∙◌, Bool, true, ◌&&◌, ltb, ◌<◌, [], ◌∷◌, ◌++◌, some-eq, arith, All,
  list_eq,
}
use gin_bot.Base.Text.{Text}
use gin_bot.Access.{
  Platform, unspecified, discord, matrix_protocol, telegram, line, email, snail_mail, platform_name,
  platform_value, platform_value-platform_name, Origin,
}
use gin_bot.Access.Origins.{origin_key}

-- No NUL in it.
abbrev IsPlain : Text → Type 0
IsPlain s = All (λ c. c ≢ 0) s

split_at_nul :
    (s t rest rest' : Text)
    → IsPlain s
    → IsPlain t
    → s ++ (0 ∷ rest) ≡ t ++ (0 ∷ rest')
    → (s ≡ t) × (rest ≡ rest')
split_at_nul [] [] rest rest' p q h = (refl, cc)
split_at_nul [] (c ∷ t) rest rest' p (nz, q) h = absurd (nz (cc))
split_at_nul (c ∷ s) [] rest rest' (nz, p) q h = absurd (nz (cc))
split_at_nul (c ∷ s) (d ∷ t) rest rest' (n, p) (m, q) h =
    let (same, behind) = split_at_nul s t rest rest' p q (cc) in (cc, behind)

abbrev is_plain : Text → Bool
is_plain [] = true
is_plain (c ∷ s) = ltb 0 c && is_plain s

is_plain_sound : (s : Text) → is_plain s ≡ true → IsPlain s
is_plain_sound [] h = tt
is_plain_sound (c ∷ s) h =
    let positive : 0 < c = ground arith in (λ e. omega arith, is_plain_sound s (ground arith))

platform_name-IsPlain : (p : Platform) → IsPlain (platform_name p)
unfolding platform_name
platform_name-IsPlain unspecified = is_plain_sound (platform_name unspecified) refl
platform_name-IsPlain discord = is_plain_sound (platform_name discord) refl
platform_name-IsPlain matrix_protocol = is_plain_sound (platform_name matrix_protocol) refl
platform_name-IsPlain telegram = is_plain_sound (platform_name telegram) refl
platform_name-IsPlain line = is_plain_sound (platform_name line) refl
platform_name-IsPlain email = is_plain_sound (platform_name email) refl
platform_name-IsPlain snail_mail = is_plain_sound (platform_name snail_mail) refl

platform_name-injective : (p q : Platform) → platform_name p ≡ platform_name q → p ≡ q
platform_name-injective p q h =
    some-eq
      (sym (platform_value-platform_name p) ∙ ap platform_value h ∙ platform_value-platform_name q)

-- Two origins share a key only if they are the same origin of the same platform: where no part of
-- either holds a NUL, running the parts together loses nothing.
origin_key-injective :
    (p q : Platform) (o o' : Origin)
    → IsPlain o.instance_uid
    → IsPlain o'.instance_uid
    → origin_key p o ≡ origin_key q o'
    → (p ≡ q) × (o ≡ o')
unfolding origin_key
origin_key-injective p q o o' h h' e =
    let (names, behind) =
      split_at_nul (platform_name p) (platform_name q) _ _ (platform_name-IsPlain p)
        (platform_name-IsPlain q) e in
    let (instances, destinations) = split_at_nul o.instance_uid o'.instance_uid _ _ h h' behind in
    (platform_name-injective p q names, cc)
