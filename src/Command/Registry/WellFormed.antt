-- ===== src/Command/Registry/WellFormed.antt =====
-- What `Register` keeps: every name leads to a command, and no name is a group's.
use gin_bot.Base.{
  ℕ, Bool, true, false, List, [], ◌∷◌, Option, none, some, if◌then◌else◌, list_beq, list_beq_iff,
  list_eq, ◌≡◌, refl, subst, arith, inl, inr, Bool-cases,
}
use gin_bot.Base.Dict.{Dict, get, put, get-put}
use gin_bot.Base.Result.{ok, refuse, refuse-eq-ok, >>=-eq-ok, ok-injective}
use gin_bot.Base.Text.{Text}
use gin_bot.Command.{Command, fold}
use gin_bot.Command.Registry.{
  CommandGroup, Registry, RegisterError, empty_name, no_handler, new_registry, is_blank, is_none,
  is_some, contains, check_keys, check_group, members_of, put_keys, collect_keys, validate_args,
  validate_grouping, accept,
}

module _ (lower : ℕ → ℕ) {H : Type 0} where
  pub record IsWellFormed (r : Registry H) : Type 0 where
    -- A name or alias leads to a command, whose own folded name it stands for.
    pub canonical_resolves :
        (k n : Text)
        → get r.canonical k ≡ some n
        → (c : Command H) × (get r.commands n ≡ some c) × (fold lower c.name ≡ n)
    -- A command is found under its own name.
    pub command_named :
        (n : Text) (c : Command H) → get r.commands n ≡ some c → get r.canonical n ≡ some n
    -- A group's name is nobody's name or alias.
    pub group_disjoint :
        (g : Text) (grp : CommandGroup) → get r.groups g ≡ some grp → get r.canonical g ≡ none
    -- A group's member leads to a command.
    pub member_resolves :
        (g s n : Text) (grp : CommandGroup)
        → get r.groups g ≡ some grp
        → get grp.members s ≡ some n
        → (c : Command H) × (get r.commands n ≡ some c)

pub new_registry-IsWellFormed :
    (lower : ℕ → ℕ) {H : Type 0} → IsWellFormed lower (new_registry {H = H})
unfolding new_registry get
new_registry-IsWellFormed lower = record {
  canonical_resolves = λ k n h. absurd (cc);
  command_named = λ n c h. absurd (cc);
  group_disjoint = λ g grp h. absurd (cc);
  member_resolves = λ g s n grp h. absurd (cc);
}

pub get-put_keys :
    (keys : List Text) (name : Text) (m : Dict Text Text) (k : Text)
    → get (put_keys keys name m) k ≡ (if contains keys k then some name else get m k)
unfolding put_keys contains
get-put_keys [] name m k = refl
get-put_keys (x ∷ keys) name m k =
    ground (arith, get-put_keys keys name (put m x name) k, get-put m x name k)

is_none-eq : {A : Type 0} (o : Option A) → is_some o ≡ false → o ≡ none
is_none-eq none h = refl
is_none-eq (some a) h = absurd (cc)

-- A key that passed the checks is free, and is not the command's own group.
pub record IsFree {H : Type 0} (r : Registry H) (group key : Text) : Type 0 where
  pub unnamed : get r.canonical key ≡ none
  pub ungrouped : get r.groups key ≡ none
  pub apart : list_beq key group ≡ false

check_keys-cons :
    {H : Type 0} (r : Registry H) (group : Text) (seen : List Text) (key : Text) (keys : List Text)
    → check_keys r group seen (key ∷ keys) ≡ ok tt
    → IsFree r group key × (check_keys r group (key ∷ seen) keys ≡ ok tt)
unfolding check_keys
check_keys-cons r group seen key keys h =
    let (unnamed, h1) = refuse-eq-ok _ _ _ h in
    let (once, h2) = refuse-eq-ok _ _ _ h1 in
    let (ungrouped, h3) = refuse-eq-ok _ _ _ h2 in
    let (apart, h4) = refuse-eq-ok _ _ _ h3 in
    (
      record { unnamed = is_none-eq _ unnamed; ungrouped = is_none-eq _ ungrouped; apart = apart },
      h4,
    )

-- Every key of the list that the loop lets through is free.
check_keys-IsFree :
    {H : Type 0} (r : Registry H) (group : Text) (seen keys : List Text) (k : Text)
    → check_keys r group seen keys ≡ ok tt
    → contains keys k ≡ true
    → IsFree r group k
unfolding contains
check_keys-IsFree r group seen [] k h c = absurd (cc)
check_keys-IsFree r group seen (key ∷ keys) k h c =
    let (free, rest) = check_keys-cons r group seen key keys h in
    elim (Bool-cases (list_beq key k)) [
      | inl same ↦ subst (IsFree r group) ((list_beq_iff key k).0 same) free
      | inr other ↦ check_keys-IsFree r group (key ∷ seen) keys k rest (rw other at c)
    ]

-- What the checks above the first write establish.
pub record IsAccepted (lower : ℕ → ℕ) {H : Type 0} (r : Registry H) (cmd : Command H)
    (keys : List Text) : Type 0 where
  pub named : contains keys (fold lower cmd.name) ≡ true
  pub free : (k : Text) → contains keys k ≡ true → IsFree r (fold lower cmd.group) k
  pub grouped : check_group r (fold lower cmd.group) (fold lower cmd.sub) ≡ ok tt
  pub aliases : List Text
  pub collected : collect_keys lower cmd.aliases ≡ ok aliases
  pub all_keys : keys ≡ fold lower cmd.name ∷ aliases

pub contains-head : (k : Text) (ks : List Text) → contains (k ∷ ks) k ≡ true
unfolding contains
contains-head k ks = ground (arith, list_beq_iff k k)

pub accept-IsAccepted :
    (lower : ℕ → ℕ) {H : Type 0} (r : Registry H) (cmd : Command H) {keys : List Text}
    → accept lower r cmd ≡ ok keys
    → IsAccepted lower r cmd keys
unfolding accept
accept-IsAccepted lower r cmd {keys} h =
    let (unblank, h1) = refuse-eq-ok (is_blank (fold lower cmd.name)) empty_name _ h in
    let (handled, h2) = refuse-eq-ok (is_none cmd.handler) no_handler _ h1 in
    let (u, args, h3) = >>=-eq-ok (validate_args lower cmd) _ h2 in
    let (v, grouping, h4) = >>=-eq-ok (validate_grouping lower cmd) _ h3 in
    let (aliases, collected, h5) = >>=-eq-ok (collect_keys lower cmd.aliases) _ h4 in
    let (w, checked, h6) =
      >>=-eq-ok (check_keys r (fold lower cmd.group) [] (fold lower cmd.name ∷ aliases)) _ h5 in
    let (x, grouped, h7) =
      >>=-eq-ok (check_group r (fold lower cmd.group) (fold lower cmd.sub))
        (λ _. ok (fold lower cmd.name ∷ aliases)) {b = keys} h6 in
    let all_keys : fold lower cmd.name ∷ aliases ≡ keys = ok-injective h7 in
    subst (IsAccepted lower r cmd) all_keys (record {
      named = contains-head (fold lower cmd.name) aliases;
      free = λ k c.
          check_keys-IsFree r (fold lower cmd.group) [] (fold lower cmd.name ∷ aliases) k checked c;
      grouped = grouped;
      aliases = aliases;
      collected = collected;
      all_keys = refl;
    })

refuse_last : (b : Bool) (e : RegisterError) → refuse b e ≡ ok tt → b ≡ false
refuse_last true e h = absurd (cc)
refuse_last false e h = refl

-- A group that passed the check is no name, and has no member under the sub.
pub check_group-free :
    {H : Type 0} (r : Registry H) (group sub : Text)
    → check_group r group sub ≡ ok tt
    → is_blank group ≡ false
    → (get r.canonical group ≡ none) × (get (members_of (get r.groups group)) sub ≡ none)
unfolding check_group
check_group-free r [] sub h b = absurd (cc)
check_group-free r (c ∷ g) sub h b =
    let (unnamed, h1) = refuse-eq-ok _ _ _ h in
    (is_none-eq _ unnamed, is_none-eq _ (refuse_last _ _ h1))
