-- ===== src/Command/Registry/Names.antt =====
-- What `Register` promises to those who look names up.
use gin_bot.Base.{
  ℕ, true, List, [], ◌∷◌, none, some, list_beq_iff, list_eq, ◌≡◌, ◌∙◌, arith, inl, inr,
  Option-cases, subst, Elem,
}
use gin_bot.Base.Dict.{get, put, get-put}
use gin_bot.Base.Result.{ok, >>=-eq-ok, ok-injective, refuse-eq-ok}
use gin_bot.Base.Text.{Text}
use gin_bot.Command.{Command, fold}
use gin_bot.Command.Registry.{
  Registry, is_blank, empty_alias, contains, put_keys, collect_keys, accept, write, register,
  lookup,
}
use gin_bot.Command.Registry.WellFormed.{
  IsWellFormed, IsAccepted, get-put_keys, accept-IsAccepted, contains-head,
}
use gin_bot.Command.Registry.Kept.{write-IsWellFormed, commands_kept, known_key}

-- A successful registration is the write of accepted keys.
pub register-write :
    (lower : ℕ → ℕ) {H : Type 0} (r : Registry H) (cmd : Command H) {r' : Registry H}
    → register lower r cmd ≡ ok r'
    → (keys : List Text) × IsAccepted lower r cmd keys × (write lower r cmd keys ≡ r')
unfolding register
register-write lower r cmd {r'} h =
    let (keys, accepted, written) =
      >>=-eq-ok (accept lower r cmd) (λ ks. ok (write lower r cmd ks)) {b = r'} h in
    (keys, accept-IsAccepted lower r cmd accepted, ok-injective written)

-- A registration that succeeds leaves a well-formed registry well formed: every name, alias and
-- group member leads to a command, every command is found by its own name, and no group's name is
-- a command's name or alias.
pub register-IsWellFormed :
    (lower : ℕ → ℕ) {H : Type 0} (r r' : Registry H) (cmd : Command H)
    → IsWellFormed lower r
    → register lower r cmd ≡ ok r'
    → IsWellFormed lower r'
register-IsWellFormed lower r r' cmd wf h =
    let (keys, acc, written) = register-write lower r cmd h in
    subst (IsWellFormed lower) written (write-IsWellFormed lower r cmd keys wf acc)

contains-cons : (x k : Text) (ks : List Text) → contains ks k ≡ true → contains (x ∷ ks) k ≡ true
unfolding contains
contains-cons x k ks h = ground arith

-- The folded form of every alias is among the keys.
collect_keys-contains :
    (lower : ℕ → ℕ) (aliases : List Text) (keys : List Text) (alias : Text)
    → collect_keys lower aliases ≡ ok keys
    → Elem alias aliases
    → contains keys (fold lower alias) ≡ true
unfolding collect_keys
collect_keys-contains lower [] keys alias h e = absurd e
collect_keys-contains lower (x ∷ aliases) keys alias h e =
    let (nonblank, h1) = refuse-eq-ok (is_blank (fold lower x)) empty_alias _ h in
    let (rest, collected, h2) =
      >>=-eq-ok (collect_keys lower aliases) (λ ks. ok (fold lower x ∷ ks)) {b = keys} h1 in
    rw (← ok-injective h2) (elim e [
      | inl same ↦ rw same (contains-head (fold lower x) rest)
      | inr later ↦
          contains-cons (fold lower x) (fold lower alias) rest
            (collect_keys-contains lower aliases rest alias collected later)
    ])

-- Every name of an accepted command is a key.
IsAccepted-contains :
    (lower : ℕ → ℕ) {H : Type 0} (r : Registry H) (cmd : Command H) (keys : List Text) (k : Text)
    → IsAccepted lower r cmd keys
    → Elem k (cmd.name ∷ cmd.aliases)
    → contains keys (fold lower k) ≡ true
IsAccepted-contains lower r cmd keys k acc (inl e) = rw e acc.named
IsAccepted-contains lower r cmd keys k acc (inr e) = rw acc.all_keys (
    contains-cons (fold lower cmd.name) (fold lower k) acc.aliases
      (collect_keys-contains lower cmd.aliases acc.aliases k acc.collected e))

module _ (lower : ℕ → ℕ) {H : Type 0} (r : Registry H) (cmd : Command H) (keys : List Text) where
  lookup-write_new :
      (k : Text)
      → contains keys (fold lower k) ≡ true
      → lookup lower (write lower r cmd keys) k ≡ some cmd
  unfolding lookup write
  lookup-write_new k h =
      let name = fold lower cmd.name in
      let named : get (put_keys keys name r.canonical) (fold lower k) ≡ some name =
        get-put_keys keys name r.canonical (fold lower k) ∙ rw h in
      let found : get (put r.commands name cmd) name ≡ some cmd =
        ground (arith, get-put r.commands name cmd name, list_beq_iff name name) in
      rw named found

  lookup-write_old :
      (k : Text) (c : Command H)
      → IsWellFormed lower r
      → IsAccepted lower r cmd keys
      → lookup lower r k ≡ some c
      → lookup lower (write lower r cmd keys) k ≡ some c
  unfolding lookup write
  lookup-write_old k c wf acc h = elim (Option-cases (get r.canonical (fold lower k))) [
    | inl e ↦ let no_command : none ≡ some c = rw e at h in absurd (cc)
    | inr (n, e) ↦
        let name = fold lower cmd.name in
        let found : get r.commands n ≡ some c = rw e at h in
        let old = known_key lower r cmd keys wf acc (fold lower k) n e in
        let named : get (put_keys keys name r.canonical) (fold lower k) ≡ some n =
          get-put_keys keys name r.canonical (fold lower k) ∙ rw old e in
        rw named (commands_kept lower r cmd keys wf acc n c found)
  ]

-- After a registration the command is found under its name and under each of its aliases, in any
-- spelling that folds to the same key.
pub lookup-register :
    (lower : ℕ → ℕ) {H : Type 0} (r r' : Registry H) (cmd : Command H) (k j : Text)
    → register lower r cmd ≡ ok r'
    → Elem k (cmd.name ∷ cmd.aliases)
    → fold lower j ≡ fold lower k
    → lookup lower r' j ≡ some cmd
lookup-register lower r r' cmd k j h e same =
    let (keys, acc, written) = register-write lower r cmd h in
    rw (← written)
      (lookup-write_new lower r cmd keys j (rw same (IsAccepted-contains lower r cmd keys k acc e)))

-- A registration takes no name from another command: whatever a name or alias led to in a
-- well-formed registry, it leads to afterwards.
pub lookup-register_kept :
    (lower : ℕ → ℕ) {H : Type 0} (r r' : Registry H) (cmd c : Command H) (k : Text)
    → IsWellFormed lower r
    → register lower r cmd ≡ ok r'
    → lookup lower r k ≡ some c
    → lookup lower r' k ≡ some c
lookup-register_kept lower r r' cmd c k wf h found =
    let (keys, acc, written) = register-write lower r cmd h in
    rw (← written) (lookup-write_old lower r cmd keys k c wf acc found)

-- A command with a name or alias that already leads to a command is never registered.
pub register_taken :
    (lower : ℕ → ℕ) {H : Type 0} (r r' : Registry H) (cmd c : Command H) (k : Text)
    → lookup lower r k ≡ some c
    → Elem k (cmd.name ∷ cmd.aliases)
    → ¬ (register lower r cmd ≡ ok r')
unfolding lookup
register_taken lower r r' cmd c k found e h =
    let (keys, acc, written) = register-write lower r cmd h in
    let free = (acc.free (fold lower k) (IsAccepted-contains lower r cmd keys k acc e)).unnamed in
    let no_command : none ≡ some c = rw free at found in absurd (cc)
