-- ===== src/Command/Registry/Kept.antt =====
-- A registration keeps the registry well formed, and takes no name from another command.
use gin_bot.Base.{
  ℕ, false, List, [], ◌∷◌, none, some, if◌then◌else◌, list_beq, list_beq_iff, list_eq, ◌≡◌, refl,
  sym, ◌∙◌, arith, ◌⊎◌, inl, inr, Bool-cases, Option-cases, ap, some-eq,
}
use gin_bot.Base.Dict.{get, put, get-put, get-nil}
use gin_bot.Base.Text.{Text}
use gin_bot.Command.{Command, fold}
use gin_bot.Command.Registry.{
  CommandGroup, Registry, is_blank, contains, put_keys, group_of, add_member, write,
}
use gin_bot.Command.Registry.WellFormed.{IsWellFormed, IsAccepted, get-put_keys, check_group-free}

-- The group of the command with its new member.
abbrev pub joined : {H : Type 0} → Registry H → Command H → Text → Text → Text → CommandGroup
joined r cmd group sub name =
    let existing = group_of cmd (get r.groups group) in
    record existing { members = put existing.members sub name }

pub get-add_member :
    {H : Type 0} (r : Registry H) (cmd : Command H) (group sub name g : Text)
    → get (add_member r cmd group sub name) g ≡ (
        if is_blank group
        then get r.groups g
        else (if list_beq group g then some (joined r cmd group sub name) else get r.groups g))
unfolding add_member
get-add_member r cmd [] sub name g = refl
get-add_member r cmd (c ∷ s) sub name g = get-put r.groups (c ∷ s) (joined r cmd (c ∷ s) sub name) g

-- Where a group comes from after a registration.
get-add_member-cases :
    {H : Type 0} (r : Registry H) (cmd : Command H) (group sub name g : Text) {grp : CommandGroup}
    → get (add_member r cmd group sub name) g ≡ some grp
    → (get r.groups g ≡ some grp)
      ⊎ ((is_blank group ≡ false) × (group ≡ g) × (joined r cmd group sub name ≡ grp))
get-add_member-cases r cmd group sub name g {grp} h =
    let at = sym (get-add_member r cmd group sub name g) ∙ h in
    elim (Bool-cases (is_blank group)) [
      | inl blank ↦ inl (rw blank at at)
      | inr nonblank ↦ elim (Bool-cases (list_beq group g)) [
        | inl same ↦
            inr (nonblank, (list_beq_iff group g).0 same, some-eq (rw (nonblank, same) at at))
        | inr other ↦ inl (rw (nonblank, other) at at)
      ]
    ]

module _ (lower : ℕ → ℕ) {H : Type 0} (r : Registry H) (cmd : Command H) (keys : List Text)
    (wf : IsWellFormed lower r) (acc : IsAccepted lower r cmd keys) where
  abbrev pub name : Text
  name = fold lower cmd.name

  abbrev pub group : Text
  group = fold lower cmd.group

  -- No command had the new one's name.
  name_free : (n : Text) (c : Command H) → get r.commands n ≡ some c → list_beq name n ≡ false
  name_free n c h = elim (Bool-cases (list_beq name n)) [
    | inl same ↦
        let named = wf.command_named n c h in
        let free = (acc.free name acc.named).unnamed in
        let eq = (list_beq_iff name n).0 same in absurd (cc)
    | inr other ↦ other
  ]

  -- A key that had a meaning is none of the new ones.
  pub known_key : (k n : Text) → get r.canonical k ≡ some n → contains keys k ≡ false
  known_key k n h = elim (Bool-cases (contains keys k)) [
    | inl new ↦ let free = (acc.free k new).unnamed in absurd (cc)
    | inr old ↦ old
  ]

  -- A group's name is none of the new keys.
  known_group :
      (g : Text) (grp : CommandGroup) → get r.groups g ≡ some grp → contains keys g ≡ false
  known_group g grp h = elim (Bool-cases (contains keys g)) [
    | inl new ↦ let free = (acc.free g new).ungrouped in absurd (cc)
    | inr old ↦ old
  ]

  pub own_group_free : contains keys group ≡ false
  own_group_free = elim (Bool-cases (contains keys group)) [
    | inl new ↦
        let apart = (acc.free group new).apart in
        let same = (list_beq_iff group group).1 refl in absurd (cc)
    | inr old ↦ old
  ]

  -- Commands are added, never dropped or replaced.
  pub commands_kept :
      (n : Text) (c : Command H)
      → get r.commands n ≡ some c
      → get (put r.commands (fold lower cmd.name) cmd) n ≡ some c
  commands_kept n c h = ground (arith, get-put r.commands name cmd n, name_free n c h)

  member_kept :
      (n : Text) (c : Command H)
      → get r.commands n ≡ some c
      → (d : Command H) × (get (put r.commands name cmd) n ≡ some d)
  member_kept n c h = (c, commands_kept n c h)

  pub new_command : get (put r.commands name cmd) name ≡ some cmd
  new_command = ground (arith, get-put r.commands name cmd name, list_beq_iff name name)

  write_resolves :
      (k n : Text)
      → get (put_keys keys name r.canonical) k ≡ some n
      → (c : Command H) × (get (put r.commands name cmd) n ≡ some c) × (fold lower c.name ≡ n)
  write_resolves k n h = elim (Bool-cases (contains keys k)) [
    | inl new ↦
        let eq : name ≡ n = ground (arith, get-put_keys keys name r.canonical k) in
        (cmd, rw (← eq) new_command, eq)
    | inr old ↦
        let there : get r.canonical k ≡ some n =
          ground (arith, get-put_keys keys name r.canonical k) in
        let (c, found, named) = wf.canonical_resolves k n there in
        (c, commands_kept n c found, named)
  ]

  write_named :
      (n : Text) (c : Command H)
      → get (put r.commands name cmd) n ≡ some c
      → get (put_keys keys name r.canonical) n ≡ some n
  write_named n c h = elim (Bool-cases (list_beq name n)) [
    | inl same ↦
        let eq = (list_beq_iff name n).0 same in
        rw (← eq) (ground (arith, get-put_keys keys name r.canonical name, acc.named))
    | inr other ↦
        let there : get r.commands n ≡ some c = ground (arith, get-put r.commands name cmd n) in
        let named = wf.command_named n c there in
        ground (arith, get-put_keys keys name r.canonical n, known_key n n named)
  ]

  pub unchanged_free :
      (g : Text)
      → get r.canonical g ≡ none
      → contains keys g ≡ false
      → get (put_keys keys name r.canonical) g ≡ none
  unchanged_free g free old = ground (arith, get-put_keys keys name r.canonical g)

  write_disjoint :
      (g : Text) (grp : CommandGroup)
      → get (add_member r cmd group (fold lower cmd.sub) name) g ≡ some grp
      → get (put_keys keys name r.canonical) g ≡ none
  write_disjoint g grp h = elim (get-add_member-cases r cmd group (fold lower cmd.sub) name g h) [
    | inl there ↦ unchanged_free g (wf.group_disjoint g grp there) (known_group g grp there)
    | inr (nonblank, same, _) ↦ rw (← same) (
        unchanged_free group
          (check_group-free r (fold lower cmd.group) (fold lower cmd.sub) acc.grouped nonblank).0
          own_group_free)
  ]

  old_member :
      (s n : Text)
      → (get r.groups group ≡ none) ⊎ ((g : CommandGroup) × (get r.groups group ≡ some g))
      → get (group_of cmd (get r.groups group)).members s ≡ some n
      → (d : Command H) × (get (put r.commands name cmd) n ≡ some d)
  old_member s n (inl e) h = absurd (ground (arith, get-nil {V = Text} s))
  old_member s n (inr (g, e)) h =
      let (c, found) = wf.member_resolves group s n g e (rw e at h) in member_kept n c found

  joined_member :
      (s n : Text)
      → get (joined r cmd group (fold lower cmd.sub) name).members s ≡ some n
      → (d : Command H) × (get (put r.commands name cmd) n ≡ some d)
  joined_member s n h =
      let existing = group_of cmd (get r.groups group) in
      let at = sym (get-put existing.members (fold lower cmd.sub) name s) ∙ h in
      elim (Bool-cases (list_beq (fold lower cmd.sub) s)) [
        | inl same ↦ let eq : name ≡ n = some-eq (rw same at at) in (cmd, rw (← eq) new_command)
        | inr other ↦ old_member s n (Option-cases (get r.groups group)) (rw other at at)
      ]

  write_members :
      (g s n : Text) (grp : CommandGroup)
      → get (add_member r cmd group (fold lower cmd.sub) name) g ≡ some grp
      → get grp.members s ≡ some n
      → (d : Command H) × (get (put r.commands name cmd) n ≡ some d)
  write_members g s n grp h k =
      elim (get-add_member-cases r cmd group (fold lower cmd.sub) name g h) [
        | inl there ↦ let (c, found) = wf.member_resolves g s n grp there k in member_kept n c found
        | inr (nonblank, same, eq) ↦
            joined_member s n (ap (λ (x : CommandGroup). get x.members s) eq ∙ k)
      ]

  pub write-IsWellFormed : IsWellFormed lower (write lower r cmd keys)
  unfolding write
  write-IsWellFormed = record {
    canonical_resolves = write_resolves;
    command_named = write_named;
    group_disjoint = write_disjoint;
    member_resolves = write_members;
  }
