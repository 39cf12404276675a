-- ===== src/Command/Registry/Groups.antt =====
-- What `Register` promises to those who resolve a group and a sub name.
use gin_bot.Base.{ℕ, false, List, ◌∷◌, none, some, list_beq_iff, list_eq, ◌≡◌, refl, ◌∙◌}
use gin_bot.Base.Dict.{get, get-put}
use gin_bot.Base.Result.{ok}
use gin_bot.Base.Text.{Text}
use gin_bot.Command.{Command, fold}
use gin_bot.Command.Registry.{
  CommandGroup, Registry, is_blank, put_keys, group_of, add_member, write, register, lookup,
  resolve_chat,
}
use gin_bot.Command.Registry.WellFormed.{IsWellFormed, IsAccepted, check_group-free}
use gin_bot.Command.Registry.Kept.{
  get-add_member, joined, own_group_free, new_command, unchanged_free,
}
use gin_bot.Command.Registry.Names.{register-write}

module _ (lower : ℕ → ℕ) {H : Type 0} (r : Registry H) (cmd : Command H) (keys : List Text)
    (wf : IsWellFormed lower r) (acc : IsAccepted lower r cmd keys)
    (grouped : is_blank (fold lower cmd.group) ≡ false) where
  group_unnamed :
      get (put_keys keys (fold lower cmd.name) r.canonical) (fold lower cmd.group) ≡ none
  group_unnamed =
      unchanged_free lower r cmd keys wf acc (fold lower cmd.group)
        (check_group-free r (fold lower cmd.group) (fold lower cmd.sub) acc.grouped grouped).0
        (own_group_free lower r cmd keys wf acc)

  group_joined :
      get
        (add_member r cmd (fold lower cmd.group) (fold lower cmd.sub) (fold lower cmd.name))
        (fold lower cmd.group)
      ≡ some (joined r cmd (fold lower cmd.group) (fold lower cmd.sub) (fold lower cmd.name))
  group_joined =
      let group = fold lower cmd.group in
      get-add_member r cmd group (fold lower cmd.sub) (fold lower cmd.name) group
      ∙ rw (grouped, (list_beq_iff group group).1 refl)

  sub_found :
      get
        (joined r cmd (fold lower cmd.group) (fold lower cmd.sub) (fold lower cmd.name)).members
        (fold lower cmd.sub)
      ≡ some (fold lower cmd.name)
  sub_found =
      let sub = fold lower cmd.sub in
      get-put (group_of cmd (get r.groups (fold lower cmd.group))).members sub (fold lower cmd.name)
        sub
      ∙ rw ((list_beq_iff sub sub).1 refl)

  lookup-group : lookup lower (write lower r cmd keys) cmd.group ≡ none
  unfolding lookup write
  lookup-group = rw group_unnamed

  resolve_chat-write :
      (args : List Text)
      → resolve_chat lower (write lower r cmd keys) cmd.group (cmd.sub ∷ args) ≡ some (cmd, args)
  unfolding resolve_chat
  resolve_chat-write args =
      rw lookup-group
        (unfold write in rw (group_joined, sub_found, new_command lower r cmd keys wf acc))

-- After a grouped command is registered, its group followed by its sub resolves to it and leaves
-- the other arguments: no flat name shadows the group.
pub resolve_chat-register :
    (lower : ℕ → ℕ) {H : Type 0} (r r' : Registry H) (cmd : Command H) (args : List Text)
    → IsWellFormed lower r
    → register lower r cmd ≡ ok r'
    → is_blank (fold lower cmd.group) ≡ false
    → resolve_chat lower r' cmd.group (cmd.sub ∷ args) ≡ some (cmd, args)
resolve_chat-register lower r r' cmd args wf h grouped =
    let (keys, acc, written) = register-write lower r cmd h in
    rw (← written) (resolve_chat-write lower r cmd keys wf acc grouped args)

-- In a well-formed registry a group's member always leads to a command: resolving a group that is
-- no flat name, followed by a sub of the group, succeeds with the arguments after the sub.
resolve_chat-member :
    (lower : ℕ → ℕ) {H : Type 0} (r : Registry H) (g sub n : Text) (grp : CommandGroup)
    (args : List Text)
    → IsWellFormed lower r
    → get r.groups (fold lower g) ≡ some grp
    → get grp.members (fold lower sub) ≡ some n
    → (c : Command H) × (get r.commands n ≡ some c)
      × (resolve_chat lower r g (sub ∷ args) ≡ some (c, args))
resolve_chat-member lower r g sub n grp args wf isgroup member =
    let unnamed : lookup lower r g ≡ none =
      unfold lookup in rw (wf.group_disjoint (fold lower g) grp isgroup) in
    let (c, found) = wf.member_resolves (fold lower g) (fold lower sub) n grp isgroup member in
    (c, found, unfold resolve_chat in rw (unnamed, isgroup, member, found))
