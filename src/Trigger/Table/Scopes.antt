-- ===== src/Trigger/Table/Scopes.antt =====
-- pkg/db/trigger.go: which instances a statement concerns.
use gin_bot.Base.{
  ℕ, ◌==◌, ◌≡◌, refl, sym, ◌∙◌, Bool, true, false, not, ◌&&◌, List, [], ◌∷◌, ◌++◌, inl, inr, arith,
  list_beq, list_beq_iff, Bool-cases, take, ap,
}
use gin_bot.Base.Table.{update_where, select_where-update, select_where-same, select_where-append}
use gin_bot.Base.Text.{Text}
use gin_bot.Trigger.{max_candidates}
use gin_bot.Trigger.Table.{
  Row, Tables, is_among, has_scope, add_scope, add_scopes, instances_of, actives_of, sort_by_id,
}

==_swap : (i j : ℕ) → (i == j) ≡ (j == i)
==_swap i j = ground arith

has_scope-instances_of :
    (id : Text) (i : ℕ) (scopes : List (Text × ℕ))
    → is_among i (instances_of id scopes) ≡ has_scope id i scopes
unfolding instances_of
has_scope-instances_of id i [] = refl
has_scope-instances_of id i ((t, j) ∷ scopes) = elim (Bool-cases (list_beq t id)) [
  | inl e ↦
      let rest = has_scope-instances_of id i scopes in
      let swap = ==_swap i j in rw (e, rest, swap) refl
  | inr e ↦ let rest = has_scope-instances_of id i scopes in rw (e, rest) refl
]

-- An update of the rows of one id, which keeps the id.
pub actives_of-update :
    (id : Text) (test : Row → Bool) (change : Row → Row) (i : ℕ) (s : Tables)
    → ((r : Row) → test r ≡ true → list_beq r.id id ≡ true)
    → ((r : Row) → (change r).id ≡ r.id)
    → is_among i (instances_of id s.scopes) ≡ false
    → actives_of i (record s { triggers = update_where test change s.triggers }) ≡ actives_of i s
unfolding actives_of
actives_of-update id test change i s hits keeps apart =
    ap (λ rows. take max_candidates (sort_by_id rows))
      (select_where-update (λ r. has_scope r.id i s.scopes && not r.deleted) test change s.triggers
        (λ r hit.
          let same : r.id ≡ id = (list_beq_iff r.id id).0 (hits r hit) in
          let outside : has_scope id i s.scopes ≡ false =
            ((sym (has_scope-instances_of id i s.scopes)) ∙ apart) in
          (rw (same, outside) refl, rw (keeps r, same, outside) refl)))

has_scope-append :
    (id t : Text) (i j : ℕ) (scopes : List (Text × ℕ))
    → (i == j) ≡ false
    → has_scope t i (scopes ++ ((id, j) ∷ [])) ≡ has_scope t i scopes
has_scope-append id t i j [] apart = ground (arith, ==_swap i j)
has_scope-append id t i j ((u, k) ∷ scopes) apart =
    let rest = has_scope-append id t i j scopes apart in rw rest refl

has_scope-add_scope :
    (id t : Text) (i j : ℕ) (scopes : List (Text × ℕ))
    → (i == j) ≡ false
    → has_scope t i (add_scope id j scopes) ≡ has_scope t i scopes
has_scope-add_scope id t i j scopes apart = elim (Bool-cases (has_scope id j scopes)) [
  | inl e ↦ rw e refl
  | inr e ↦ rw e (has_scope-append id t i j scopes apart)
]

has_scope-add_scopes :
    (id t : Text) (i : ℕ) (is : List ℕ) (scopes : List (Text × ℕ))
    → is_among i is ≡ false
    → has_scope t i (add_scopes id is scopes) ≡ has_scope t i scopes
unfolding add_scopes
has_scope-add_scopes id t i [] scopes apart = refl
has_scope-add_scopes id t i (j ∷ is) scopes apart =
    has_scope-add_scopes id t i is (add_scope id j scopes) (ground arith)
    ∙ has_scope-add_scope id t i j scopes (ground arith)

-- A new row with its scopes.
pub actives_of-insert :
    (r : Row) (is : List ℕ) (i next : ℕ) (s : Tables)
    → has_scope r.id i s.scopes ≡ false
    → is_among i is ≡ false
    → actives_of i (record s {
      triggers = s.triggers ++ (r ∷ []);
      scopes = add_scopes r.id is s.scopes;
      next_ref = next;
    })
      ≡ actives_of i s
unfolding actives_of
actives_of-insert r is i next s fresh apart =
    let same = λ (q : Row). has_scope-add_scopes r.id q.id i is s.scopes apart in
    ap (λ rows. take max_candidates (sort_by_id rows))
      (select_where-same (λ q. has_scope q.id i (add_scopes r.id is s.scopes) && not q.deleted)
          (λ q. has_scope q.id i s.scopes && not q.deleted) (s.triggers ++ (r ∷ []))
          (λ q. rw (same q) refl)
        ∙ select_where-append (λ q. has_scope q.id i s.scopes && not q.deleted) s.triggers r
            (rw fresh refl))
