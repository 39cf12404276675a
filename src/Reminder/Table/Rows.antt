-- ===== src/Reminder/Table/Rows.antt =====
-- pkg/db/reminder.go: the columns of a row that belong together, its keys, and whose rows a
-- statement changes.
use gin_bot.Base.{
  ℕ, ◌≤◌, ◌<◌, ◌≡◌, ◌≢◌, refl, Bool, true, false, List, [], ◌∷◌, ◌++◌, Option, none, some, inl, inr,
  All, Bool-cases,
}
use gin_bot.Base.Table.{update_where}
use gin_bot.Base.Text.{Text}
use gin_bot.Reminder.Table.{Row, Status, pending, sent, delivered, failed, owned_by, same_id}

-- The claim and the count of attempts that fit a status.
abbrev pub Fits : Status → Option ℕ → ℕ → Type 0
Fits pending none n = n < 5
Fits sent (some t) n = (1 ≤ n) × (n ≤ 5)
Fits delivered none n = (1 ≤ n) × (n ≤ 5)
Fits failed none n = (1 ≤ n) × (n ≤ 5)
Fits _ _ n = ⊥

abbrev pub IsCoherent : Row → Type 0
IsCoherent r = Fits r.status r.claimed_at r.delivery_attempts

-- No two rows share an id, nor two rows of one owner a ref.
abbrev pub IsApart : Row → Row → Type 0
IsApart r q =
    (same_id r.id q.id ≡ false)
    × ((user : Text)
        → owned_by user r.user_id ≡ true
        → owned_by user q.user_id ≡ true
        → r.ref ≢ q.ref)

abbrev pub IsKeyed : List Row → Type 0
IsKeyed [] = Unit
IsKeyed (r ∷ rows) = All (IsApart r) rows × IsKeyed rows

-- A row that is another's stays as it is, and no row changes its id, ref or owner.
abbrev KeepsOthers : Text → Row → Row → Type 0
KeepsOthers user r q =
    (q.id ≡ r.id)
    × (q.ref ≡ r.ref)
    × (q.user_id ≡ r.user_id)
    × (owned_by user r.user_id ≡ false → q ≡ r)

-- The table afterwards has the same rows in the same order, then new ones of the user's.
abbrev pub Frame : Text → List Row → List Row → Type 0
Frame user [] added = All (λ r. owned_by user r.user_id ≡ true) added
Frame user (r ∷ rows) [] = ⊥
Frame user (r ∷ rows) (q ∷ qs) = KeepsOthers user r q × Frame user rows qs

KeepsOthers-trans :
    (user : Text) (a b c : Row) → KeepsOthers user a b → KeepsOthers user b c → KeepsOthers user a c
KeepsOthers-trans user a b c (i, r, u, same) (j, s, v, keep) = (
  cc,
  cc,
  cc,
  λ other.
      let same_owner : owned_by user b.user_id ≡ false = rw (u) other in
      let left : b ≡ a = same other in let right : c ≡ b = keep same_owner in cc,
)

pub Frame-refl : (user : Text) (rows : List Row) → Frame user rows rows
Frame-refl user [] = tt
Frame-refl user (r ∷ rows) = ((refl, refl, refl, λ other. refl), Frame-refl user rows)

Frame-added :
    (user : Text) (rows qs : List Row)
    → All (λ r. owned_by user r.user_id ≡ true) rows
    → Frame user rows qs
    → All (λ r. owned_by user r.user_id ≡ true) qs
Frame-added user [] qs own frame = frame
Frame-added user (r ∷ rows) [] own frame = absurd frame
Frame-added user (r ∷ rows) (q ∷ qs) (here, own) ((i, n, u, keep), frame) =
    (rw u here, Frame-added user rows qs own frame)

pub Frame-trans :
    (user : Text) (rows qs ps : List Row)
    → Frame user rows qs
    → Frame user qs ps
    → Frame user rows ps
Frame-trans user [] qs ps first second = Frame-added user qs ps first second
Frame-trans user (r ∷ rows) [] ps first second = absurd first
Frame-trans user (r ∷ rows) (q ∷ qs) [] first second = absurd second
Frame-trans user (r ∷ rows) (q ∷ qs) (p ∷ ps) (one, first) (two, second) =
    (KeepsOthers-trans user r q p one two, Frame-trans user rows qs ps first second)

-- An update of rows that are all the user's.
pub update_where-Frame :
    (user : Text) (test : Row → Bool) (change : Row → Row) (rows : List Row)
    → ((r : Row)
        → ((change r).id ≡ r.id) × ((change r).ref ≡ r.ref) × ((change r).user_id ≡ r.user_id))
    → All (λ r. test r ≡ true → owned_by user r.user_id ≡ true) rows
    → Frame user rows (update_where test change rows)
unfolding update_where
update_where-Frame user test change [] keys own = tt
update_where-Frame user test change (r ∷ rows) keys (here, own) =
    let rest = update_where-Frame user test change rows keys own in
    elim (Bool-cases (test r)) [
      | inl e ↦
          let mine = here e in
          rw e (((keys r).0, (keys r).1, (keys r).2, λ other. absurd (cc)), rest)
      | inr e ↦ rw e ((refl, refl, refl, λ other. refl), rest)
    ]

pub append-Frame :
    (user : Text) (rows : List Row) (r : Row)
    → owned_by user r.user_id ≡ true
    → Frame user rows (rows ++ (r ∷ []))
append-Frame user [] r own = (own, tt)
append-Frame user (q ∷ rows) r own =
    ((refl, refl, refl, λ other. refl), append-Frame user rows r own)
