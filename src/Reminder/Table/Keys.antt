-- ===== src/Reminder/Table/Keys.antt =====
-- pkg/db/reminder.go: the ids and the refs of the reminder rows, through updates and inserts.
use gin_bot.Base.{
  ℕ, ◌+◌, ◌-◌, ◌≤◌, ◌≡◌, refl, ap, Bool, true, false, List, [], ◌∷◌, ◌++◌, Option, none, some, inl,
  inr, All, arith, list_beq_iff, Bool-cases, if◌then◌else◌,
}
use gin_bot.Base.Table.{update_where, any_where, find_where, find_where-some}
use gin_bot.Base.Text.{Text}
use gin_bot.Reminder.Table.{Row, owned_by, has_id, uuid_of, max_ref}
use gin_bot.Reminder.Table.Rows.{IsApart, IsKeyed}

abbrev pub KeepsKeys : (Row → Row) → Type 0
KeepsKeys change =
    (r : Row) → ((change r).id ≡ r.id) × ((change r).ref ≡ r.ref) × ((change r).user_id ≡ r.user_id)

IsApart-change :
    (r q p o : Row)
    → (p.id ≡ r.id) × (p.ref ≡ r.ref) × (p.user_id ≡ r.user_id)
    → (o.id ≡ q.id) × (o.ref ≡ q.ref) × (o.user_id ≡ q.user_id)
    → IsApart r q
    → IsApart p o
IsApart-change r q p o (i, n, u) (j, m, v) (ids, refs) =
    (rw (i, j) ids, λ user own other. rw (n, m) (refs user (rw u at own) (rw v at other)))

update_keys :
    (test : Row → Bool) (change : Row → Row) (r : Row)
    → KeepsKeys change
    → ((if test r then change r else r).id ≡ r.id)
      × ((if test r then change r else r).ref ≡ r.ref)
      × ((if test r then change r else r).user_id ≡ r.user_id)
update_keys test change r keys = elim (Bool-cases (test r)) [
  | inl e ↦ rw e (keys r)
  | inr e ↦ rw e (refl, refl, refl)
]

IsApart-update :
    (test : Row → Bool) (change : Row → Row) (r p : Row) (rows : List Row)
    → KeepsKeys change
    → (p.id ≡ r.id) × (p.ref ≡ r.ref) × (p.user_id ≡ r.user_id)
    → All (IsApart r) rows
    → All (IsApart p) (update_where test change rows)
unfolding update_where
IsApart-update test change r p [] keys same apart = tt
IsApart-update test change r p (q ∷ rows) keys same (here, apart) = (
  IsApart-change r q p (if test q then change q else q) same (update_keys test change q keys) here,
  IsApart-update test change r p rows keys same apart,
)

pub update_where-IsKeyed :
    (test : Row → Bool) (change : Row → Row) (rows : List Row)
    → KeepsKeys change
    → IsKeyed rows
    → IsKeyed (update_where test change rows)
unfolding update_where
update_where-IsKeyed test change [] keys keyed = tt
update_where-IsKeyed test change (r ∷ rows) keys (here, keyed) = (
  IsApart-update test change r (if test r then change r else r) rows keys
      (update_keys test change r keys) here,
  update_where-IsKeyed test change rows keys keyed,
)

IsApart-append :
    (r q : Row) (rows : List Row)
    → All (IsApart r) rows
    → IsApart r q
    → All (IsApart r) (rows ++ (q ∷ []))
IsApart-append r q [] all apart = (apart, tt)
IsApart-append r q (p ∷ rows) (here, all) apart = (here, IsApart-append r q rows all apart)

append_last-IsKeyed :
    (q : Row) (rows : List Row)
    → All (λ r. IsApart r q) rows
    → IsKeyed rows
    → IsKeyed (rows ++ (q ∷ []))
append_last-IsKeyed q [] apart keyed = (tt, tt)
append_last-IsKeyed q (r ∷ rows) (here, apart) (all, keyed) =
    (IsApart-append r q rows all here, append_last-IsKeyed q rows apart keyed)

-- Every ref of the user's is at most the greatest one.
abbrev IsRefBelow : Text → ℕ → Row → Type 0
IsRefBelow user n r = owned_by user r.user_id ≡ true → r.ref ≤ n

IsRefBelow-mono :
    (user : Text) (n m : ℕ) (rows : List Row)
    → n ≤ m
    → All (IsRefBelow user n) rows
    → All (IsRefBelow user m) rows
IsRefBelow-mono user n m [] le h = tt
IsRefBelow-mono user n m (r ∷ rows) le (here, h) =
    (λ own. let below = here own in omega arith, IsRefBelow-mono user n m rows le h)

max_ref-grows :
    (user : Text) (r : Row) (rows : List Row) → max_ref user rows ≤ max_ref user (r ∷ rows)
unfolding max_ref
max_ref-grows user r rows = ground arith

max_ref-here :
    (user : Text) (r : Row) (rows : List Row) → IsRefBelow user (max_ref user (r ∷ rows)) r
unfolding max_ref
max_ref-here user r rows own = ground arith

max_ref_lem : (user : Text) (rows : List Row) → All (IsRefBelow user (max_ref user rows)) rows
max_ref_lem user [] = tt
max_ref_lem user (r ∷ rows) = (
  max_ref-here user r rows,
  IsRefBelow-mono user _ _ rows (max_ref-grows user r rows) (max_ref_lem user rows),
)

owner_unique :
    (u v : Text) (owner : Option Text) → owned_by u owner ≡ true → owned_by v owner ≡ true → u ≡ v
owner_unique u v none h k = absurd (cc)
owner_unique u v (some w) h k =
    let e = (list_beq_iff w u).0 h in let f = (list_beq_iff w v).0 k in cc

fresh-IsApart :
    (q r : Row) (user : Text)
    → q.user_id ≡ some user
    → IsRefBelow user (q.ref - 1) r
    → 1 ≤ q.ref
    → has_id q.id r ≡ false
    → IsApart r q
fresh-IsApart q r user owner below positive other = (
  other,
  λ v own mine same.
      let e : user ≡ v =
        owner_unique user v q.user_id (rw owner ((list_beq_iff user user).1 refl)) mine in
      let le = below (rw e own) in omega arith,
)

fresh-All :
    (q : Row) (user : Text) (rows : List Row)
    → q.user_id ≡ some user
    → 1 ≤ q.ref
    → All (IsRefBelow user (q.ref - 1)) rows
    → any_where (has_id q.id) rows ≡ false
    → All (λ r. IsApart r q) rows
unfolding any_where
fresh-All q user [] owner positive below other = tt
fresh-All q user (r ∷ rows) owner positive (here, below) other = (
  fresh-IsApart q r user owner here positive (ground arith),
  fresh-All q user rows owner positive below (ground arith),
)

-- A row with a new id and a ref above the owner's others.
pub append-IsKeyed :
    (q : Row) (user : Text) (rows : List Row)
    → q.user_id ≡ some user
    → q.ref ≡ max_ref user rows + 1
    → any_where (has_id q.id) rows ≡ false
    → IsKeyed rows
    → IsKeyed (rows ++ (q ∷ []))
append-IsKeyed q user rows owner next other keyed =
    append_last-IsKeyed q rows
      (fresh-All q user rows owner (omega arith)
        (rw next (IsRefBelow-mono user _ _ rows (omega arith) (max_ref_lem user rows))) other)
      keyed

-- The rows with the id of a row that a query found have its owner.
abbrev pub HasOwner : Text → Option Text → Row → Type 0
HasOwner id owner q = has_id id q ≡ true → q.user_id ≡ owner

other_ids :
    (r : Row) (rows : List Row) (id : Text) (owner : Option Text)
    → has_id id r ≡ true
    → All (IsApart r) rows
    → All (HasOwner id owner) rows
other_ids r [] id owner hit apart = tt
other_ids r (q ∷ rows) id owner hit ((ids, refs), apart) = (
  λ same.
      let e = (list_beq_iff (uuid_of r.id) (uuid_of id)).0 hit in
      let f = (list_beq_iff (uuid_of q.id) (uuid_of id)).0 same in
      let g = (list_beq_iff (uuid_of r.id) (uuid_of q.id)).1 (cc) in absurd (cc),
  other_ids r rows id owner hit apart,
)

other_row : (id : Text) (q r : Row) → IsApart q r → has_id id r ≡ true → HasOwner id r.user_id q
other_row id q r (ids, refs) hit same =
    let e = (list_beq_iff (uuid_of r.id) (uuid_of id)).0 hit in
    let f = (list_beq_iff (uuid_of q.id) (uuid_of id)).0 same in
    let g = (list_beq_iff (uuid_of q.id) (uuid_of r.id)).1 (cc) in absurd (cc)

pub find_where-HasOwner :
    (id : Text) (test : Row → Bool) (rows : List Row) (r : Row)
    → ((q : Row) → test q ≡ true → has_id id q ≡ true)
    → IsKeyed rows
    → find_where test rows ≡ some r
    → All (HasOwner id r.user_id) rows
unfolding find_where
find_where-HasOwner id test [] r hits keyed found = tt
find_where-HasOwner id test (q ∷ rows) r hits (apart, keyed) found = elim (Bool-cases (test q)) [
  | inl e ↦
      let same : q ≡ r = ground arith in
      (λ hit. ap (λ o. o.user_id) same, other_ids q rows id r.user_id (hits q e) apart)
  | inr e ↦
      let later : find_where test rows ≡ some r = (rw e at found) in
      (
        other_row id q r (find_where-some (IsApart q) test rows apart later).0
            (hits r (find_where-some (IsApart q) test rows apart later).1),
        find_where-HasOwner id test rows r hits keyed later,
      )
]
