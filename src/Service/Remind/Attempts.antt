-- ===== src/Service/Remind/Attempts.antt =====
-- pkg/cron/cronjob/remind.go: what a round of the job does to a row that nobody confirms.
use gin_bot.Base.{
  ℕ, ◌+◌, ◌*◌, ◌≤◌, ◌<◌, ◌==◌, ◌≡◌, refl, Bool, true, false, ◌||◌, Option, none, some, inl, inr,
  arith, Bool-cases, if◌then◌else◌, some-eq,
}
use gin_bot.Reminder.Table.{
  Row, Status, status_number, unspecified, pending, sent, delivered, failed, is_due, is_stale,
  claim, reclaim, stale_claim_grace, has_status, is_before,
}
use gin_bot.Reminder.Table.Rows.{Fits, IsCoherent}
use gin_bot.Service.Remind.Rows.{next_row, reclaim-IsCoherent}

-- Still to be delivered, or waiting for a confirmation.
abbrev pub is_outstanding : Row → Bool
is_outstanding r = has_status pending r || has_status sent r

-- The attempts of a live outstanding row that was due by the start pay for the time up to `limit`,
-- a period each; so does its last attempt for the period behind its claim.
abbrev pub IsPaid : ℕ → ℕ → ℕ → ℕ → Row → Type 0
IsPaid start base period limit r =
    r.deleted ≡ false
    → r.datetime ≤ start
    → is_outstanding r ≡ true
    → (limit ≤ base + r.delivery_attempts * period)
      × ((t : ℕ) → r.claimed_at ≡ some t → t + period ≤ base + r.delivery_attempts * period)

next_attempt : (n period : ℕ) → (n + 1) * period ≡ n * period + period
next_attempt n period = grind arith

module _ (start base period limit : ℕ) where
  -- One attempt more pays for a period more.
  pub claim-IsPaid :
      (now longer : ℕ) (r : Row)
      → is_due now r ≡ true
      → now ≤ limit
      → longer ≤ limit + period
      → IsPaid start base period limit r
      → IsPaid start base period longer (claim now r)
  claim-IsPaid now longer r due early near paid live soon outstanding =
      let (enough, each) = paid live soon (ground arith) in
      let more = next_attempt r.delivery_attempts period in
      (omega (arith, more), λ t e. let same : now ≡ t = some-eq e in omega (arith, more))

  pub reclaim-IsPaid :
      (now : ℕ) (r : Row)
      → is_stale now r ≡ true
      → IsPaid start base period limit r
      → IsPaid start base period limit (reclaim r)
  reclaim-IsPaid now r stale paid live soon outstanding =
      let (enough, each) = paid live soon (ground arith) in (enough, λ t e. absurd (cc))

-- A sent row has a claim.
sent_claim :
    (status : Status) (claimed : Option ℕ) (n : ℕ)
    → Fits status claimed n
    → (status_number status == 2) ≡ true
    → (t : ℕ) × (claimed ≡ some t)
sent_claim sent none n h e = absurd h
sent_claim sent (some t) n h e = (t, refl)
sent_claim unspecified claimed n h e = absurd (cc)
sent_claim pending claimed n h e = absurd (cc)
sent_claim delivered claimed n h e = absurd (cc)
sent_claim failed claimed n h e = absurd (cc)

unclaimed :
    (now : ℕ) (claimed : Option ℕ) (t : ℕ)
    → claimed ≡ some t
    → is_before claimed now ≡ false
    → now < t + stale_claim_grace
unclaimed now none t e h = absurd (cc)
unclaimed now (some u) t e h = let same : u ≡ t = some-eq e in ground arith

-- A row with no lost claim that is not due either.
waiting-IsPaid :
    (start base step limit now : ℕ) (r : Row)
    → start ≤ now
    → IsCoherent r
    → is_stale now r ≡ false
    → is_due now r ≡ false
    → IsPaid start base (stale_claim_grace + step) limit r
    → IsPaid start base (stale_claim_grace + step) (now + step) r
waiting-IsPaid start base step limit now r le fits fresh wait paid live soon outstanding =
    let (enough, each) = paid live soon outstanding in
    let is_sent : has_status sent r ≡ true = ground arith in
    let (t, e) = sent_claim r.status r.claimed_at r.delivery_attempts fits is_sent in
    let young : now < t + stale_claim_grace = unclaimed now r.claimed_at t e (ground arith) in
    let before = each t e in (omega arith, each)

-- The claim of a row that is not given up yet, at a round that no call failed in.
settled-IsPaid :
    (start base step limit now : ℕ) (q : Row)
    → start ≤ now
    → now ≤ limit
    → IsCoherent q
    → is_stale now q ≡ false
    → IsPaid start base (stale_claim_grace + step) limit q
    → IsPaid start base
        (stale_claim_grace + step)
        (now + step)
        (if is_due now q then claim now q else q)
settled-IsPaid start base step limit now q le early fits fresh paid =
    elim (Bool-cases (is_due now q)) [
      | inl due ↦ rw due (
          claim-IsPaid start base (stale_claim_grace + step) limit now (now + step) q due early
            (omega arith) paid)
      | inr wait ↦ rw wait (waiting-IsPaid start base step limit now q le fits fresh wait paid)
    ]

pub next_row-IsPaid :
    (start base step limit now : ℕ) (r : Row)
    → start ≤ now
    → now ≤ limit
    → IsCoherent r
    → IsPaid start base (stale_claim_grace + step) limit r
    → IsPaid start base (stale_claim_grace + step) (now + step) (next_row now r)
next_row-IsPaid start base step limit now r le early fits paid =
    elim (Bool-cases (is_stale now r)) [
      | inl stale ↦ rw stale (
          settled-IsPaid start base step limit now (reclaim r) le early
            (reclaim-IsCoherent now r stale fits) (ground arith)
            (reclaim-IsPaid start base (stale_claim_grace + step) limit now r stale paid))
      | inr fresh ↦ rw fresh (settled-IsPaid start base step limit now r le early fits fresh paid)
    ]
