-- ===== src/Trigger/Select/Choice.antt =====
-- Which candidate a message resolves to, for every roller.
use gin_bot.Base.{
  ℕ, zero, suc, ◌<◌, ◌≡◌, sym, ◌∙◌, ◌≢◌, Bool, true, false, ◌&&◌, List, [], ◌∷◌, ◌++◌, append-nil,
  append_assoc, some, arith, length, get_elem?, get_elem?-some, take, keep, Elem, All,
  if◌then◌else◌, ◌⊎◌, inl, inr, Bool-cases,
}
use gin_bot.Base.Text.{Text}
use gin_bot.Trigger.{exact, max_candidates}
use gin_bot.Trigger.Spoiler.{strip_spoilers}
use gin_bot.Trigger.Select.{
  Candidate, Roller, match_string, is_exact, is_empty, scan, roll_index, pick, pool, select,
}

abbrev hits : Text → Candidate → Bool
hits message c = match_string c.pattern message

abbrev hits_exactly : Text → Candidate → Bool
hits_exactly message c = match_string c.pattern message && is_exact c.mode

scan-keep :
    (message : Text) (ms es cs : List Candidate)
    → scan message ms es cs ≡ (ms ++ keep (hits message) cs, es ++ keep (hits_exactly message) cs)
unfolding scan
scan-keep message ms es [] = rw (append-nil ms, append-nil es)
scan-keep message ms es (c ∷ cs) =
    let here : List Candidate = c ∷ [] in
    ground (
      arith,
      scan-keep message (ms ++ here) (es ++ here) cs,
      scan-keep message (ms ++ here) es cs,
      scan-keep message ms es cs,
      append_assoc ms here (keep (hits message) cs),
      append_assoc es here (keep (hits_exactly message) cs),
    )

-- The candidates that match, or only the exact ones among them if there is one.
pool-keep :
    (message : Text) (cs : List Candidate)
    → pool message cs ≡ (
        let exacts = keep (hits_exactly message) (take max_candidates cs) in
        if is_empty exacts then keep (hits message) (take max_candidates cs) else exacts)
unfolding pool
pool-keep message cs = rw (scan-keep message [] [] (take max_candidates cs))

get_elem?-Elem : {A : Type 0} (xs : List A) (i : ℕ) {a : A} → get_elem? xs i ≡ some a → Elem a xs
get_elem?-Elem [] i h = cc
get_elem?-Elem (x ∷ xs) zero h = inl (cc)
get_elem?-Elem (x ∷ xs) (suc i) h = inr (get_elem?-Elem xs i h)

keep-Elem :
    {A : Type 0} (p : A → Bool) (xs : List A) (a : A)
    → Elem a (keep p xs)
    → Elem a xs × (p a ≡ true)
keep-Elem p [] a h = absurd h
keep-Elem p (x ∷ xs) a h = elim (Bool-cases (p x)) [
  | inl e ↦
      let h' : Elem a (x ∷ keep p xs) = rw e at h in
      elim h' [
        | inl q ↦ (inl q, cc)
        | inr r ↦ let (there, passes) = keep-Elem p xs a r in (inr there, passes)
      ]
  | inr e ↦
      let h' : Elem a (keep p xs) = rw e at h in
      let (there, passes) = keep-Elem p xs a h' in (inr there, passes)
]

keep-nil :
    {A : Type 0} (p : A → Bool) (xs : List A)
    → is_empty (keep p xs) ≡ true
    → All (λ x. p x ≡ false) xs
keep-nil p [] h = tt
keep-nil p (x ∷ xs) h = ground (arith, keep-nil p xs)

roll_index-lt : (roll : Roller) (n : ℕ) → 0 < n → roll_index roll n < n
unfolding roll_index
roll_index-lt roll n h = ground arith

pick-Elem :
    (roll : Roller) (cs : List Candidate) {c : Candidate} → pick roll cs ≡ some c → Elem c cs
unfolding pick
pick-Elem roll [] h = cc
pick-Elem roll (c ∷ cs) h = get_elem?-Elem (c ∷ cs) (roll_index roll (length (c ∷ cs))) h

pick_total :
    (roll : Roller) (c : Candidate) (cs : List Candidate)
    → (d : Candidate) × (pick roll (c ∷ cs) ≡ some d)
unfolding pick
pick_total roll c cs =
    get_elem?-some (c ∷ cs) (roll_index roll (length (c ∷ cs)))
      (roll_index-lt roll (length (c ∷ cs)) (omega arith))

hits_exactly_parts :
    (message : Text) (c : Candidate)
    → hits_exactly message c ≡ true
    → (hits message c ≡ true) × (c.mode ≡ exact)
hits_exactly_parts message c h = ground arith

-- What a choice from the pool is: a candidate of the first five hundred that matches, and an exact
-- one unless no exact one matches.
pool_sound :
    (message : Text) (cs : List Candidate) (c : Candidate)
    → Elem c (pool message cs)
    → Elem c (take max_candidates cs)
      × (hits message c ≡ true)
      × ((c.mode ≡ exact) ⊎ All (λ d. hits_exactly message d ≡ false) (take max_candidates cs))
pool_sound message cs c h =
    elim (Bool-cases (is_empty (keep (hits_exactly message) (take max_candidates cs)))) [
      | inl e ↦
          let h' : Elem c (keep (hits message) (take max_candidates cs)) =
            rw (pool-keep message cs, e) at h in
          let (there, passes) = keep-Elem (hits message) (take max_candidates cs) c h' in
          (there, passes, inr (keep-nil (hits_exactly message) (take max_candidates cs) e))
      | inr e ↦
          let h' : Elem c (keep (hits_exactly message) (take max_candidates cs)) =
            rw (pool-keep message cs, e) at h in
          let (there, passes) = keep-Elem (hits_exactly message) (take max_candidates cs) c h' in
          let (hit, mode) = hits_exactly_parts message c passes in (there, hit, inl mode)
    ]

select-pick :
    (message : Text) (cs : List Candidate) (roll : Roller)
    → strip_spoilers message ≢ []
    → select message cs roll ≡ pick roll (pool (strip_spoilers message) cs)
unfolding select
select-pick message cs roll h = ground arith

select_nonempty :
    (message : Text) (cs : List Candidate) (roll : Roller) {c : Candidate}
    → select message cs roll ≡ some c
    → strip_spoilers message ≢ []
unfolding select
select_nonempty message cs roll h = ground arith

-- A selected candidate is one of the first five hundred and its pattern matches the message with
-- its spoilers stripped; and it is an exact trigger unless no exact one among them matches,
-- whatever the roller returns.
pub select_sound :
    (message : Text) (cs : List Candidate) (roll : Roller) {c : Candidate}
    → select message cs roll ≡ some c
    → Elem c (take max_candidates cs)
      × (match_string c.pattern (strip_spoilers message) ≡ true)
      × ((c.mode ≡ exact)
          ⊎ All
              (λ d. (match_string d.pattern (strip_spoilers message) && is_exact d.mode) ≡ false)
              (take max_candidates cs))
select_sound message cs roll {c} h = pool_sound (strip_spoilers message) cs c (
    pick-Elem roll (pool (strip_spoilers message) cs)
      (sym (select-pick message cs roll (select_nonempty message cs roll h)) ∙ h))

Elem-keep :
    {A : Type 0} (p : A → Bool) (xs : List A) (a : A)
    → Elem a xs
    → p a ≡ true
    → is_empty (keep p xs) ≡ false
Elem-keep p [] a h pa = absurd h
Elem-keep p (x ∷ xs) a h pa = elim (Bool-cases (p x)) [
  | inl e ↦ rw e
  | inr e ↦ elim h [ inl q ↦ cc | inr r ↦ rw e (Elem-keep p xs a r pa) ]
]

pool_nonempty :
    (message : Text) (cs : List Candidate) (c : Candidate)
    → Elem c (take max_candidates cs)
    → hits message c ≡ true
    → is_empty (pool message cs) ≡ false
pool_nonempty message cs c h hit =
    elim (Bool-cases (is_empty (keep (hits_exactly message) (take max_candidates cs)))) [
      | inl e ↦
          rw (pool-keep message cs, e) (Elem-keep (hits message) (take max_candidates cs) c h hit)
      | inr e ↦ rw (pool-keep message cs, e) e
    ]

pick_nonempty :
    (roll : Roller) (cs : List Candidate)
    → is_empty cs ≡ false
    → (d : Candidate) × (pick roll cs ≡ some d)
pick_nonempty roll [] h = absurd (cc)
pick_nonempty roll (c ∷ cs) h = pick_total roll c cs

-- A message that is not empty without its spoilers is answered as soon as one of the first five
-- hundred candidates matches it: no roller, in range or not, makes the choice fail.
pub select_total :
    (message : Text) (cs : List Candidate) (roll : Roller) (c : Candidate)
    → strip_spoilers message ≢ []
    → Elem c (take max_candidates cs)
    → match_string c.pattern (strip_spoilers message) ≡ true
    → (d : Candidate) × (select message cs roll ≡ some d)
select_total message cs roll c ne h hit =
    let (d, picked) =
      pick_nonempty roll (pool (strip_spoilers message) cs)
        (pool_nonempty (strip_spoilers message) cs c h hit) in
    (d, select-pick message cs roll ne ∙ picked)
