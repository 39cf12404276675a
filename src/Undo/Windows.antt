-- ===== src/Undo/Windows.antt =====
-- The undo windows over whole histories: what an undo takes back is what the history says.
use gin_bot.Base.{
  ℕ, ◌+◌, ◌≤◌, ◌≡◌, refl, List, [], ◌∷◌, Option, none, some, arith, ltb, if◌then◌else◌, pair_beq,
  pair_beq_iff, pair_eq, Bool-cases, inl, inr,
}
use gin_bot.Base.Dict.{
  get, guarded, IsMap, put-IsMap, delete-IsMap, retain-IsMap, get-retain, get-put, get-delete,
  get-nil,
}
use gin_bot.Base.Text.{Text}
use gin_bot.Undo.{
  UndoKey, UndoEntry, UndoWindows, new_undo_windows, is_open, prune_windows, arm, taken, consume,
  trigger_undo_window,
}

-- A response of a trigger to a key, or an undo by a key, at a clock reading.
pub data Event : Type 0 where
  fired : UndoKey → Text → ℕ → Event
  undo : UndoKey → ℕ → Event

abbrev event_time : Event → ℕ
event_time (fired k id t) = t
event_time (undo k t) = t

-- The clock does not step back from `now` over the events to `until`.
abbrev pub IsTimed : ℕ → List Event → ℕ → Type 0
IsTimed now [] until = now ≤ until
IsTimed now (e ∷ es) until = (now ≤ event_time e) × IsTimed (event_time e) es until

-- The code: the windows after a history.
unfoldable after_event : UndoWindows → Event → UndoWindows
after_event w (fired k id t) = arm w k id t
after_event w (undo k t) = (consume w k t).0

unfoldable pub after_all : UndoWindows → List Event → UndoWindows
unfolding after_event
after_all w [] = w
after_all w (e ∷ es) = after_all (after_event w e) es

-- The specification, without a map, a deadline or a prune: the key's last response and its time,
-- unless the key has undone since.
abbrev noted : UndoKey → Option (Text × ℕ) → Event → Option (Text × ℕ)
noted k last (fired j id t) = if pair_beq j k then some (id, t) else last
noted k last (undo j t) = if pair_beq j k then none else last

abbrev pub last_response : UndoKey → Option (Text × ℕ) → List Event → Option (Text × ℕ)
last_response k last [] = last
last_response k last (e ∷ es) = last_response k (noted k last e) es

abbrev pub answer : ℕ → Option (Text × ℕ) → Option Text
answer now none = none
answer now (some (id, t)) = if ltb now (t + trigger_undo_window) then some id else none

abbrev response_of : Option UndoEntry → Option Text
response_of none = none
response_of (some entry) = some entry.response_id

-- What an undo at `now` would take back from a stored entry.
abbrev found : ℕ → Option UndoEntry → Option Text
found now o = response_of (guarded (is_open now) o)

found-guarded :
    (o : Option UndoEntry) (t u : ℕ) → t ≤ u → found u (guarded (is_open t) o) ≡ found u o
found-guarded none t u h = refl
found-guarded (some e) t u h = ground arith

found-fresh :
    (id : Text) (t u : ℕ)
    → found u (some (record { response_id = id; expires_at = t + trigger_undo_window }))
      ≡ answer u (some (id, t))
found-fresh id t u = ground arith

taken_response :
    (w : UndoWindows) (k : UndoKey) (o : Option UndoEntry) → (taken w k o).1 ≡ response_of o
taken_response w k none = refl
taken_response w k (some e) = refl

get-prune_windows :
    (w : UndoWindows) (k : UndoKey) (t : ℕ)
    → IsMap w.pending
    → get (prune_windows w t).pending k ≡ guarded (is_open t) (get w.pending k)
unfolding prune_windows
get-prune_windows w k t m = get-retain (is_open t) w.pending k m

consume_response :
    (w : UndoWindows) (k : UndoKey) (t : ℕ)
    → IsMap w.pending
    → (consume w k t).1 ≡ found t (get w.pending k)
unfolding consume
consume_response w k t m = rw (
  taken_response (prune_windows w t) k (get (prune_windows w t).pending k),
  get-prune_windows w k t m,
)

get-taken :
    (w : UndoWindows) (k j : UndoKey) (o : Option UndoEntry)
    → get w.pending k ≡ o
    → get (taken w k o).0.pending j ≡ (if pair_beq k j then none else get w.pending j)
get-taken w k j none h = ground (arith, pair_beq_iff k j)
get-taken w k j (some e) h = get-delete w.pending k j

taken-IsMap :
    (w : UndoWindows) (k : UndoKey) (o : Option UndoEntry)
    → IsMap w.pending
    → IsMap (taken w k o).0.pending
taken-IsMap w k none m = m
taken-IsMap w k (some e) m = delete-IsMap w.pending k m

prune_windows-IsMap :
    (w : UndoWindows) (t : ℕ) → IsMap w.pending → IsMap (prune_windows w t).pending
unfolding prune_windows
prune_windows-IsMap w t m = retain-IsMap (is_open t) w.pending m

after_event-IsMap :
    (w : UndoWindows) (e : Event) → IsMap w.pending → IsMap (after_event w e).pending
unfolding after_event arm consume
after_event-IsMap w (fired k id t) m =
    put-IsMap (prune_windows w t).pending k _ (prune_windows-IsMap w t m)
after_event-IsMap w (undo k t) m =
    taken-IsMap (prune_windows w t) k (get (prune_windows w t).pending k)
      (prune_windows-IsMap w t m)

-- From `now` on, the stored entry answers as the specification.
abbrev Agrees : UndoWindows → UndoKey → Option (Text × ℕ) → ℕ → Type 0
Agrees w k last now = (u : ℕ) → now ≤ u → found u (get w.pending k) ≡ answer u last

after_event-Agrees :
    (w : UndoWindows) (k : UndoKey) (last : Option (Text × ℕ)) (e : Event) (now : ℕ)
    → IsMap w.pending
    → now ≤ event_time e
    → Agrees w k last now
    → Agrees (after_event w e) k (noted k last e) (event_time e)
unfolding after_event arm consume
after_event-Agrees w k last (fired j id t) now m h agrees u tu =
    let entry : UndoEntry = record { response_id = id; expires_at = t + trigger_undo_window } in
    let old : found u (get (prune_windows w t).pending k) ≡ answer u last =
      rw (get-prune_windows w k t m, found-guarded (get w.pending k) t u tu)
        (agrees u (omega arith)) in
    elim (Bool-cases (pair_beq j k)) [
      | inl e ↦ rw (get-put (prune_windows w t).pending j entry k, e) (found-fresh id t u)
      | inr e ↦ rw (get-put (prune_windows w t).pending j entry k, e) old
    ]
after_event-Agrees w k last (undo j t) now m h agrees u tu =
    let w' = prune_windows w t in
    let old : found u (get w'.pending k) ≡ answer u last =
      rw (get-prune_windows w k t m, found-guarded (get w.pending k) t u tu)
        (agrees u (omega arith)) in
    elim (Bool-cases (pair_beq j k)) [
      | inl e ↦ rw (get-taken w' j k (get w'.pending j) refl, e) refl
      | inr e ↦ rw (get-taken w' j k (get w'.pending j) refl, e) old
    ]

after_all-response :
    (w : UndoWindows) (k : UndoKey) (last : Option (Text × ℕ)) (es : List Event) (now until : ℕ)
    → IsMap w.pending
    → IsTimed now es until
    → Agrees w k last now
    → (consume (after_all w es) k until).1 ≡ answer until (last_response k last es)
unfolding after_all
after_all-response w k last [] now until m h agrees =
    rw (consume_response w k until m) (agrees until h)
after_all-response w k last (e ∷ es) now until m (h, rest) agrees =
    after_all-response (after_event w e) k (noted k last e) es (event_time e) until
      (after_event-IsMap w e m) rest (after_event-Agrees w k last e now m h agrees)

-- Over every history of responses and undos of any keys, with a clock that does not step back, an
-- undo takes back exactly the key's last response: it must be less than seven seconds old, and the
-- key must not have undone since.
pub consume-after_all :
    (es : List Event) (k : UndoKey) (now : ℕ)
    → IsTimed 0 es now
    → (consume (after_all new_undo_windows es) k now).1 ≡ answer now (last_response k none es)
unfolding new_undo_windows
consume-after_all es k now h =
    after_all-response new_undo_windows k none es 0 now tt h
      (λ u _. rw (get-nil {V = UndoEntry} k) refl)
