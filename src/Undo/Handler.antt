-- ===== src/Undo/Handler.antt =====
-- The handler of undo messages over whole histories of the windows.
use gin_bot.Base.{
  ℕ, ◌+◌, ◌<◌, ◌≡◌, refl, true, false, ◌||◌, Bool, List, [], ◌∷◌, Option, none, some, some-eq,
  arith, lt→ltb, sym, ◌∙◌, if◌then◌else◌, pair_eq, Bool-cases, Option-cases, inl, inr,
}
use gin_bot.Base.Text.{Text}
use gin_bot.Undo.{
  UndoWindows, new_undo_windows, consume, trigger_undo_window, Message, handle_trigger_undo,
  is_trigger_undo_phrase, undone, is_some_item,
}
use gin_bot.Undo.Windows.{Event, IsTimed, after_all, last_response, answer, consume-after_all}

answer-some :
    (now : ℕ) (last : Option (Text × ℕ)) {id : Text}
    → answer now last ≡ some id
    → (t : ℕ) × (last ≡ some (id, t)) × (now < t + trigger_undo_window)
answer-some now none h = absurd (cc)
answer-some now (some (id', t)) {id} h = (t, ground arith, ground arith)

no_items :
    (xs ys : List Text) → (is_some_item xs || is_some_item ys) ≡ false → (xs ≡ []) × (ys ≡ [])
no_items [] [] h = (refl, refl)
no_items [] (y ∷ ys) h = absurd (cc)
no_items (x ∷ xs) ys h = absurd (cc)

false-true : false ≡ true → ⊥
false-true h = cc

module _ (lower : ℕ → ℕ) (delete_message : Text → Text → Bool) where
  -- The checks that a message passes before its author's window is read.
  abbrev pub IsUndo : Message → Text → Type 0
  IsUndo m author =
      (m.author ≡ some author)
      × (is_trigger_undo_phrase lower m.content ≡ true)
      × (m.attachments ≡ [])
      × (m.sticker_items ≡ [])

  handled_by :
      (w : UndoWindows) (m : Message) (now : ℕ) {author : Text}
      → IsUndo m author
      → handle_trigger_undo lower delete_message w (some m) now
        ≡ undone lower delete_message m (consume w (m.channel_id, author) now)
  unfolding handle_trigger_undo
  handled_by w m now (by, phrase, bare, plain) = rw (by, phrase, bare, plain) refl

  consumed_by :
      (w : UndoWindows) (m : Message) (now : ℕ)
      → (handle_trigger_undo lower delete_message w (some m) now).is_consumed ≡ true
      → (author : Text) × IsUndo m author
  unfolding handle_trigger_undo
  consumed_by w m now h = elim (Option-cases m.author) [
    | inl e ↦ absurd (false-true (rw e at h))
    | inr (author, e) ↦ elim (Bool-cases (is_trigger_undo_phrase lower m.content)) [
      | inr q ↦ absurd (false-true (rw (e, q) at h))
      | inl q ↦ elim (Bool-cases (is_some_item m.attachments || is_some_item m.sticker_items)) [
        | inl i ↦ absurd (false-true (rw (e, q, i) at h))
        | inr i ↦
            let (bare, plain) = no_items m.attachments m.sticker_items i in
            (author, (e, q, bare, plain))
      ]
    ]
  ]

  undone-consumed :
      (m : Message) (p : UndoWindows × Option Text)
      → (undone lower delete_message m p).is_consumed ≡ true
      → (id : Text) × (p.1 ≡ some id)
        × ((undone lower delete_message m p).deletions ≡ (
            if delete_message m.channel_id id
            then (m.channel_id, id) ∷ (m.channel_id, m.id) ∷ []
            else (m.channel_id, id) ∷ []))
  undone-consumed m (w, none) h = absurd (false-true h)
  undone-consumed m (w, some id) h = (id, refl, refl)

  undone-some :
      (m : Message) (p : UndoWindows × Option Text) {id : Text}
      → p.1 ≡ some id
      → ((undone lower delete_message m p).is_consumed ≡ true)
        × ((undone lower delete_message m p).deletions ≡ (
            if delete_message m.channel_id id
            then (m.channel_id, id) ∷ (m.channel_id, m.id) ∷ []
            else (m.channel_id, id) ∷ []))
  undone-some m (w, none) h = absurd (cc)
  undone-some m (w, some response) {id} h =
      let same : response ≡ id = some-eq h in (refl, rw same refl)

  -- After every history, a consumed message is a bare undo phrase of an author whose last response
  -- in that channel is less than seven seconds old and not undone; the deletions asked for are
  -- that response and, only when it was deleted, the message itself.
  pub handle_trigger_undo_sound :
      (es : List Event) (m : Message) (now : ℕ)
      → IsTimed 0 es now
      → (handle_trigger_undo lower delete_message
          (after_all new_undo_windows es)
          (some m)
          now).is_consumed
        ≡ true
      → (author : Text) × (id : Text) × (t : ℕ) × IsUndo m author
        × (last_response (m.channel_id, author) none es ≡ some (id, t))
        × (now < t + trigger_undo_window)
        × ((handle_trigger_undo lower delete_message
              (after_all new_undo_windows es)
              (some m)
              now).deletions
            ≡ (if delete_message m.channel_id id
                then (m.channel_id, id) ∷ (m.channel_id, m.id) ∷ []
                else (m.channel_id, id) ∷ []))
  handle_trigger_undo_sound es m now timed h =
      let w = after_all new_undo_windows es in
      let (author, checks) = consumed_by w m now h in
      let same = handled_by w m now {author = author} checks in
      let (id, hit, asked) =
        undone-consumed m (consume w (m.channel_id, author) now) (rw same at h) in
      let (t, is_last, fresh) =
        answer-some now (last_response (m.channel_id, author) none es)
          (sym (consume-after_all es (m.channel_id, author) now timed) ∙ hit) in
      (author, id, t, checks, is_last, fresh, rw same asked)

  -- After every history, a bare undo phrase takes back its author's last response in the channel
  -- when that is less than seven seconds old and not undone: the message is consumed, and the
  -- deletions asked for are that response and, when it was deleted, the message itself.
  pub handle_trigger_undo_complete :
      (es : List Event) (m : Message) (now : ℕ) {author id : Text} {t : ℕ}
      → IsTimed 0 es now
      → IsUndo m author
      → last_response (m.channel_id, author) none es ≡ some (id, t)
      → now < t + trigger_undo_window
      → ((handle_trigger_undo lower delete_message
            (after_all new_undo_windows es)
            (some m)
            now).is_consumed
          ≡ true)
        × ((handle_trigger_undo lower delete_message
              (after_all new_undo_windows es)
              (some m)
              now).deletions
            ≡ (if delete_message m.channel_id id
                then (m.channel_id, id) ∷ (m.channel_id, m.id) ∷ []
                else (m.channel_id, id) ∷ []))
  handle_trigger_undo_complete es m now {author = author} {id = id} {t = t} timed checks is_last
        fresh =
      let w = after_all new_undo_windows es in
      let hit : (consume w (m.channel_id, author) now).1 ≡ some id =
        rw
          (
            consume-after_all es (m.channel_id, author) now timed,
            is_last,
            lt→ltb now (t + trigger_undo_window) fresh,
          )
          refl in
      rw (handled_by w m now {author = author} checks)
        (undone-some m (consume w (m.channel_id, author) now) hit)
