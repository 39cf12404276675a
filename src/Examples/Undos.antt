-- ===== src/Examples/Undos.antt =====
-- The undo windows at a concrete history and message.
use gin_bot.Base.{ℕ, ◌+◌, ◌<◌, Bool, true, List, [], ◌∷◌, none, some, ◌≡◌, refl, arith, list_eq}
use gin_bot.Base.Text.{Text, codes, trim_space, trim_left, is_space}
use gin_bot.Undo.{
  UndoKey, Message, new_undo_windows, consume, trigger_undo_window, handle_trigger_undo,
  is_trigger_undo_phrase,
}
use gin_bot.Undo.Windows.{fired, undo, Event, IsTimed, after_all, last_response, consume-after_all}
use gin_bot.Undo.Handler.{IsUndo, handle_trigger_undo_sound, handle_trigger_undo_complete}

abbrev same_letter : ℕ → ℕ
same_letter c = c

abbrev deletes_all : Text → Text → Bool
deletes_all channel message = true

abbrev ann_here : UndoKey
ann_here = (codes "general", codes "ann")

abbrev bob_here : UndoKey
bob_here = (codes "general", codes "bob")

abbrev history : List Event
history = fired ann_here (codes "r1") 3 ∷ fired bob_here (codes "r2") 4 ∷ undo bob_here 5 ∷ []

abbrev no : Message
no = record {
  id = codes "m9";
  channel_id = codes "general";
  author = some (codes "ann");
  content = codes " no ";
  attachments = [];
  sticker_items = [];
}

timed : IsTimed 0 history 9
timed = (omega arith, (omega arith, (omega arith, omega arith)))

consume-after_all_example :
    (consume (after_all new_undo_windows history) ann_here 9).1 ≡ some (codes "r1")
consume-after_all_example = consume-after_all history ann_here 9 timed

no-IsUndo : IsUndo same_letter deletes_all no (codes "ann")
no-IsUndo = (refl, unfold is_trigger_undo_phrase trim_space trim_left is_space in refl, refl, refl)

handle_trigger_undo_complete_example :
    ((handle_trigger_undo same_letter deletes_all
        (after_all new_undo_windows history)
        (some no)
        9).is_consumed
      ≡ true)
    × ((handle_trigger_undo same_letter deletes_all
          (after_all new_undo_windows history)
          (some no)
          9).deletions
        ≡ (codes "general", codes "r1") ∷ (codes "general", codes "m9") ∷ [])
handle_trigger_undo_complete_example =
    handle_trigger_undo_complete same_letter deletes_all history no 9 timed no-IsUndo refl
      (omega arith)

handle_trigger_undo_sound_example :
    (author : Text) × (id : Text) × (t : ℕ) × IsUndo same_letter deletes_all no author
    × (last_response (codes "general", author) none history ≡ some (id, t))
    × (9 < t + trigger_undo_window)
    × ((handle_trigger_undo same_letter deletes_all
          (after_all new_undo_windows history)
          (some no)
          9).deletions
        ≡ (codes "general", id) ∷ (codes "general", codes "m9") ∷ [])
handle_trigger_undo_sound_example =
    handle_trigger_undo_sound same_letter deletes_all history no 9 timed
      (handle_trigger_undo_complete same_letter deletes_all history no 9 timed no-IsUndo refl
        (omega arith)).0
