-- ===== src/Undo.antt =====
-- pkg/discord/undo.go: the windows in which a user can take back a fired trigger. A time is a
-- number of nanoseconds. The mutex makes each call one step; the Discord session and
-- strings.ToLower are parameters.
pub mod Windows
pub mod Handler
use gin_bot.Base.{
  ℕ, ◌+◌, ◌*◌, Bool, true, false, ◌||◌, not, List, [], ◌∷◌, Option, none, some, if◌then◌else◌, ltb,
  map, list_beq, pair_eq,
}
use gin_bot.Base.Dict.{Dict, get, put, delete, retain}
use gin_bot.Base.Text.{Text, codes, trim_space}

-- 7 * time.Second, in nanoseconds
abbrev pub trigger_undo_window : ℕ
trigger_undo_window = 7 * 1000000000

abbrev trigger_undo_phrases : List Text
trigger_undo_phrases = codes "no" ∷ codes "ei" ∷ codes "del" ∷ []

abbrev is_phrase : List Text → Text → Bool
is_phrase [] s = false
is_phrase (p ∷ ps) s = list_beq p s || is_phrase ps s

unfoldable pub is_trigger_undo_phrase : (ℕ → ℕ) → Text → Bool
unfolding trim_space
is_trigger_undo_phrase lower content =
    is_phrase trigger_undo_phrases (map lower (trim_space content))

-- The channel and the author.
abbrev pub UndoKey : Type 0
UndoKey = Text × Text

pub record UndoEntry : Type 0 where
  pub response_id : Text
  pub expires_at : ℕ

pub record UndoWindows : Type 0 where
  pub pending : Dict UndoKey UndoEntry

unfoldable pub new_undo_windows : UndoWindows
new_undo_windows = record { pending = [] }

-- now.Before(entry.expiresAt)
abbrev pub is_open : ℕ → UndoEntry → Bool
is_open now entry = ltb now entry.expires_at

unfoldable pub prune_windows : UndoWindows → ℕ → UndoWindows
prune_windows w now = record { pending = retain (is_open now) w.pending }

unfoldable pub arm : UndoWindows → UndoKey → Text → ℕ → UndoWindows
unfolding prune_windows
arm w key response_id now = record {
  pending =
      put (prune_windows w now).pending key
        (record { response_id = response_id; expires_at = now + trigger_undo_window });
}

abbrev pub taken : UndoWindows → UndoKey → Option UndoEntry → UndoWindows × Option Text
taken w key none = (w, none)
taken w key (some entry) = (record { pending = delete w.pending key }, some entry.response_id)

unfoldable pub consume : UndoWindows → UndoKey → ℕ → UndoWindows × Option Text
unfolding prune_windows
consume w key now = let w' = prune_windows w now in taken w' key (get w'.pending key)

-- What the handlers read of a message; `author` is none where the source has nil.
pub record Message : Type 0 where
  pub id : Text
  pub channel_id : Text
  pub author : Option Text
  pub content : Text
  pub attachments : List Text
  pub sticker_items : List Text

unfoldable arm_trigger_undo : UndoWindows → Option Message → Option Message → ℕ → UndoWindows
unfolding arm
arm_trigger_undo w none sent now = w
arm_trigger_undo w (some m) sent now = elim m.author [
  | none ↦ w
  | some author ↦ elim sent [
    | none ↦ w
    | some response ↦ arm w (m.channel_id, author) response.id now
  ]
]

-- The windows afterwards, whether the message is consumed, and the deletions asked of Discord.
pub record Handled : Type 0 where
  pub windows : UndoWindows
  pub is_consumed : Bool
  pub deletions : List (Text × Text)

abbrev ignored : UndoWindows → Handled
ignored w = record { windows = w; is_consumed = false; deletions = [] }

-- len(items) > 0
abbrev pub is_some_item : List Text → Bool
is_some_item [] = false
is_some_item (x ∷ xs) = true

-- `delete_message channel message` is whether Discord deletes it.
module _ (lower : ℕ → ℕ) (delete_message : Text → Text → Bool) where
  abbrev pub undone : Message → UndoWindows × Option Text → Handled
  undone m (w, none) = ignored w
  undone m (w, some response_id) = record {
    windows = w;
    is_consumed = true;
    deletions =
        if delete_message m.channel_id response_id
        then (m.channel_id, response_id) ∷ (m.channel_id, m.id) ∷ []
        else (m.channel_id, response_id) ∷ [];
  }

  unfoldable pub handle_trigger_undo : UndoWindows → Option Message → ℕ → Handled
  unfolding is_trigger_undo_phrase consume
  handle_trigger_undo w none now = ignored w
  handle_trigger_undo w (some m) now = elim m.author [
    | none ↦ ignored w
    | some author ↦
        if not (is_trigger_undo_phrase lower m.content)
        then ignored w
        else if is_some_item m.attachments || is_some_item m.sticker_items
        then ignored w
        else undone m (consume w (m.channel_id, author) now)
  ]
