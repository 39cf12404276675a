-- ===== src/Command/Chat.antt =====
-- pkg/command/parse.go: ParseChat, HasPrefix, matchPrefix and tokenize. The message is its code
-- points; prefixes are compared by their length in bytes, as in the source.
pub mod Prefix
pub mod Tokens
use gin_bot.Base.{
  ℕ, Bool, true, false, ◌&&◌, ◌||◌, not, List, [], ◌∷◌, ◌++◌, Option, none, some, if◌then◌else◌,
  leb, ◌==◌, drop, length, ◌≡◌, refl,
}
use gin_bot.Base.Text.{Text, byte_len, has_prefix, is_space, codes}
use gin_bot.Command.Registry.{is_blank}

-- The loop, with `longest`.
unfoldable pub longest_prefix : Text → Text → List Text → Text
unfolding has_prefix
longest_prefix content longest [] = longest
longest_prefix content longest (prefix ∷ prefixes) =
    longest_prefix content
      (if is_blank prefix || leb (byte_len prefix) (byte_len longest)
        then longest
        else if has_prefix content prefix
        then prefix
        else longest)
      prefixes

abbrev pub nonblank : Text → Option Text
nonblank [] = none
nonblank (c ∷ s) = some (c ∷ s)

unfoldable pub match_prefix : Text → List Text → Option Text
unfolding longest_prefix
match_prefix content prefixes = nonblank (longest_prefix content [] prefixes)

abbrev pub double_quote : ℕ
double_quote = b'"'

-- if started { tokens = append(tokens, current.String()) }
abbrev flush : List Text → Text → Bool → List Text
flush tokens current true = tokens ++ (current ∷ [])
flush tokens current false = tokens

-- The loop of `tokenize` over its variables: the tokens, the current one, `inQuotes`, `started`.
unfoldable pub tokenize_from : List Text → Text → Bool → Bool → Text → List Text
unfolding is_space
tokenize_from tokens current in_quotes started [] = flush tokens current started
tokenize_from tokens current in_quotes started (r ∷ line) =
    let at_quote = tokenize_from tokens current (not in_quotes) true line in
    let at_space =
      tokenize_from (flush tokens current started) (if started then [] else current) in_quotes false
        line in
    let at_rune = tokenize_from tokens (current ++ (r ∷ [])) in_quotes true line in
    if r == double_quote
    then at_quote
    else if not in_quotes && is_space r
    then at_space
    else at_rune

unfoldable pub tokenize : Text → List Text
unfolding tokenize_from
tokenize line = tokenize_from [] [] false false line

abbrev name_first : List Text → Option (Text × List Text)
name_first [] = none
name_first ([] ∷ tokens) = none
name_first ((c ∷ s) ∷ tokens) = some (c ∷ s, tokens)

abbrev parse_behind : Text → Option Text → Option (Text × List Text)
parse_behind content none = none
parse_behind content (some prefix) = name_first (tokenize (drop (length prefix) content))

unfoldable pub parse_chat : Text → List Text → Option (Text × List Text)
parse_chat content prefixes = parse_behind content (match_prefix content prefixes)

-- HasPrefix of the package
unfoldable has_command_prefix : Text → List Text → Bool
has_command_prefix content prefixes = not (is_blank (longest_prefix content [] prefixes))

parse_chat_test :
    parse_chat (codes "??roll \"two words\"  x \"\"") (codes "?" ∷ codes "??" ∷ [])
    ≡ some (codes "roll", codes "two words" ∷ codes "x" ∷ [] ∷ [])
unfolding parse_chat match_prefix tokenize
parse_chat_test = refl
