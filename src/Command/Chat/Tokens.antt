-- ===== src/Command/Chat/Tokens.antt =====
-- Quoted arguments survive: a line that spells arguments in double quotes is read back as them.
use gin_bot.Base.{
  ℕ, true, false, List, [], ◌∷◌, ◌++◌, append-nil, append_assoc, some, drop, length, ◌≡◌, ◌≢◌, refl,
  sym, ◌∙◌, arith, All,
}
use gin_bot.Base.Text.{Text}
use gin_bot.Command.Chat.{double_quote, tokenize_from, tokenize, match_prefix, parse_chat}

abbrev Unquoted : Text → Type 0
Unquoted = All (λ r. r ≢ double_quote)

abbrev space : ℕ
space = b' '

-- Each argument between double quotes, with a space behind it.
abbrev pub spell : List Text → Text
spell [] = []
spell (arg ∷ args) = double_quote ∷ (arg ++ (double_quote ∷ space ∷ spell args))

-- Inside quotes every code point, a space too, is copied up to the closing quote.
tokenize_from-quoted :
    (tokens : List Text) (current arg rest : Text)
    → Unquoted arg
    → tokenize_from tokens current true true (arg ++ (double_quote ∷ rest))
      ≡ tokenize_from tokens (current ++ arg) false true rest
unfolding tokenize_from
tokenize_from-quoted tokens current [] rest h = rw append-nil
tokenize_from-quoted tokens current (r ∷ arg) rest (hr, h) = ground (
  arith,
  tokenize_from-quoted tokens (current ++ (r ∷ [])) arg rest h,
  append_assoc current (r ∷ []) arg,
)

tokenize_from-spell :
    (args tokens : List Text)
    → All Unquoted args
    → tokenize_from tokens [] false false (spell args) ≡ tokens ++ args
unfolding tokenize_from
tokenize_from-spell [] tokens h = sym (append-nil tokens)
tokenize_from-spell (arg ∷ args) tokens (ha, h) =
    rw (tokenize_from-quoted tokens [] arg (space ∷ spell args) ha)
      (tokenize_from-spell args (tokens ++ (arg ∷ [])) h ∙ append_assoc tokens (arg ∷ []) args)

-- Spelling any arguments without a double quote, spaces and empty ones included, and splitting the
-- line gives them back.
tokenize-spell : (args : List Text) → All Unquoted args → tokenize (spell args) ≡ args
unfolding tokenize
tokenize-spell args h = tokenize_from-spell args [] h

drop-append : (p s : Text) → drop (length p) (p ++ s) ≡ s
drop-append [] s = refl
drop-append (c ∷ p) s = drop-append p s

-- A message that is a matched prefix followed by a spelled name, which is not empty, and spelled
-- arguments is parsed into that name and those arguments, when neither the name nor an argument
-- holds a double quote.
pub parse_chat-spell :
    (prefixes : List Text) (p : Text) (c : ℕ) (s : Text) (args : List Text)
    → match_prefix (p ++ spell ((c ∷ s) ∷ args)) prefixes ≡ some p
    → All Unquoted ((c ∷ s) ∷ args)
    → parse_chat (p ++ spell ((c ∷ s) ∷ args)) prefixes ≡ some (c ∷ s, args)
unfolding parse_chat
parse_chat-spell prefixes p c s args matched h =
    rw (matched, drop-append p (spell ((c ∷ s) ∷ args)), tokenize-spell ((c ∷ s) ∷ args) h)
