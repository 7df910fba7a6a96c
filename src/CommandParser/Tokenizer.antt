-- ===== src/CommandParser/Tokenizer.antt =====
-- `CommandParser::tokenize`: the loop over the characters, with its four local variables.
use seraphbot.Base.{
  ℕ, Bool, true, false, not, ◌&&◌, List, [], ◌∷◌, ◌++◌, ◌==◌, if◌then◌else◌, Text, is_empty,
  is_space,
}

pub record Tokenizing : Type 0 where
  pub tokens : List Text
  pub current_token : Text
  pub in_quotes : Bool
  pub escape_next : Bool

-- `if (!current_token.empty()) { tokens.push_back(...); current_token.clear(); }`
unfoldable pub flush : Tokenizing → Tokenizing
flush t =
    if is_empty t.current_token
    then t
    else record t { tokens = t.tokens ++ (t.current_token ∷ []); current_token = [] }

-- The body of the loop.
unfoldable pub tokenize_char : Tokenizing → ℕ → Tokenizing
tokenize_char t c =
    if t.escape_next
    then record t { current_token = t.current_token ++ (c ∷ []); escape_next = false }
    else if c == b'\\'
    then record t { escape_next = true }
    else if c == b'"'
    then record t { in_quotes = not t.in_quotes }
    else if is_space c && not t.in_quotes
    then flush t
    else record t { current_token = t.current_token ++ (c ∷ []) }

unfoldable pub tokenize_from : Tokenizing → Text → Tokenizing
tokenize_from t [] = t
tokenize_from t (c ∷ cs) = tokenize_from (tokenize_char t c) cs

abbrev pub start : Tokenizing
start = record { tokens = []; current_token = []; in_quotes = false; escape_next = false }

unfoldable pub tokenize : Text → List Text
tokenize text = (flush (tokenize_from start text)).tokens
