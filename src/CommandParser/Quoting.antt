-- ===== src/CommandParser/Quoting.antt =====
-- Proofs about `parseCommand`: a way to write any command with any arguments, and the round trip.
use seraphbot.Base.{
  ℕ, ◌≡◌, refl, ap, ◌∙◌, inl, inr, true, false, ◌||◌, List, [], ◌∷◌, ◌++◌, append-nil, append_assoc,
  arith, ◌==◌, if◌then◌else◌, Bool-cases, drop-length_append, All, Text, starts_with-append,
  is_empty, is_space,
}
use seraphbot.CommandParser.{CommandParser, is_command, parse_command}
use seraphbot.CommandParser.Tokenizer.{
  Tokenizing, flush, tokenize_char, tokenize_from, start, tokenize,
}
use seraphbot.CommandParser.Tokens.{IsFilled, tokenize_from-append}
use seraphbot.CommandParser.Words.{IsClosed, tokenize-append}

-- A backslash before each backslash and each quote.
abbrev pub escape : Text → Text
escape [] = []
escape (c ∷ s) = if c == b'\\' || c == b'"' then b'\\' ∷ c ∷ escape s else c ∷ escape s

abbrev pub quote_token : Text → Text
quote_token s = b'"' ∷ (escape s ++ (b'"' ∷ []))

-- Quoted tokens, a space between any two.
abbrev pub quote_tokens : Text → List Text → Text
quote_tokens s [] = quote_token s
quote_tokens s (t ∷ ts) = quote_token s ++ (b' ' ∷ quote_tokens t ts)

abbrev inside : Text → Tokenizing
inside current = record start { current_token = current; in_quotes = true }

tokenize_char_escaped :
    (current : Text) (c : ℕ)
    → tokenize_char (tokenize_char (inside current) b'\\') c ≡ inside (current ++ (c ∷ []))
unfolding tokenize_char
tokenize_char_escaped current c = refl

tokenize_char-inside :
    (current : Text) (c : ℕ)
    → (c == b'\\' || c == b'"') ≡ false
    → tokenize_char (inside current) c ≡ inside (current ++ (c ∷ []))
unfolding tokenize_char
tokenize_char-inside current c h = ground arith

tokenize_from-escape :
    (s current : Text) → tokenize_from (inside current) (escape s) ≡ inside (current ++ s)
unfolding tokenize_from
tokenize_from-escape [] current = rw append-nil
tokenize_from-escape (c ∷ s) current =
    let later : tokenize_from (inside (current ++ (c ∷ []))) (escape s)
        ≡ inside (current ++ (c ∷ s)) =
      tokenize_from-escape s (current ++ (c ∷ [])) ∙ rw append_assoc in
    elim (Bool-cases (c == b'\\' || c == b'"')) [
      | inl special ↦
          rw special
            (ap (λ t. tokenize_from t (escape s)) (tokenize_char_escaped current c) ∙ later)
      | inr other ↦
          rw other
            (ap (λ t. tokenize_from t (escape s)) (tokenize_char-inside current c other) ∙ later)
    ]

tokenize_from_quoted :
    (s : Text) → tokenize_from start (quote_token s) ≡ record start { current_token = s }
unfolding tokenize_from tokenize_char
tokenize_from_quoted s =
    tokenize_from-append (inside []) (escape s) (b'"' ∷ []) ∙ rw tokenize_from-escape

quote_token-IsClosed : (s : Text) → IsClosed (quote_token s)
quote_token-IsClosed s = record {
  unquoted = rw tokenize_from_quoted;
  unescaped = rw tokenize_from_quoted;
}

tokenize-quote_token : (s : Text) → IsFilled s → tokenize (quote_token s) ≡ s ∷ []
unfolding tokenize flush is_empty
tokenize-quote_token [] h = absurd (h refl)
tokenize-quote_token (c ∷ s) h = ap (λ t. (flush t).tokens) (tokenize_from_quoted (c ∷ s))

-- One or more tokens, none of them empty, are read back by `tokenize` from their quoted form.
pub tokenize-quote_tokens :
    (s : Text) (ts : List Text)
    → IsFilled s
    → All IsFilled ts
    → tokenize (quote_tokens s ts) ≡ s ∷ ts
tokenize-quote_tokens s [] h hs = tokenize-quote_token s h
tokenize-quote_tokens s (t ∷ ts) h (h', hs) =
    tokenize-append (quote_token s) (quote_tokens t ts) b' ' (quote_token-IsClosed s)
      (unfold is_space in refl)
    ∙ rw (tokenize-quote_token s h, tokenize-quote_tokens t ts h' hs)

quote_tokens-filled : (s : Text) (ts : List Text) → is_empty (quote_tokens s ts) ≡ false
unfolding is_empty
quote_tokens-filled s [] = refl
quote_tokens-filled s (t ∷ ts) = refl

is_empty-append : (a b : Text) → is_empty b ≡ false → is_empty (a ++ b) ≡ false
unfolding is_empty
is_empty-append [] b h = h
is_empty-append (c ∷ a) b h = refl

module _ {H : Type 0} where
  pub is_command_quoted :
      (p : CommandParser H) (s : Text) (ts : List Text)
      → is_command p (p.prefix ++ quote_tokens s ts) ≡ true
  unfolding is_command
  is_command_quoted p s ts =
      rw (
        is_empty-append p.prefix (quote_tokens s ts) (quote_tokens-filled s ts),
        starts_with-append,
      )

  -- A chat line made of the prefix, any command and any arguments is parsed back into these.
  pub parse_command_quoted :
      (p : CommandParser H) (command : Text) (args : List Text)
      → IsFilled command
      → All IsFilled args
      → parse_command p (p.prefix ++ quote_tokens command args) ≡ (command, args)
  unfolding parse_command
  parse_command_quoted p command args h hs = rw (
    is_command_quoted p command args,
    drop-length_append,
    tokenize-quote_tokens command args h hs,
  )
