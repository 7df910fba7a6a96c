-- ===== src/CommandParser/Tokens.antt =====
-- Proofs about `tokenize`: what its tokens look like, and what it does with plain text.
use seraphbot.Base.{
  ℕ, ◌≡◌, refl, ◌≢◌, ◌⊎◌, inl, inr, List, [], ◌∷◌, ◌++◌, append_assoc, arith, All, All-append, Text,
  is_empty,
}
use seraphbot.CommandParser.Tokenizer.{
  Tokenizing, flush, tokenize_char, tokenize_from, start, tokenize,
}

abbrev pub IsFilled : Text → Type 0
IsFilled s = s ≢ []

pub tokenize_from-append :
    (t : Tokenizing) (a b : Text) → tokenize_from t (a ++ b) ≡ tokenize_from (tokenize_from t a) b
unfolding tokenize_from
tokenize_from-append t [] b = refl
tokenize_from-append t (c ∷ a) b = tokenize_from-append (tokenize_char t c) a b

flush-All : (t : Tokenizing) → All IsFilled t.tokens → All IsFilled (flush t).tokens
unfolding flush is_empty
flush-All t h = go t.current_token refl
  where
    go : (s : Text) → t.current_token ≡ s → All IsFilled (flush t).tokens
    go [] e = rw e h
    go (c ∷ cs) e = rw e (All-append IsFilled t.tokens _ h ((λ q. cc), tt))

tokenize_char-tokens :
    (t : Tokenizing) (c : ℕ)
    → ((tokenize_char t c).tokens ≡ t.tokens) ⊎ ((tokenize_char t c).tokens ≡ (flush t).tokens)
unfolding tokenize_char
tokenize_char-tokens t c = ground arith

tokenize_char-All :
    (t : Tokenizing) (c : ℕ) → All IsFilled t.tokens → All IsFilled (tokenize_char t c).tokens
tokenize_char-All t c h = elim (tokenize_char-tokens t c) [
  | inl same ↦ rw same h
  | inr flushed ↦ rw flushed (flush-All t h)
]

tokenize_from-All :
    (t : Tokenizing) (s : Text) → All IsFilled t.tokens → All IsFilled (tokenize_from t s).tokens
unfolding tokenize_from
tokenize_from-All t [] h = h
tokenize_from-All t (c ∷ s) h = tokenize_from-All (tokenize_char t c) s (tokenize_char-All t c h)

-- No token is empty, whatever the text holds.
pub tokenize-IsFilled : (text : Text) → All IsFilled (tokenize text)
unfolding tokenize
tokenize-IsFilled text = flush-All (tokenize_from start text) (tokenize_from-All start text tt)

-- The token being read is only ever added to, so what has been pushed stays in front.
abbrev pub behind : List Text → Tokenizing → Tokenizing
behind ts t = record t { tokens = ts ++ t.tokens }

pub flush-behind : (ts : List Text) (t : Tokenizing) → flush (behind ts t) ≡ behind ts (flush t)
unfolding flush is_empty
flush-behind ts t = ground (arith, append_assoc ts t.tokens (t.current_token ∷ []))

tokenize_char-behind :
    (ts : List Text) (t : Tokenizing) (c : ℕ)
    → tokenize_char (behind ts t) c ≡ behind ts (tokenize_char t c)
unfolding tokenize_char
tokenize_char-behind ts t c = ground (arith, flush-behind ts t)

pub tokenize_from-behind :
    (ts : List Text) (t : Tokenizing) (s : Text)
    → tokenize_from (record t { tokens = ts ++ t.tokens }) s
      ≡ record (tokenize_from t s) { tokens = ts ++ (tokenize_from t s).tokens }
unfolding tokenize_from
tokenize_from-behind ts t [] = refl
tokenize_from-behind ts t (c ∷ s) =
    rw tokenize_char-behind (tokenize_from-behind ts (tokenize_char t c) s)
