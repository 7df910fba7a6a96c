-- ===== src/CommandParser/Words.antt =====
-- Proofs about `tokenize`: texts next to one another, and texts without quotes and backslashes.
use seraphbot.Base.{
  ℕ, ◌≡◌, refl, sym, ap, ◌∙◌, inl, inr, Bool, true, false, not, ◌&&◌, List, [], ◌∷◌, ◌++◌,
  append-nil, append_assoc, arith, ◌==◌, if◌then◌else◌, Bool-cases, All, Text, is_empty, is_space,
}
use seraphbot.CommandParser.Tokenizer.{
  Tokenizing, flush, tokenize_char, tokenize_from, start, tokenize,
}
use seraphbot.CommandParser.Tokens.{
  tokenize_from-append, tokenize_from-behind, behind, flush-behind,
}

-- Reading `a` ends outside quotes, and not behind a backslash.
pub record IsClosed (a : Text) : Type 0 where
  pub unquoted : (tokenize_from start a).in_quotes ≡ false
  pub unescaped : (tokenize_from start a).escape_next ≡ false

-- A space outside quotes ends the token.
tokenize_char_space :
    (t : Tokenizing) (c : ℕ)
    → t.in_quotes ≡ false
    → t.escape_next ≡ false
    → is_space c ≡ true
    → tokenize_char t c ≡ record start { tokens = (flush t).tokens ++ [] }
unfolding tokenize_char is_space flush is_empty
tokenize_char_space t c q e sp =
    ground (arith, append-nil t.tokens, append-nil (t.tokens ++ (t.current_token ∷ [])))

tokenize_from_past :
    (a b : Text) (c : ℕ)
    → IsClosed a
    → is_space c ≡ true
    → tokenize_from start (a ++ (c ∷ b)) ≡ behind (tokenize a) (tokenize_from start b)
unfolding tokenize tokenize_from
tokenize_from_past a b c closed sp =
    tokenize_from-append start a (c ∷ b)
    ∙ ap (λ t. tokenize_from t b)
        (tokenize_char_space (tokenize_from start a) c closed.unquoted closed.unescaped sp)
    ∙ tokenize_from-behind (tokenize a) start b

-- A space behind a closed text cuts it off: the two sides are tokenized by themselves.
pub tokenize-append :
    (a b : Text) (c : ℕ)
    → IsClosed a
    → is_space c ≡ true
    → tokenize (a ++ (c ∷ b)) ≡ tokenize a ++ tokenize b
unfolding tokenize
tokenize-append a b c closed sp =
    ap (λ t. (flush t).tokens) (tokenize_from_past a b c closed sp)
    ∙ ap (λ t. t.tokens) (flush-behind (tokenize a) (tokenize_from start b))

-- Plain text: no backslash and no quote.
abbrev pub is_plain : ℕ → Bool
is_plain c = not (c == b'\\') && not (c == b'"')

abbrev pub attach : ℕ → List Text → List Text
attach c [] = (c ∷ []) ∷ []
attach c (piece ∷ rest) = (c ∷ piece) ∷ rest

-- The pieces between the spaces, empty ones too.
abbrev pub pieces : Text → List Text
pieces [] = [] ∷ []
pieces (c ∷ s) = let rest = pieces s in if is_space c then [] ∷ rest else attach c rest

abbrev pub without_empty : List Text → List Text
without_empty [] = []
without_empty (piece ∷ rest) =
    if is_empty piece then without_empty rest else piece ∷ without_empty rest

-- The first piece goes on from what is being read.
abbrev go_on : Text → List Text → List Text
go_on current [] = current ∷ []
go_on current (piece ∷ rest) = (current ++ piece) ∷ rest

abbrev pub reading : List Text → Text → Tokenizing
reading done current = record start { tokens = done; current_token = current }

go_on-attach :
    (current : Text) (c : ℕ) (ps : List Text)
    → go_on current (attach c ps) ≡ go_on (current ++ (c ∷ [])) ps
go_on-attach current c [] = refl
go_on-attach current c (piece ∷ rest) = rw append_assoc

without_empty-go_on_nil : (ps : List Text) → without_empty (go_on [] ps) ≡ without_empty ps
unfolding is_empty
without_empty-go_on_nil [] = refl
without_empty-go_on_nil (piece ∷ rest) = refl

flush-reading :
    (done ps : List Text) (current : Text)
    → (flush (reading done current)).tokens ++ without_empty ps
      ≡ done ++ without_empty ((current ++ []) ∷ ps)
unfolding flush is_empty
flush-reading done ps [] = refl
flush-reading done ps (c ∷ current) =
    rw append-nil (append_assoc done ((c ∷ current) ∷ []) (without_empty ps))

pub tokenize_char_plain :
    (done : List Text) (current : Text) (c : ℕ)
    → is_plain c ≡ true
    → tokenize_char (reading done current) c ≡ (
        if is_space c
        then reading (flush (reading done current)).tokens []
        else reading done (current ++ (c ∷ [])))
unfolding tokenize_char flush is_empty is_space
tokenize_char_plain done [] c h = ground arith
tokenize_char_plain done (x ∷ current) c h = ground arith

tokenize_from_plain :
    (s : Text) (done : List Text) (current : Text)
    → All (λ c. is_plain c ≡ true) s
    → (flush (tokenize_from (reading done current) s)).tokens
      ≡ done ++ without_empty (go_on current (pieces s))
unfolding tokenize_from
tokenize_from_plain [] done current h = sym (append-nil _) ∙ flush-reading done [] current
tokenize_from_plain (c ∷ s) done current (h, hs) = elim (Bool-cases (is_space c)) [
  | inl space ↦
      rw (tokenize_char_plain done current c h, space)
        (tokenize_from_plain s (flush (reading done current)).tokens [] hs
          ∙ rw without_empty-go_on_nil (flush-reading done (pieces s) current))
  | inr letter ↦
      rw (tokenize_char_plain done current c h, letter)
        (tokenize_from_plain s done (current ++ (c ∷ [])) hs ∙ rw go_on-attach)
]

-- On text without quotes and backslashes the tokens are the pieces between the spaces that are not
-- empty.
pub tokenize_plain :
    (s : Text) → All (λ c. is_plain c ≡ true) s → tokenize s ≡ without_empty (pieces s)
unfolding tokenize
tokenize_plain s h = tokenize_from_plain s [] [] h ∙ without_empty-go_on_nil (pieces s)
