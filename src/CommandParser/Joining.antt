-- ===== src/CommandParser/Joining.antt =====
-- Proofs about `joinArgs`.
use seraphbot.Base.{
  ℕ, ◌≡◌, refl, ap, ◌∙◌, true, false, List, [], ◌∷◌, ◌++◌, append-nil, append_assoc, drop, All,
  Text, is_empty, is_space,
}
use seraphbot.CommandParser.{CommandContext, join_from, join_args}
use seraphbot.CommandParser.Tokenizer.{flush, tokenize, tokenize_from}
use seraphbot.CommandParser.Tokens.{IsFilled}
use seraphbot.CommandParser.Words.{
  reading, tokenize_char_plain, IsClosed, tokenize-append, is_plain,
}

-- The words with a space between any two.
abbrev pub joined : List Text → Text
joined [] = []
joined (s ∷ []) = s
joined (s ∷ t ∷ ts) = s ++ (b' ' ∷ joined (t ∷ ts))

join_from_lem :
    (result : Text) (s : Text) (ts : List Text)
    → join_from false result (s ∷ ts) ≡ result ++ (b' ' ∷ joined (s ∷ ts))
unfolding join_from
join_from_lem result s [] = append_assoc result (b' ' ∷ []) s
join_from_lem result s (t ∷ ts) =
    join_from_lem ((result ++ (b' ' ∷ [])) ++ s) t ts
    ∙ (append_assoc (result ++ (b' ' ∷ [])) s (b' ' ∷ joined (t ∷ ts))
        ∙ append_assoc result (b' ' ∷ []) (s ++ (b' ' ∷ joined (t ∷ ts))))

join_all : (ts : List Text) → join_from true [] ts ≡ joined ts
unfolding join_from
join_all [] = refl
join_all (s ∷ []) = refl
join_all (s ∷ t ∷ ts) = join_from_lem s t ts

-- The arguments from an index on are joined by single spaces; past the end there are none.
pub join_args_lem : (ctx : CommandContext) (i : ℕ) → join_args ctx i ≡ joined (drop i ctx.args)
unfolding join_args
join_args_lem ctx i = join_all (drop i ctx.args)

-- A word: not empty, with no space, quote or backslash.
abbrev pub IsWord : Text → Type 0
IsWord s = IsFilled s × All (λ c. (is_plain c ≡ true) × (is_space c ≡ false)) s

abbrev IsLetter : ℕ → Type 0
IsLetter c = (is_plain c ≡ true) × (is_space c ≡ false)

read_word :
    (s current : Text)
    → All IsLetter s
    → tokenize_from (reading [] current) s ≡ reading [] (current ++ s)
unfolding tokenize_from
read_word [] current h = rw append-nil
read_word (c ∷ s) current ((plain, letter), hs) =
    rw (tokenize_char_plain [] current c plain, letter)
      (read_word s (current ++ (c ∷ [])) hs ∙ ap (reading []) (append_assoc current (c ∷ []) s))

flush_word : (s : Text) → IsFilled s → (flush (reading [] s)).tokens ≡ s ∷ []
unfolding flush is_empty
flush_word [] h = absurd (h refl)
flush_word (c ∷ s) h = refl

tokenize_word : (s : Text) → IsWord s → tokenize s ≡ s ∷ []
unfolding tokenize
tokenize_word s h = ap (λ t. (flush t).tokens) (read_word s [] h.1) ∙ flush_word s h.0

word-IsClosed : (s : Text) → All IsLetter s → IsClosed s
word-IsClosed s h = record {
  unquoted = ap (λ t. t.in_quotes) (read_word s [] h);
  unescaped = ap (λ t. t.escape_next) (read_word s [] h);
}

tokenize-joined : (ts : List Text) → All IsWord ts → tokenize (joined ts) ≡ ts
unfolding tokenize flush is_empty tokenize_from
tokenize-joined [] h = refl
tokenize-joined (s ∷ []) h = tokenize_word s h.0
tokenize-joined (s ∷ t ∷ ts) h =
    tokenize-append s (joined (t ∷ ts)) b' ' (word-IsClosed s h.0.1) (unfold is_space in refl)
    ∙ rw (tokenize_word s h.0, tokenize-joined (t ∷ ts) h.1) refl

-- Arguments that are words, without spaces, quotes and backslashes and not empty, are read back
-- from what `joinArgs` makes of them, from any index on.
pub tokenize-join_args :
    (ctx : CommandContext) (i : ℕ)
    → All IsWord (drop i ctx.args)
    → tokenize (join_args ctx i) ≡ drop i ctx.args
tokenize-join_args ctx i h = ap tokenize (join_args_lem ctx i) ∙ tokenize-joined (drop i ctx.args) h
