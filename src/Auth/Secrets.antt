-- ===== src/Auth/Secrets.antt =====
-- Proofs about `generateState`.
use seraphbot.Base.{
  ℕ, zero, suc, ◌<◌, ◌≡◌, refl, ap, Bool, true, ◌&&◌, ◌||◌, [], ◌∷◌, arith, leb, length, All, Text,
}
use seraphbot.Auth.{alphanum, state_length, pick, generate, generate_state}

abbrev pub is_alphanum : ℕ → Bool
is_alphanum c =
    (leb b'0' c && leb c b'9') || (leb b'A' c && leb c b'Z') || (leb b'a' c && leb c b'z')

pick-All : (P : ℕ → Type 0) (cs : Text) (i : ℕ) → All P cs → i < length cs → P (pick cs i)
unfolding pick
pick-All P [] i h l = absurd (omega arith)
pick-All P (c ∷ cs) zero h l = h.0
pick-All P (c ∷ cs) (suc i) h l = pick-All P cs i h.1 (omega arith)

all_of : (ℕ → Bool) → Text → Bool
all_of p [] = true
all_of p (c ∷ cs) = p c && all_of p cs

all_of-All : (p : ℕ → Bool) (cs : Text) → all_of p cs ≡ true → All (λ c. p c ≡ true) cs
unfolding all_of
all_of-All p [] h = tt
all_of-All p (c ∷ cs) h = (ground arith, all_of-All p cs (ground arith))

alphanum-All : All (λ c. is_alphanum c ≡ true) alphanum
unfolding all_of
alphanum-All = all_of-All is_alphanum alphanum refl

generate_lem :
    (dis : ℕ → ℕ) (i n : ℕ)
    → ((j : ℕ) → dis j < length alphanum)
    → (length (generate dis i n) ≡ n) × All (λ c. is_alphanum c ≡ true) (generate dis i n)
unfolding generate
generate_lem dis i zero h = (refl, tt)
generate_lem dis i (suc n) h =
    let (l, a) = generate_lem dis (suc i) n h in
    (ap suc l, (pick-All (λ c. is_alphanum c ≡ true) alphanum (dis i) alphanum-All (h i), a))

-- With a distribution that stays in its range the state has sixteen characters, digits and letters
-- all of them.
pub generate_state_lem :
    (dis : ℕ → ℕ)
    → ((j : ℕ) → dis j < length alphanum)
    → (length (generate_state dis) ≡ state_length)
      × All (λ c. is_alphanum c ≡ true) (generate_state dis)
unfolding generate_state
generate_state_lem dis h = generate_lem dis 0 state_length h
