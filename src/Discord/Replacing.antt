-- ===== src/Discord/Replacing.antt =====
-- Proofs about `replace_all`: what can occur in its result.
use seraphbot.Base.{
  ℕ, zero, suc, ◌-◌, ◌≡◌, refl, sym, ap, ◌∙◌, ◌≢◌, ◌⊎◌, inl, inr, Bool, true, false, ◌&&◌, [], ◌∷◌,
  ◌++◌, ◌==◌, if◌then◌else◌, Bool-cases, length, All, All-mono, Text, starts_with, is_empty,
}
use seraphbot.Discord.Placeholder.{replace_from, replace_all}

-- Whether a text stands somewhere in another one.
abbrev pub occurs : Text → Text → Bool
occurs q [] = is_empty q
occurs q (c ∷ s) = if starts_with (c ∷ s) q then true else occurs q s

-- Two texts without a common character, the second not empty.
pub record IsApart (q by : Text) : Type 0 where
  pub filled : by ≢ []
  pub apart : All (λ c. All (λ d. (c == d) ≡ false) q) by

both_true : (a b : Bool) → (a && b) ≡ true → (a ≡ true) × (b ≡ true)
both_true true b h = (refl, h)
both_true false b h = cc

-- In front of a text that shares no character with `q`, only the empty `q` stands.
apart_starts : (q by rest : Text) → IsApart q by → starts_with (by ++ rest) q ≡ true → q ≡ []
unfolding starts_with
apart_starts [] by rest h st = refl
apart_starts (d ∷ q) [] rest h st = absurd (h.filled refl)
apart_starts (d ∷ q) (c ∷ by) rest h st =
    let same = (both_true (c == d) _ st).0 in cc (same, h.apart.0.0)

IsApart-tail : (d : ℕ) (q by : Text) → IsApart (d ∷ q) by → IsApart q by
IsApart-tail d q by h = record { filled = h.filled; apart = All-mono _ _ by (λ c a. a.1) h.apart }

-- One step of the replacement, at a match and elsewhere.
replace_from-step :
    (pattern by s : Text) (c : ℕ) (hit : Bool)
    → starts_with (c ∷ s) pattern ≡ hit
    → replace_from pattern by 0 (c ∷ s)
      ≡ (if hit then by else c ∷ [])
        ++ replace_from pattern by (if hit then length pattern - 1 else 0) s
unfolding replace_from
replace_from-step pattern by s c hit h = rw h refl

-- What stands in front of the result stood in front of the text.
starts_with-replace_from :
    (pattern by q s : Text)
    → IsApart q by
    → starts_with (replace_from pattern by 0 s) q ≡ true
    → starts_with s q ≡ true
unfolding starts_with
starts_with-replace_from pattern by [] s h st = refl
starts_with-replace_from pattern by (d ∷ q) [] h st = unfold replace_from in st
starts_with-replace_from pattern by (d ∷ q) (c ∷ s) h st =
    elim (Bool-cases (starts_with (c ∷ s) pattern)) [
      | inl hit ↦
          let eq = replace_from-step pattern by s c true hit in
          let none = apart_starts (d ∷ q) by _ h (sym (ap (λ t. starts_with t (d ∷ q)) eq) ∙ st) in
          cc none
      | inr miss ↦
          let eq = replace_from-step pattern by s c false miss in
          let (here, there) =
            both_true (c == d) _ (sym (ap (λ t. starts_with t (d ∷ q)) eq) ∙ st) in
          rw here (starts_with-replace_from pattern by q s (IsApart-tail d q by h) there)
    ]

or_true : (a b : Bool) → (if a then true else b) ≡ true → (a ≡ true) ⊎ (b ≡ true)
or_true true b h = inl refl
or_true false b h = inr h

if_true : (a b : Bool) → (a ≡ true) ⊎ (b ≡ true) → (if a then true else b) ≡ true
if_true true b h = refl
if_true false b (inl h) = cc
if_true false b (inr h) = h

cons_filled : (c : ℕ) (s : Text) → c ∷ s ≢ []
cons_filled c s e = cc

is_empty_filled : (s : Text) → s ≢ [] → is_empty s ≡ false
unfolding is_empty
is_empty_filled [] h = absurd (h refl)
is_empty_filled (c ∷ s) h = refl

-- Behind a text apart from `q`, `q` can only stand past it.
occurs-behind :
    (q by rest : Text)
    → q ≢ []
    → All (λ c. All (λ d. (c == d) ≡ false) q) by
    → occurs q (by ++ rest) ≡ true
    → occurs q rest ≡ true
occurs-behind q [] rest filled h o = o
occurs-behind q (c ∷ by) rest filled (hc, hs) o =
    elim (or_true (starts_with (c ∷ (by ++ rest)) q) _ o) [
      | inl here ↦ absurd (
          filled (
            apart_starts q (c ∷ by) rest (record { filled = cons_filled c by; apart = (hc, hs) })
              here))
      | inr there ↦ occurs-behind q by rest filled hs there
    ]

-- A text apart from what is put in occurs in the result only if it did before.
occurs-replace_from :
    (pattern by q s : Text) (skip : ℕ)
    → q ≢ []
    → IsApart q by
    → occurs q (replace_from pattern by skip s) ≡ true
    → occurs q s ≡ true
occurs-replace_from pattern by q [] skip filled h o = unfold replace_from in o
occurs-replace_from pattern by q (c ∷ s) (suc skip) filled h o =
    if_true (starts_with (c ∷ s) q) _
      (inr (occurs-replace_from pattern by q s skip filled h (unfold replace_from in o)))
occurs-replace_from pattern by q (c ∷ s) zero filled h o =
    elim (Bool-cases (starts_with (c ∷ s) pattern)) [
      | inl hit ↦ if_true (starts_with (c ∷ s) q) _ (
          inr (
            occurs-replace_from pattern by q s (length pattern - 1) filled h (
              occurs-behind q by _ filled h.apart
                (sym (ap (occurs q) (replace_from-step pattern by s c true hit)) ∙ o))))
      | inr miss ↦
          let eq = replace_from-step pattern by s c false miss in
          elim (or_true (starts_with (c ∷ replace_from pattern by 0 s) q) _
            (sym (ap (occurs q) eq) ∙ o)) [
              | inl here ↦ if_true (starts_with (c ∷ s) q) _ (
                  inl (
                    starts_with-replace_from pattern by q (c ∷ s) h
                      (ap (λ t. starts_with t q) eq ∙ here)))
              | inr there ↦
                  if_true (starts_with (c ∷ s) q) _
                    (inr (occurs-replace_from pattern by q s 0 filled h there))
            ]
    ]

-- The pattern itself is gone.
occurs-replaced :
    (pattern by s : Text) (skip : ℕ)
    → pattern ≢ []
    → IsApart pattern by
    → occurs pattern (replace_from pattern by skip s) ≡ true
    → ⊥
occurs-replaced pattern by [] skip filled h o =
    let at_end : is_empty pattern ≡ true = unfold replace_from in o in
    cc (at_end, is_empty_filled pattern filled)
occurs-replaced pattern by (c ∷ s) (suc skip) filled h o =
    occurs-replaced pattern by s skip filled h (unfold replace_from in o)
occurs-replaced pattern by (c ∷ s) zero filled h o =
    elim (Bool-cases (starts_with (c ∷ s) pattern)) [
      | inl hit ↦ occurs-replaced pattern by s (length pattern - 1) filled h (
          occurs-behind pattern by _ filled h.apart
            (sym (ap (occurs pattern) (replace_from-step pattern by s c true hit)) ∙ o))
      | inr miss ↦
          let eq = replace_from-step pattern by s c false miss in
          elim (or_true (starts_with (c ∷ replace_from pattern by 0 s) pattern) _
            (sym (ap (occurs pattern) eq) ∙ o)) [
              | inl here ↦
                  let before =
                    starts_with-replace_from pattern by pattern (c ∷ s) h
                      (ap (λ t. starts_with t pattern) eq ∙ here) in
                  cc (before, miss)
              | inr there ↦ occurs-replaced pattern by s 0 filled h there
            ]
    ]

-- Where `by` is not empty and shares no character with the pattern, the pattern occurs nowhere in
-- the result of `replace_all`.
pub occurs-replace_all :
    (pattern by s : Text)
    → pattern ≢ []
    → IsApart pattern by
    → occurs pattern (replace_all pattern by s) ≡ false
unfolding replace_all
occurs-replace_all pattern by s filled h =
    elim (Bool-cases (occurs pattern (replace_from pattern by 0 s))) [
      | inl there ↦ absurd (occurs-replaced pattern by s 0 filled h there)
      | inr gone ↦ gone
    ]

-- Nor does a text that was not there before and is as far from `by`.
pub occurs-replace_all_other :
    (pattern by q s : Text)
    → q ≢ []
    → IsApart q by
    → occurs q s ≡ false
    → occurs q (replace_all pattern by s) ≡ false
unfolding replace_all
occurs-replace_all_other pattern by q s filled h before =
    elim (Bool-cases (occurs q (replace_from pattern by 0 s))) [
      | inl there ↦ cc (occurs-replace_from pattern by q s 0 filled h there, before)
      | inr gone ↦ gone
    ]
