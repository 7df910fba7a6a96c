-- ===== src/Obs/Steps.antt =====
-- The steps of include/seraphbot/obs/obsservice.hpp: they may fail with an exception, which keeps
-- what was changed, or with undefined behaviour, which is `none`.
use seraphbot.Base.{Option, none, some}
use seraphbot.Net.{Outcome, value, failed, Failure}

abbrev pub Step : Type 0 → Type 0 → Type 0
Step S A = S → Option (Outcome A × S)

-- What comes behind a step that has ended.
abbrev pub after :
    {S A B : Type 0} → (A → Step S B) → Option (Outcome A × S) → Option (Outcome B × S)
after f none = none
after f (some (value a, s)) = f a s
after f (some (failed e, s)) = some (failed e, s)

infixl 5 ◌>>=◌ ◌>>◌
abbrev pub ◌>>=◌ : {S A B : Type 0} → Step S A → (A → Step S B) → Step S B
◌>>=◌ m f s = after f (m s)

abbrev pub ◌>>◌ : {S B : Type 0} → Step S (Unit {0}) → Step S B → Step S B
m >> k = m >>= λ _. k

abbrev pub pure : {S A : Type 0} → A → Step S A
pure a s = some (value a, s)

abbrev pub or_throw : {S A : Type 0} → Option A → Failure → Step S A
or_throw none e s = some (failed e, s)
or_throw (some a) e s = some (value a, s)

abbrev pub handled :
    {S A : Type 0} → (Failure → Step S A) → Option (Outcome A × S) → Option (Outcome A × S)
handled f none = none
handled f (some (value a, s)) = some (value a, s)
handled f (some (failed e, s)) = f e s

-- `catch (const std::exception &)`
abbrev pub catch : {S A : Type 0} → Step S A → (Failure → Step S A) → Step S A
catch m f s = handled f (m s)
