-- ===== src/Discord/Keeping.antt =====
-- Steps that keep a property of their state, whether or not they fail.
use seraphbot.Base.{Bool, true, false, if◌then◌else◌}
use seraphbot.Net.{Outcome, value, failed, Run, ◌>>=◌, pure, catch}

-- A step that keeps a property of the state, whether or not it fails.
abbrev pub Keeps : {W A : Type 0} → (W → Type 0) → Run W A → Type 0
Keeps {W} P m = (w : W) → P w → P (m w).1

module _ {W : Type 0} (P : W → Type 0) where
  next-Keeps :
      {A B : Type 0} (f : A → Run W B) (r : Outcome A × W)
      → ((a : A) → Keeps P (f a))
      → P r.1
      → P (◌>>=◌ (λ _. r) f r.1).1
  next-Keeps f (value a, w) hf h = hf a w h
  next-Keeps f (failed e, w) hf h = h

  pub bind-Keeps :
      {A B : Type 0} (m : Run W A) (f : A → Run W B)
      → Keeps P m
      → ((a : A) → Keeps P (f a))
      → Keeps P (m >>= f)
  bind-Keeps m f hm hf w h = next-Keeps f (m w) hf (hm w h)

  pub ignored-Keeps : (r : Outcome (Unit {0}) × W) → P r.1 → P (catch (λ _. r) (λ e. pure tt) r.1).1
  ignored-Keeps (value a, w) h = h
  ignored-Keeps (failed e, w) h = h

  pub if-Keeps :
      {A : Type 0} (b : Bool) (m k : Run W A) → Keeps P m → Keeps P k → Keeps P (if b then m else k)
  if-Keeps true m k hm hk = hm
  if-Keeps false m k hm hk = hk
