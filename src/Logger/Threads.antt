-- ===== src/Logger/Threads.antt =====
-- src/core/logging.cpp: the one stack of contexts, on which the scopes of all threads are pushed
-- and popped. Each operation holds the mutex while it uses the
-- stack, so the operations of the threads come one after the other there.
use seraphbot.Base.{
  ℕ, zero, suc, ◌≡◌, refl, sym, ap, ◌∙◌, inl, inr, Option, none, some, List, [], ◌∷◌, ◌++◌,
  append-nil, append_assoc, arith, ltb, Bool-cases, length, length-append, Text,
}
use seraphbot.Logger.{
  LogLevel, Logger, push_context, pop_context, pop_back, log, log_with, Backend, rank,
}

-- What a thread does: a `LogContext` is made or destroyed, or a message is logged.
pub data Operation : Type 0 where
  opens : Text → Operation
  closes : Operation
  says : LogLevel → Text → Operation

unfoldable pub run_operation : Operation → Logger → Logger
run_operation (opens context) l = push_context context l
run_operation closes l = pop_context l
run_operation (says level message) l = log level message l

-- The operations of all threads, in the order in which they take the mutex.
unfoldable pub run_operations : List Operation → Logger → Logger
run_operations [] l = l
run_operations (x ∷ operations) l = run_operations operations (run_operation x l)

-- How many scopes are open behind the operations, if `n` are before; `none` where more are closed
-- than were opened.
abbrev pub open_scopes : List Operation → ℕ → Option ℕ
open_scopes [] n = some n
open_scopes (opens context ∷ operations) n = open_scopes operations (suc n)
open_scopes (closes ∷ operations) zero = none
open_scopes (closes ∷ operations) (suc n) = open_scopes operations n
open_scopes (says level message ∷ operations) n = open_scopes operations n

pop_back-append :
    (base : List Text) (x : Text) (xs : List Text)
    → pop_back (base ++ (x ∷ xs)) ≡ base ++ pop_back (x ∷ xs)
pop_back-append [] x xs = refl
pop_back-append (b ∷ []) x xs = refl
pop_back-append (b ∷ c ∷ base) x xs =
    ap (λ (l : List Text). b ∷ l) (pop_back-append (c ∷ base) x xs)

length-pop_back : (x : Text) (xs : List Text) → length (pop_back (x ∷ xs)) ≡ length xs
length-pop_back x [] = refl
length-pop_back x (y ∷ xs) = ap suc (length-pop_back y xs)

-- The stack is what was there before, under as many contexts as scopes are open.
abbrev pub Stacked : List Text → ℕ → Logger → Type 0
Stacked base n l = (extra : List Text) × (l.context_stack ≡ base ++ extra) × (length extra ≡ n)

push-Stacked :
    (base : List Text) (n : ℕ) (context : Text) (l : Logger)
    → Stacked base n l
    → Stacked base (suc n) (push_context context l)
unfolding push_context
push-Stacked base n context l (extra, same, count) = (
  extra ++ (context ∷ []),
  ap (λ (s : List Text). s ++ (context ∷ [])) same ∙ append_assoc base extra (context ∷ []),
  omega (arith, count, length-append extra (context ∷ [])),
)

pop-Stacked :
    (base : List Text) (n : ℕ) (l : Logger)
    → Stacked base (suc n) l
    → Stacked base n (pop_context l)
unfolding pop_context
pop-Stacked base n l ([], same, count) = cc
pop-Stacked base n l (x ∷ extra, same, count) = (
  pop_back (x ∷ extra),
  ap pop_back same ∙ pop_back-append base x extra,
  omega (arith, count, length-pop_back x extra),
)

log_stack :
    (backend : Option Backend) (level : LogLevel) (message : Text) (l : Logger)
    → (log_with backend level message l).context_stack ≡ l.context_stack
unfolding log_with
log_stack none level message l = refl
log_stack (some backend) level message l =
    elim (Bool-cases (ltb (rank level) (rank l.current_level))) [
      | inl e ↦ rw e refl
      | inr e ↦ rw e refl
    ]

log-Stacked :
    (base : List Text) (n : ℕ) (level : LogLevel) (message : Text) (l : Logger)
    → Stacked base n l
    → Stacked base n (log level message l)
unfolding log
log-Stacked base n level message l (extra, same, count) =
    (extra, log_stack l.logger level message l ∙ same, count)

run_operations-Stacked :
    (operations : List Operation) (base : List Text) (n m : ℕ) (l : Logger)
    → open_scopes operations n ≡ some m
    → Stacked base n l
    → Stacked base m (run_operations operations l)
unfolding run_operations run_operation
run_operations-Stacked [] base n m l h (extra, same, count) =
    let equal : n ≡ m = cc h in (extra, same, count ∙ equal)
run_operations-Stacked (opens context ∷ operations) base n m l h s =
    run_operations-Stacked operations base (suc n) m _ h (push-Stacked base n context l s)
run_operations-Stacked (closes ∷ operations) base zero m l h s = cc
run_operations-Stacked (closes ∷ operations) base (suc n) m l h s =
    run_operations-Stacked operations base n m _ h (pop-Stacked base n l s)
run_operations-Stacked (says level message ∷ operations) base n m l h s =
    run_operations-Stacked operations base n m _ h (log-Stacked base n level message l s)

-- However the scopes of threads overlap: as long as no scope ends that did not begin, the stack
-- keeps what was there before, under as many contexts as there are open scopes, whosoever they are.
pub run_operations_stack :
    (operations : List Operation) (l : Logger) (m : ℕ)
    → open_scopes operations 0 ≡ some m
    → (extra : List Text) × ((run_operations operations l).context_stack ≡ l.context_stack ++ extra)
      × (length extra ≡ m)
run_operations_stack operations l m h =
    run_operations-Stacked operations l.context_stack 0 m l h ([], sym (append-nil _), refl)
