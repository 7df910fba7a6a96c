-- ===== src/Logger/Scopes.antt =====
-- Proofs about `LogContext`: scopes of one thread, nested as the C++ scopes are.
use seraphbot.Base.{
  ◌≡◌, refl, ap, ◌∙◌, inl, inr, false, some, List, [], ◌∷◌, ◌++◌, append-nil, append_assoc, ltb,
  if◌then◌else◌, Bool-cases, Text, codes,
}
use seraphbot.Logger.{
  log_with, LogLevel, SpdlogLevel, Logger, Backend, rank, to_spdlog_level, push_context, pop_back,
  pop_context, full_message, join_contexts, log,
}

-- What a thread does: it logs, or runs a block under `LOG_CONTEXT`.
mutual
  pub data Action : Type 0 where
    say : LogLevel → Text → Action
    scope : Text → Block → Action

  pub data Block : Type 0 where
    end : Block
    step : Action → Block → Block

-- The destructor of the `LogContext` runs at the end of its block.
unfoldable mutual
  pub run_action : Action → Logger → Logger
  run_action (say level message) l = log level message l
  run_action (scope name block) l = pop_context (run_block block (push_context name l))

  pub run_block : Block → Logger → Logger
  run_block end l = l
  run_block (step action rest) l = run_block rest (run_action action l)

-- The names along a path, with `::` between them.
unfoldable pub path_text : List Text → Text
path_text [] = []
path_text (name ∷ []) = name
path_text (name ∷ next ∷ path) = name ++ (codes "::" ++ path_text (next ∷ path))

-- A message as it is to be read: behind the path in brackets, if there is one.
unfoldable pub shown : List Text → Text → Text
shown [] message = message
shown (name ∷ path) message = codes "[" ++ (path_text (name ∷ path) ++ (codes "] " ++ message))

join_contexts-path_text :
    (before name : Text) (path : List Text)
    → join_contexts false (before ++ name) path ≡ before ++ path_text (name ∷ path)
unfolding join_contexts path_text
join_contexts-path_text before name [] = refl
join_contexts-path_text before name (next ∷ path) =
    join_contexts-path_text ((before ++ name) ++ codes "::") next path
    ∙ (append_assoc (before ++ name) (codes "::") _ ∙ append_assoc before name _)

-- The loop over the contexts prints the path.
full_message-shown :
    (path : List Text) (message : Text) → full_message path message ≡ shown path message
unfolding full_message join_contexts shown
full_message-shown [] message = refl
full_message-shown (name ∷ path) message =
    ap (λ t. (t ++ codes "] ") ++ message) (join_contexts-path_text (codes "[") name path)
    ∙ (append_assoc (codes "[" ++ path_text (name ∷ path)) (codes "] ") message
        ∙ append_assoc (codes "[") (path_text (name ∷ path)) _)

-- What is written under the contexts `path`, from the level `least` on.
mutual
  pub expected_action : LogLevel → List Text → Action → List (SpdlogLevel × Text)
  expected_action least path (say level message) =
      if ltb (rank level) (rank least) then [] else (to_spdlog_level level, shown path message) ∷ []
  expected_action least path (scope name block) = expected_block least (path ++ (name ∷ [])) block

  pub expected_block : LogLevel → List Text → Block → List (SpdlogLevel × Text)
  expected_block least path end = []
  expected_block least path (step action rest) =
      expected_action least path action ++ expected_block least path rest

pub pop_back-push {ℓ} : {A : Type ℓ} (xs : List A) (x : A) → pop_back (xs ++ (x ∷ [])) ≡ xs
pop_back-push [] x = refl
pop_back-push (y ∷ []) x = refl
pop_back-push (y ∷ z ∷ xs) x = ap (◌∷◌ y) (pop_back-push (z ∷ xs) x)

module _ (backend : Backend) where
  abbrev writing : Logger → List (SpdlogLevel × Text) → Logger
  writing l lines = record l { written = l.written ++ lines }

  log_with_lem :
      (level : LogLevel) (message : Text) (l : Logger)
      → log_with (some backend) level message l
        ≡ writing l (
            if ltb (rank level) (rank l.current_level)
            then []
            else (to_spdlog_level level, full_message l.context_stack message) ∷ [])
  unfolding log_with
  log_with_lem level message l = elim (Bool-cases (ltb (rank level) (rank l.current_level))) [
    | inl quiet ↦ rw (quiet, append-nil)
    | inr loud ↦ rw loud
  ]

  say_lem :
      (level : LogLevel) (message : Text) (l : Logger)
      → l.logger ≡ some backend
      → log level message l
        ≡ writing l (
            if ltb (rank level) (rank l.current_level)
            then []
            else (to_spdlog_level level, shown l.context_stack message) ∷ [])
  unfolding log
  say_lem level message l set =
      ap (λ o. log_with o level message l) set
      ∙ log_with_lem level message l
      ∙ rw full_message-shown

  mutual
    unfolding run_action run_block expected_action expected_block push_context pop_context

    run_action_lem :
        (a : Action) (l : Logger)
        → l.logger ≡ some backend
        → run_action a l ≡ writing l (expected_action l.current_level l.context_stack a)
    run_action_lem (say level message) l set = say_lem level message l set
    run_action_lem (scope name block) l set =
        ap pop_context (run_block_lem block (push_context name l) set) ∙ rw pop_back-push

    run_block_lem :
        (b : Block) (l : Logger)
        → l.logger ≡ some backend
        → run_block b l ≡ writing l (expected_block l.current_level l.context_stack b)
    run_block_lem end l set = rw append-nil
    run_block_lem (step action rest) l set = rw (run_action_lem action l set) (
        run_block_lem rest (writing l (expected_action l.current_level l.context_stack action)) set
        ∙ rw append_assoc)

  -- A thread that logs under any nest of contexts writes, for each message at or above the current
  -- level, that message behind the contexts open around it, in order: behind `[a::b] ` if `a` and
  -- in it `b` are open, and alone if none is; and it leaves the stack of
  -- contexts as it found it.
  pub run_block-writes :
      (b : Block) (l : Logger)
      → l.logger ≡ some backend
      → run_block b l
        ≡ record l { written = l.written ++ expected_block l.current_level l.context_stack b }
  run_block-writes b l set = run_block_lem b l set
