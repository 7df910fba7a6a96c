-- ===== src/Logger/Levels.antt =====
-- Proofs about the levels, the sinks, and the stack of contexts that all threads share.
use seraphbot.Base.{ℕ, ◌<◌, ◌≡◌, refl, ◌⊎◌, none, [], ◌∷◌, ◌++◌, arith, Text}
use seraphbot.Logger.{
  LogLevel, SpdlogLevel, spd_trace, spd_debug, spd_info, spd_warn, spd_err, spd_critical, spd_off,
  rank, to_spdlog_level, Logger, push_context, pop_context, log,
}
use seraphbot.Logger.Scopes.{pop_back-push}

abbrev spd_rank : SpdlogLevel → ℕ
spd_rank spd_trace = 0
spd_rank spd_debug = 1
spd_rank spd_info = 2
spd_rank spd_warn = 3
spd_rank spd_err = 4
spd_rank spd_critical = 5
spd_rank spd_off = 6

-- The translation keeps the order of the levels, so filtering here and in a sink agree.
pub to_spdlog_level-rank : (level : LogLevel) → spd_rank (to_spdlog_level level) ≡ rank level
unfolding to_spdlog_level
to_spdlog_level-rank LogLevel.trace = refl
to_spdlog_level-rank _ = refl

-- Nothing is written before the sinks are set up, nor below the current level.
pub log_silent :
    (level : LogLevel) (message : Text) (l : Logger)
    → (l.logger ≡ none) ⊎ (rank level < rank l.current_level)
    → log level message l ≡ l
unfolding log
log_silent level message l h = ground arith

-- A second thread that enters a scope before the first leaves its own takes the first one's place:
-- what the first leaves on the stack is its own name, not that of the thread still inside.
pub contexts_overlap :
    (first second : Text) (l : Logger)
    → (pop_context (push_context second (push_context first l))).context_stack
      ≡ l.context_stack ++ (first ∷ [])
unfolding push_context pop_context
contexts_overlap first second l = pop_back-push (l.context_stack ++ (first ∷ [])) second
