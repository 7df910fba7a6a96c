-- ===== src/Logger.antt =====
-- src/core/logging.cpp and include/seraphbot/core/logging.hpp. What is handed to spdlog stands in
-- `written`, level and text; formatting of the arguments is done by the callers.
pub mod Scopes
pub mod Threads
pub mod Levels
use seraphbot.Base.{
  ℕ, zero, suc, ◌+◌, ◌-◌, ◌*◌, ◌/◌, ◌%◌, ◌^◌, ◌≤◌, ◌<◌, String, ◌≡◌, refl, sym, ap, ◌∙◌, ◌≢◌, ◌↔◌,
  ◌⊎◌, inl, inr, Bool, true, false, not, ◌&&◌, ◌||◌, Option, none, some, List, [], ◌∷◌, ◌++◌, map,
  append-nil, append_assoc, arith, ltb, leb, ◌==◌, if◌then◌else◌, ==_iff, Bool-cases, Option-cases,
  length, drop, take, length-append, drop-length_append, All, All-append, All-mono, any_of, Text,
  codes, text_eq, text_eq_iff, text_eq_refl, starts_with, starts_with-append, starts_with-split,
  is_empty, to_lower, lower, to_lower_idem, lower_idem, is_space, to_text, ℤ, pos, negsuc, pos_part,
  neg_part, sub_ℕ, ltb_ℤ, clamp, clamp_bounds,
}

pub data LogLevel : Type 0 where
  trace debug info warn error critical off : LogLevel

-- The values of the enumeration.
abbrev pub rank : LogLevel → ℕ
rank trace = 0
rank debug = 1
rank info = 2
rank warn = 3
rank error = 4
rank critical = 5
rank off = 6

-- spdlog's own levels.
pub data SpdlogLevel : Type 0 where
  spd_trace spd_debug spd_info spd_warn spd_err spd_critical spd_off : SpdlogLevel

unfoldable pub to_spdlog_level : LogLevel → SpdlogLevel
to_spdlog_level trace = spd_trace
to_spdlog_level debug = spd_debug
to_spdlog_level info = spd_info
to_spdlog_level warn = spd_warn
to_spdlog_level error = spd_err
to_spdlog_level critical = spd_critical
to_spdlog_level off = spd_off

pub record Config : Type 0 where
  pub console_level : LogLevel
  pub file_level : LogLevel
  pub log_directory : Text
  pub log_filename : Text
  pub enable_console : Bool
  pub enable_file : Bool
  pub enable_rotation : Bool
  pub max_file_size : ℕ
  pub max_files : ℕ
  pub pattern : Text

abbrev pub default_config : Config
default_config = record {
  console_level = info;
  file_level = debug;
  log_directory = codes "logs";
  log_filename = codes "seraphbot.log";
  enable_console = true;
  enable_file = true;
  enable_rotation = true;
  max_file_size = 10 * 1024 * 1024;
  max_files = 5;
  pattern = codes "[%Y-%m-%d %H:%M:%S.%e] [%n] [%^%l%$] [%t] %v";
}

-- The sinks that are made, with their levels. The flag of `basic_file` is `truncate`.
pub data Sink : Type 0 where
  console : SpdlogLevel → Sink
  rotating_file : Text → ℕ → ℕ → SpdlogLevel → Sink
  basic_file : Text → Bool → SpdlogLevel → Sink

-- The spdlog logger.
pub record Backend : Type 0 where
  pub sinks : List Sink
  pub level : SpdlogLevel
  pub pattern : Text

pub record Logger : Type 0 where
  pub logger : Option Backend
  pub context_stack : List Text
  pub current_level : LogLevel
  pub written : List (SpdlogLevel × Text)

unfoldable pub new_logger : Logger
new_logger = record { logger = none; context_stack = []; current_level = info; written = [] }

unfoldable pub push_context : Text → Logger → Logger
push_context context l = record l { context_stack = l.context_stack ++ (context ∷ []) }

-- `pop_back` on a vector that is not empty.
abbrev pub pop_back {ℓ} : {A : Type ℓ} → List A → List A
pop_back [] = []
pop_back (x ∷ []) = []
pop_back (x ∷ y ∷ xs) = x ∷ pop_back (y ∷ xs)

unfoldable pub pop_context : Logger → Logger
pop_context l = record l { context_stack = pop_back l.context_stack }

-- The loop over the stack from index `i`. `first` is `i == 0`.
join_contexts : Bool → Text → List Text → Text
join_contexts first context_str [] = context_str
join_contexts first context_str (context ∷ rest) =
    join_contexts false ((if first then context_str else context_str ++ codes "::") ++ context) rest

full_message : List Text → Text → Text
full_message [] message = message
full_message (context ∷ rest) message =
    (join_contexts true (codes "[") (context ∷ rest) ++ codes "] ") ++ message

-- The body of `log`, by whether there is a logger.
log_with : Option Backend → LogLevel → Text → Logger → Logger
log_with none level message l = l
log_with (some backend) level message l =
    if ltb (rank level) (rank l.current_level) then l else record l {
      written = l.written ++ ((to_spdlog_level level, full_message l.context_stack message) ∷ []);
    }

unfoldable pub log : LogLevel → Text → Logger → Logger
unfolding join_contexts full_message log_with
log level message l = log_with l.logger level message l

unfoldable pub make_sinks : Config → List Sink
make_sinks config =
    (if config.enable_console then console (to_spdlog_level config.console_level) ∷ [] else [])
    ++ (if config.enable_file then file_sink ∷ [] else [])
  where
    open config use {log_directory, log_filename}

    full_path : Text
    full_path = log_directory ++ codes "/" ++ log_filename

    file_sink : Sink
    file_sink =
        if config.enable_rotation
        then rotating_file full_path config.max_file_size config.max_files
            (to_spdlog_level config.file_level)
        else basic_file full_path true (to_spdlog_level config.file_level)

unfoldable pub setup_sinks : Config → Logger → Logger
unfolding make_sinks
setup_sinks config l = record l {
  logger = some (record { sinks = make_sinks config; level = spd_trace; pattern = config.pattern });
}

unfoldable pub set_level : LogLevel → Logger → Logger
set_level level l = record l { current_level = level }

unfoldable pub get_level : Logger → LogLevel
get_level l = l.current_level

-- `Logger::init`, of the one instance.
unfoldable pub init : Config → Logger → Logger
init config l = setup_sinks config l

-- `withContext`: the context is pushed, and nothing pops it.
unfoldable pub with_context : Text → Logger → Logger
with_context context l = push_context context l
