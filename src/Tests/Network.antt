-- ===== src/Tests/Network.antt =====
-- Runs of the network code: HTTPS, the login and EventSub.
use seraphbot.Base.{ℕ, ◌<◌, ◌≡◌, refl, true, some, List, [], ◌∷◌, ◌++◌, arith, length, Text, codes}
use seraphbot.Auth.{new_auth, alphanum, poll}
use seraphbot.Auth.Polling.{Ends, poll-Ends}
use seraphbot.EventSub.{EventSub, Socket, new_eventsub, start}
use seraphbot.Https.{default_client_config}
use seraphbot.Logger.Threads.{Operation, opens, closes, says, run_operations, run_operations_stack}
use seraphbot.Logger.{spd_info, Logger, info, new_logger}
use seraphbot.Logger.Scopes.{
  Block, say, scope, end, step, run_block, expected_block, run_block-writes,
}
use seraphbot.Net.{value}
use seraphbot.Tests.Worlds.{quiet_net, flat_json}

poll-Ends_example :
    Ends quiet_net flat_json 0
      (new_auth (codes "host"), 0)
      (poll quiet_net flat_json 11 0 (new_auth (codes "host"), 0))
poll-Ends_example =
    poll-Ends quiet_net flat_json 11 0 (new_auth (codes "host"), 0) (omega arith) (omega arith)

digit : ℕ → ℕ
digit i = 7

in_range : (j : ℕ) → digit j < length alphanum
unfolding digit
in_range j = omega arith

abbrev session : EventSub
session = record (start (new_eventsub default_client_config)) { socket = true }

abbrev welcoming : Socket ℕ
welcoming = record {
  open_tls = λ host port w. (value tt, w);
  upgrade = λ host w. (value tt, w);
  read = λ w. (value (codes "welcome"), w);
}

abbrev ready : Logger
ready = record new_logger { logger = some (record { sinks = []; level = spd_info; pattern = [] }) }

abbrev work : Block
work =
    step (scope (codes "Auth") (step (say info (codes "in")) end))
      (step (say info (codes "out")) end)

run_block-writes_example : run_block work ready ≡ record ready {
  written = ready.written ++ expected_block ready.current_level ready.context_stack work;
}
run_block-writes_example =
    run_block-writes (record { sinks = []; level = spd_info; pattern = [] }) work ready refl

-- Two scopes that overlap: the one that is left shows the context of the other.
abbrev overlapping : List Operation
overlapping = opens (codes "a") ∷ opens (codes "b") ∷ closes ∷ says info (codes "m") ∷ []

run_operations_stack_example :
    (extra : List Text) × ((run_operations overlapping ready).context_stack
      ≡ ready.context_stack ++ extra)
    × (length extra ≡ 1)
run_operations_stack_example = run_operations_stack overlapping ready 1 refl
