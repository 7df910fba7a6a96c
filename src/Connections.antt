-- ===== src/Connections.antt =====
-- src/core/connection_manager.cpp and include/seraphbot/core/connection_manager.hpp: the threads
-- that run the I/O context, and a connection up to its TLS handshake. With the HTTP of Beast it is
-- what the clients take for the network.
pub mod Failing
use seraphbot.Base.{
  ℕ, zero, suc, ◌+◌, ◌-◌, ◌*◌, ◌/◌, ◌%◌, ◌^◌, ◌≤◌, ◌<◌, String, ◌≡◌, refl, sym, ap, ◌∙◌, ◌≢◌, ◌↔◌,
  ◌⊎◌, inl, inr, Bool, true, false, not, ◌&&◌, ◌||◌, Option, none, some, List, [], ◌∷◌, ◌++◌, map,
  append-nil, append_assoc, arith, ltb, leb, ◌==◌, if◌then◌else◌, ==_iff, Bool-cases, Option-cases,
  length, drop, take, length-append, drop-length_append, All, All-append, All-mono, any_of, Text,
  codes, text_eq, text_eq_iff, text_eq_refl, starts_with, starts_with-append, starts_with-split,
  is_empty, to_lower, lower, to_lower_idem, lower_idem, is_space, to_text, ℤ, pos, negsuc, pos_part,
  neg_part, sub_ℕ, ltb_ℤ, clamp, clamp_bounds,
}
use seraphbot.Net.{
  Outcome, value, failed, Failure, other_error, Request, Response, Net, Run, ◌>>=◌, ◌>>◌, pure,
  throw,
}

-- Boost.Asio, OpenSSL and the HTTP of Beast. `set_host_name` is `SSL_set_tlsext_host_name`.
pub record Tcp : Type 1 where
  pub World : Type 0
  pub resolve : Text → Text → World → Outcome (Unit {0}) × World
  pub connect : World → Outcome (Unit {0}) × World
  pub set_host_name : Text → World → Bool × World
  pub handshake : World → Outcome (Unit {0}) × World
  pub round_trip : Request → World → Outcome Response × World
  pub shut_down : World → Outcome (Unit {0}) × World
  pub sleep : ℕ → World → World

-- `m_work_guard` and `m_io_context`, and the numbers of the threads that were started and not yet
-- joined.
pub record ConnectionManager : Type 0 where
  pub work_guard : Bool
  pub stopped : Bool
  pub thread_pool : List ℕ
  pub thread_count : ℕ

-- The loop of the constructor, with the rounds that are left.
unfoldable pub start_threads : ℕ → ℕ → List ℕ → List ℕ
start_threads zero i pool = pool
start_threads (suc rounds) i pool = start_threads rounds (i + 1) (pool ++ (i ∷ []))

unfoldable pub new_connection_manager : ℕ → ConnectionManager
new_connection_manager thread_count = record {
  work_guard = true;
  stopped = false;
  thread_pool = start_threads thread_count 0 [];
  thread_count = thread_count;
}

-- The body of a thread: whatever `run` ends with, the thread ends.
unfoldable pub thread_body : {W : Type 0} → Run W (Unit {0}) → Run W (Unit {0})
thread_body run w = let (o, w') = run w in (value tt, w')

-- The destructor up to its joins, and its end.
unfoldable pub stop : ConnectionManager → ConnectionManager
stop c = record c { work_guard = false; stopped = true }

unfoldable pub destroy : ConnectionManager → ConnectionManager
destroy c = record (stop c) { thread_pool = [] }

abbrev pub no_sni : Failure
no_sni = other_error (codes "Failed to set SNI")

module _ (tcp : Tcp) where
  open tcp use {World, resolve, connect, set_host_name, handshake, round_trip, shut_down, sleep}

  -- `if (!SSL_set_tlsext_host_name(...))`
  unfoldable pub set_sni : Text → Run World (Unit {0})
  set_sni host w =
      let (ok, w') = set_host_name host w in if ok then (value tt, w') else (failed no_sni, w')

  unfoldable pub make_ssl_stream : Text → Text → Run World (Unit {0})
  make_ssl_stream host port = resolve host port >> connect >> set_sni host

  -- The stream that a client uses: it does the handshake itself.
  unfoldable pub open_stream : Text → Text → Run World (Unit {0})
  open_stream host port = make_ssl_stream host port >> handshake

  -- The interface that the clients take.
  abbrev pub net_over : Net
  net_over = record {
    World = World;
    open_stream = open_stream;
    round_trip = round_trip;
    shut_down = shut_down;
    sleep = sleep;
  }
