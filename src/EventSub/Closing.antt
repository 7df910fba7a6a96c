-- ===== src/EventSub/Closing.antt =====
-- src/tw/eventsub.cpp: `reconnect` and `shutdown`. `close` is the closing of the WebSocket, with the
-- error code or the exception that it ends with, which is logged at most.
use seraphbot.Base.{◌≡◌, refl, false, List, [], if◌then◌else◌, Text}
use seraphbot.Net.{Failure, Outcome, value, failed, Net, JsonLibrary, Run}
use seraphbot.EventSub.{EventSub, Socket, do_read, connect, after_tls}

-- `if (m_wss)` with the closing, and `m_wss.reset()`.
unfoldable pub close_socket :
    {World : Type 0} → Run World (Unit {0}) → EventSub × World → EventSub × World
close_socket close (e, w) = (record e { socket = false }, if e.socket then (close w).1 else w)

unfoldable pub shutdown :
    {World : Type 0} → Run World (Unit {0}) → Run (EventSub × World) (Unit {0})
shutdown close s = (value tt, close_socket close s)

module _ (net : Net) (json : JsonLibrary) where
  -- `reconnect`, with the coroutine that it spawns, whose exception is dropped.
  unfoldable pub reconnect :
      Run net.World (Unit {0}) → Socket net.World → EventSub × net.World → EventSub × net.World
  reconnect close ws s = (connect net json ws (close_socket close s)).1

  reconnected :
      (e : EventSub) (r : Outcome (Unit {0}) × net.World) (ws : Socket net.World) (err : Failure)
      (reads : List (Outcome Text))
      → e.socket ≡ false
      → r.0 ≡ failed err
      → let e' = (after_tls net json ws e r).1.0 in
        (do_read e' reads ≡ []) × (e'.session_id ≡ e.session_id)
  unfolding after_tls do_read
  reconnected e (value _, w) ws err reads closed h = cc
  reconnected e (failed f, w) ws err reads closed h = (rw closed refl, refl)

  -- Whether or not the closing fails: where the new connection fails up to its TLS handshake, there
  -- is no socket, so `doRead` hands nothing on, but the id of the session that is gone is kept.
  pub reconnect_failed :
      (close : Run net.World (Unit {0})) (ws : Socket net.World) (e : EventSub) (w : net.World)
      (err : Failure) (reads : List (Outcome Text))
      → (ws.open_tls e.cfg.host e.cfg.port (close_socket close (e, w)).1).0 ≡ failed err
      → let e' = (reconnect close ws (e, w)).0 in
        (do_read e' reads ≡ []) × (e'.session_id ≡ e.session_id)
  unfolding reconnect close_socket connect
  reconnect_failed close ws e w err reads h =
      reconnected (record e { socket = false }) _ ws err reads refl h
