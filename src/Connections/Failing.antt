-- ===== src/Connections/Failing.antt =====
-- Proofs about connections that fail, up to the requests of the HTTPS client over them.
use seraphbot.Base.{◌≡◌, false, List, arith, Text}
use seraphbot.Net.{value, failed, Failure}
use seraphbot.Https.{https_get, https_post, exchange}
use seraphbot.Connections.{Tcp, no_sni, set_sni, make_ssl_stream, open_stream, net_over}

module _ (tcp : Tcp) where
  open tcp use {World}

  -- Without SNI there is no handshake: after a resolution and a connection that succeed, the
  -- failure is that of the SNI, and the handshake is not begun.
  open_stream_no_sni :
      (host port : Text) (w w1 w2 w3 : World)
      → tcp.resolve host port w ≡ (value tt, w1)
      → tcp.connect w1 ≡ (value tt, w2)
      → tcp.set_host_name host w2 ≡ (false, w3)
      → open_stream tcp host port w ≡ (failed no_sni, w3)
  unfolding open_stream make_ssl_stream set_sni
  open_stream_no_sni host port w w1 w2 w3 r c s = ground (arith, r, c, s)

  -- Where the stream cannot be made, at whatever step, no handshake is done and no request is
  -- written: a GET and a POST end with that failure, and with the outside as it was left.
  pub https_unconnected :
      (host port target body : Text) (headers : List (Text × Text)) (e : Failure) (w w' : World)
      → make_ssl_stream tcp host port w ≡ (failed e, w')
      → (https_get (net_over tcp) host port target headers w ≡ (failed e, w'))
        × (https_post (net_over tcp) host port target body headers w ≡ (failed e, w'))
  unfolding https_get https_post exchange open_stream
  https_unconnected host port target body headers e w w' h = (ground (arith, h), ground (arith, h))
