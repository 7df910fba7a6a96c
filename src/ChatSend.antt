-- ===== src/ChatSend.antt =====
-- src/tw/chat/send.cpp: one chat message by the Helix API.
use seraphbot.Base.{[], ◌∷◌, Text, codes}
use seraphbot.EventSub.{client_headers}
use seraphbot.Https.{ClientConfig, https_post}
use seraphbot.Net.{Failure, other_error, Net, JsonLibrary, Run, ◌>>=◌, pure, or_throw}

abbrev bad_json : Failure
bad_json = other_error (codes "json")

module _ (net : Net) (json : JsonLibrary) where
  open json use {Json, dump, text, object}

  unfoldable pub message_body : ClientConfig → Text → Text → Json
  message_body cfg msg sender_id = object (
      (codes "broadcaster_id", text cfg.broadcaster_id)
      ∷ (codes "message", text msg)
      ∷ (codes "sender_id", text sender_id)
      ∷ [])

  unfoldable pub send_chat_message : ClientConfig → Text → Text → Run net.World (Unit {0})
  send_chat_message cfg msg sender_id = do
    body ← or_throw (dump (message_body cfg msg sender_id)) bad_json
    resp ←
        https_post net cfg.helix_host cfg.helix_port (codes "/helix/chat/messages") body
          (client_headers cfg)
    pure tt
