-- ===== src/Chat.antt =====
-- include/seraphbot/core/chat_message.hpp
use seraphbot.Base.{List, Text}

pub record ChatMessage : Type 0 where
  pub user : Text
  pub text : Text
  pub color : Text
  pub badges : List Text
