-- ===== src/Telegram/Context.antt =====
-- What the handlers read of an update: `ext.Context` and the objects it points to, with `none` for nil.
use hyprbot.Prelude.{Bool, Option, List, Text, ℤ, text, ◌==◌, text_has_eq}

pub record ChatInfo : Type 0 where
  pub id : ℤ
  pub kind : Text
  pub title : Text

-- A message, with its chat; `text` is what `GetText` returns.
pub record Incoming : Type 0 where
  pub message_id : ℤ
  pub text : Text
  pub chat : ChatInfo

-- The message that the pressed button belongs to.
pub record CallbackMessage : Type 0 where
  pub message_id : ℤ
  pub chat_id : ℤ

-- A pressed button; `payload` is the field `Data`.
pub record CallbackQuery : Type 0 where
  pub id : Text
  pub payload : Text
  pub message : Option CallbackMessage

-- `args` is what `ctx.Args` returns.
pub record Context : Type 0 where
  pub update_id : ℤ
  pub effective_chat : Option ChatInfo
  pub effective_user : Option ℤ
  pub effective_message : Option Incoming
  pub callback_query : Option CallbackQuery
  pub args : List Text

abbrev pub is_private : ChatInfo → Bool
is_private c = c.kind == text "private"
