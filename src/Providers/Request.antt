-- ===== src/Providers/Request.antt =====
-- internal/providers/provider.go
use hyprbot.Prelude.{Bool, Text, ℤ}

-- `temperature` is carried as its decimal literal: the code passes the float on.
pub record ChatRequest : Type 0 where
  pub model : Text
  pub system_prompt : Text
  pub user_prompt : Text
  pub max_tokens : ℤ
  pub temperature : Text
  pub allow_tools : Bool
