-- ===== src/Providers/Stubs.antt =====
-- The clients of internal/providers/openai_responses/stub.go and
-- internal/providers/anthropic_messages/stub.go, which are not enabled.
use hyprbot.Providers.Request.{ChatRequest}
use hyprbot.Prelude.{Result, Text, err, failed}

-- `Chat` of openai_responses
unfoldable pub openai_responses_chat : ChatRequest → Result Text
openai_responses_chat req = err (failed "openai_responses provider is not enabled yet")

-- `Chat` of anthropic_messages
unfoldable pub anthropic_messages_chat : ChatRequest → Result Text
anthropic_messages_chat req = err (failed "anthropic_messages provider is not enabled yet")
