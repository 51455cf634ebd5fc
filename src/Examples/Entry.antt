-- ===== src/Examples/Entry.antt =====
-- The theorems on cmd/bot/main.go, on Load and on Open, applied to a private bot.
use hyprbot.Config.Load.{
  Config, load, read_config, check_config, must_int, must_bool, must_duration, hostname_or,
  parse_bool, access_private,
}
use hyprbot.Config.{
  Env, load_crypto_config, must_env, must_env_or, add_parsed, add_variables, variable_id,
  decode_keys, strip_suffix,
}
use hyprbot.Config.Wellformed.{IsWellformed, load-IsWellformed}
use hyprbot.Examples.Config.{zeros, config}
use hyprbot.Encoding.Base64
use hyprbot.Entry.{bot_of, sanitize_telegram_err}
use hyprbot.Entry.Modes.{private_bot_refuses}
use hyprbot.Entry.Secrecy.{sanitize_telegram_err-hides}
use hyprbot.Storage.Open.{Answers, open_store, IsClean, open_store-IsClean}
use hyprbot.Examples.Telegram.{update, calm, service}
use hyprbot.Examples.Menus.{library}
use hyprbot.Examples.Worker.{worker}
use hyprbot.Bot.{receive}
use hyprbot.Telegram.Processor.Laws.{count_if}
use hyprbot.Strings.Redaction.{NoAngle}
use hyprbot.Strings.{
  to_lower, to_upper, cut, contains, trim_left, trim_right, is_space, is_blank, strip_prefix,
  trim_space,
}
use hyprbot.Strings.Decimal.{parse_int}
use hyprbot.Prelude.Map
use hyprbot.Prelude.{
  pos, text_has_eq, arith, ◌≢◌, some, true, false, Text, refl, ok, ◌≡◌, text_eq, [], ◌∷◌, text,
  none,
}

-- A private bot for the user 8.
abbrev private_env : Env
private_env =
    (text "BOT_TOKEN", text "12:ab")
    ∷ (text "BOT_ACCESS_MODE", text "Private")
    ∷ (text "ADMIN_USER_ID", text "8")
    ∷ (text "MASTER_KEY_B64", zeros)
    ∷ []

abbrev private_config : Config
private_config = record (read_config (λ t. none) (λ t. none) none private_env) { crypto = config }

private_loads : load (λ t. none) (λ t. none) none private_env ≡ ok private_config
unfolding to_lower to_upper parse_int load read_config check_config must_int must_bool must_duration
    hostname_or parse_bool load_crypto_config must_env must_env_or add_parsed add_variables
    variable_id decode_keys strip_suffix Base64.decode Base64.decode_sextet Map.lookup Map.insert
    trim_space strip_prefix is_blank text text_eq
private_loads = refl

load-IsWellformed_example : IsWellformed private_config
load-IsWellformed_example =
    load-IsWellformed (λ t. none) (λ t. none) none private_env private_config private_loads

is_private_config : private_config.bot_access_mode ≡ access_private
unfolding to_lower read_config must_env_or must_env text text_eq trim_space Map.lookup
is_private_config = refl

admin_is_eight : private_config.admin_user_id ≡ pos 8
unfolding read_config must_int must_env parse_int text text_eq trim_space is_blank Map.lookup
admin_is_eight = refl

not_seven : update.effective_user ≢ some private_config.admin_user_id
not_seven = rw admin_is_eight (λ e. absurd (ground arith))

-- The user 7 writes to the bot.
private_bot_refuses_example :
    receive (bot_of library service worker private_config) (text "n") none none update calm
    ≡ (ok tt, record calm { sys = count_if true calm.sys })
private_bot_refuses_example =
    private_bot_refuses library service worker private_config (text "n") none none update calm
      (load-IsWellformed (λ t. none) (λ t. none) none private_env private_config private_loads)
      is_private_config not_seven

abbrev token : Text
token = text "12:ab"

token_parts : cut b':' token ≡ some (text "12", text "ab")
unfolding cut text
token_parts = refl

token_blank : is_blank token ≡ false
unfolding is_blank trim_space trim_left trim_right text is_space
token_blank = refl

token_plain : NoAngle token
unfolding text
token_plain =
    ((refl, (refl, (refl, (refl, (refl, tt))))), (refl, (refl, (refl, (refl, (refl, tt))))))

sanitize_telegram_err-hides_example :
    contains (sanitize_telegram_err (some (text "Post /bot12:ab/getMe: timeout")) token) token
    ≡ false
sanitize_telegram_err-hides_example =
    sanitize_telegram_err-hides (text "Post /bot12:ab/getMe: timeout") token (text "12") (text "ab")
      token_parts token_plain token_blank

-- The migrations fail.
abbrev answers : Answers
answers = record {
  opens = true;
  pings = true;
  sets_dialect = true;
  migrates = false;
  inits_schema = true;
}

open_store-IsClean_example : IsClean true (open_store answers (text "PGX ") (text "db") true [])
unfolding text
open_store-IsClean_example = open_store-IsClean answers (text "PGX ") (text "db") true []
