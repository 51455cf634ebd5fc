-- ===== src/Examples/Bot.antt =====
-- The theorem on the whole bot, applied.
use hyprbot.Bot.{Bot, Reach, receive, later, update, start_worker, wait, here, next}
use hyprbot.Bot.Tenants.{Reach-owned}
use hyprbot.Telegram.Processor.{process_update, process_with, admits}
use hyprbot.Queue.Stream.{ensure_group}
use hyprbot.Storage.Store.{preset_with_provider}
use hyprbot.Storage.Statements.{find_preset, join_provider}
use hyprbot.Examples.Menus.{library}
use hyprbot.Examples.States.{gpt, short, stored-IsOwned}
use hyprbot.Examples.Telegram.{service, calm, private_mode}
use hyprbot.Examples.Telegram
use hyprbot.Examples.Worker.{worker}
use hyprbot.Redis.Memory.{memory}
use hyprbot.System.{World, lost}
use hyprbot.Prelude.{ok, none, text_eq, [], pos, ◌∷◌, ◌≡◌, text, refl}

abbrev bot : Bot
bot = record { library = library; service = service; processor = private_mode; worker = worker }

-- A worker starts, a stranger's update comes, and time passes.
abbrev first : World memory
first = (ensure_group calm).1

abbrev second : World memory
second = (receive bot (text "n") none none Telegram.update first).1

abbrev third : World memory
third = later bot 5 (lost ∷ []) second

third_reached : Reach bot calm third
third_reached =
    next (next (next here (start_worker calm)) (update (text "n") none none Telegram.update first))
      (wait 5 (lost ∷ []) second)

found :
    preset_with_provider (pos 5) (text "short") third.sys.db
    ≡ ok (record { preset = short; provider = gpt })
unfolding preset_with_provider find_preset join_provider receive process_update process_with admits
    ensure_group text text_eq hyprbot.System.◌>>=◌ hyprbot.System.modify hyprbot.System.call
found = refl

Reach-owned_example : (short.chat_id ≡ pos 5) × (gpt.chat_id ≡ pos 5)
Reach-owned_example =
    Reach-owned bot calm third (pos 5) (text "short") (record { preset = short; provider = gpt })
      stored-IsOwned third_reached found
