-- ===== src/Bot.antt =====
-- The whole bot, as cmd/bot/main.go puts it together: updates pass the processor of
-- internal/telegram/processor.go and reach the handlers, and workers take jobs from the stream. One
-- step is one update, one round of a worker's slot, the start of a worker, or time that passes; the
-- calls within a step fail by the world's schedule.
pub mod Tenants
use hyprbot.Telegram.Dispatch.{Library, dispatch}
use hyprbot.Telegram.Context.{Context}
use hyprbot.Telegram.Processor.{Processor, process_update}
use hyprbot.Telegram.Service.{Service}
use hyprbot.Queue.Stream.{ensure_group}
use hyprbot.Worker.{Worker}
use hyprbot.Worker.Loop.{consume}
use hyprbot.System.{Exec, Sys, World, Fate}
use hyprbot.Redis.{Redis}
use hyprbot.Prelude.{◌+◌, List, Option, ℕ, Text}

pub record Bot : Type 0 where
  pub library : Library
  pub service : Service
  pub processor : Processor
  pub worker : Worker

module _ (b : Bot) {R : Redis} where
  -- An update on its way through the processor and the dispatcher.
  unfoldable pub receive : Text → Option (List ℕ) → Option (List ℕ) → Context → Exec R (Unit {0})
  receive new_id r₁ r₂ ctx =
      process_update (dispatch b.service new_id r₁ r₂ ctx b.library) b.processor ctx

  -- Later, with another schedule of failures.
  abbrev pub later : ℕ → List Fate → World R → World R
  later d fates w = record w { sys = record w.sys { clock = w.sys.clock + d }; fates = fates }

  pub data Step : World R → World R → Type 0 where
    update :
        (new_id : Text) (r₁ r₂ : Option (List ℕ)) (ctx : Context) (w : World R)
        → Step w (receive new_id r₁ r₂ ctx w).1
    round : (new_id : Text) (w : World R) → Step w (consume b.worker new_id w).1
    start_worker : (w : World R) → Step w (ensure_group w).1
    wait : (d : ℕ) (fates : List Fate) (w : World R) → Step w (later d fates w)

  -- The states that can be reached from one.
  pub data Reach (w : World R) : World R → Type 0 where
    here : Reach w w
    next : {x y : World R} → Reach w x → Step x y → Reach w y
