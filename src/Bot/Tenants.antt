-- ===== src/Bot/Tenants.antt =====
-- The presets and providers in every state that the bot of cmd/bot/main.go can reach.
use hyprbot.Bot.{Bot, receive, Step, Reach, update, round, start_worker, wait, here, next}
use hyprbot.Telegram.Admin.Tenants.{Owns, Owns_apart}
use hyprbot.Telegram.Dispatch.Tenants.{Keeps-dispatch}
use hyprbot.Telegram.Processor.{
  Processor, process_update, process_with, counted, deduplicated, after_mark, admits,
}
use hyprbot.Telegram.Context.{Context}
use hyprbot.Queue.Dedupe.{mark_first}
use hyprbot.Storage.Ownership.{IsOwned}
use hyprbot.Storage.Ownership.Joined.{preset_with_provider_owned}
use hyprbot.Storage.Store.{preset_with_provider}
use hyprbot.Storage.Tables.{PresetWithProvider}
use hyprbot.System.Apart.{IsApart, Keeps-call_redis}
use hyprbot.System.Keeps.{
  Keeps-lift, Keeps, Keeps-attempt, Keeps-bind, Keeps-pure, Keeps-if, Keeps-modify,
}
use hyprbot.System.{Exec, Sys, World}
use hyprbot.Worker.Loop.Apart.{Keeps-consume, Keeps-ensure_group}
use hyprbot.Redis.{Redis}
use hyprbot.Prelude.{none, err, Result, ok, false, some, ◌≡◌, Text, true, Option, ℤ, Bool}

module _ {R : Redis} {P : Sys R → Type 0} ⦃a : IsApart P⦄ (base : Exec R (Unit {0}))
    (k : Keeps P base) where
  Keeps-deduplicated : (o : Option ℤ) (id : ℤ) → Keeps P (deduplicated base o id)
  unfolding mark_first
  Keeps-deduplicated none id = k
  Keeps-deduplicated (some ttl) id =
      Keeps-bind _ _ (Keeps-attempt _ (Keeps-bind _ _ (Keeps-call_redis _ _) (λ r. Keeps-lift r)))
        (λ r. marked r)
    where
      marked : (r : Result Bool) → Keeps P (after_mark base r)
      marked (err e) = k
      marked (ok true) = k
      marked (ok false) = Keeps-pure tt

  Keeps-counted : (b : Bool) → Keeps P (counted base b)
  Keeps-counted true = Keeps-modify _ (λ s h. a.outside s _ _ _ _ _ h)
  Keeps-counted false = Keeps-pure tt

  -- The processor keeps what the handlers behind it keep.
  Keeps-process_update : (p : Processor) (ctx : Context) → Keeps P (process_update base p ctx)
  unfolding process_update process_with
  Keeps-process_update p ctx = Keeps-bind _ _ (Keeps-counted p.has_metrics) (λ x.
      Keeps-if (admits p ctx) _ _ (λ e. Keeps-deduplicated p.dedupe ctx.update_id)
        (λ e. Keeps-pure tt))

module _ (b : Bot) {R : Redis} where
  Step-IsOwned : {x y : World R} → Step b x y → IsOwned x.sys.db → IsOwned y.sys.db
  unfolding receive
  Step-IsOwned (update new_id r₁ r₂ ctx w) h =
      let all = Keeps-dispatch b.service new_id r₁ r₂ ctx b.library in
      (Keeps-process_update _ all b.processor ctx).at w h
  Step-IsOwned (round new_id w) h = (Keeps-consume {P = Owns} b.worker new_id).at w h
  Step-IsOwned (start_worker w) h = (Keeps-ensure_group {P = Owns}).at w h
  Step-IsOwned (wait d fates w) h = h

  Reach-IsOwned : {w x : World R} → Reach b w x → IsOwned w.sys.db → IsOwned x.sys.db
  Reach-IsOwned here h = h
  Reach-IsOwned (next r st) h = Step-IsOwned st (Reach-IsOwned r h)

  -- From a database whose presets belong with providers of their own chats, in every state that
  -- any updates, rounds of workers and failing calls lead to, the preset and the provider that a
  -- chat's job is answered with both belong to that chat.
  pub Reach-owned :
      (w x : World R) (chat_id : ℤ) (name : Text) (pp : PresetWithProvider)
      → IsOwned w.sys.db
      → Reach b w x
      → preset_with_provider chat_id name x.sys.db ≡ ok pp
      → (pp.preset.chat_id ≡ chat_id) × (pp.provider.chat_id ≡ chat_id)
  Reach-owned w x chat_id name pp h r e =
      preset_with_provider_owned chat_id name x.sys.db pp (Reach-IsOwned r h) e
