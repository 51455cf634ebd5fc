-- ===== src/Telegram/Processor/Laws.antt =====
-- `ProcessUpdate` of internal/telegram/processor.go in private mode, and on marked and unmarked
-- updates.
use hyprbot.Redis.Commands
use hyprbot.Redis.Commands.{Cell, deadline_of}
use hyprbot.Telegram.Processor.{
  process_with, is_user, Processor, admits, process_update, count_update, after_mark,
}
use hyprbot.Queue.Dedupe.{mark_first, mark_with, set_mark, expiry, update_key}
use hyprbot.System.{
  unanswered, lift, pure, lost, call, attempt, done, Fate, World, modify, Sys, Exec, ◌>>=◌,
}
use hyprbot.Redis.{IsLawful, Redis}
use hyprbot.Prelude.{
  eqb, if◌then◌else◌, pos, err, failed, Result, text_has_eq, beq_self, ◌∙◌, none, refl, int_eq_iff,
  text, int_eq_iff, ℤ, Option, arith, ◌∷◌, ok, List, ◌≢◌, false, true, is_positive, some, ◌≡◌, ℕ,
  Bool,
}
use hyprbot.Telegram.Context.{Context}

abbrev pub count_if : {R : Redis} → Bool → Sys R → Sys R
count_if true s = count_update s
count_if false s = s

not_user : (o : Option ℤ) (id : ℤ) → o ≢ some id → is_user o id ≡ false
unfolding is_user
not_user none id h = refl
not_user (some u) id h = ground (arith, int_eq_iff u id)

admits_other :
    (p : Processor) (ctx : Context)
    → is_positive p.allowed_user_id ≡ true
    → ctx.effective_user ≢ some p.allowed_user_id
    → admits p ctx ≡ false
unfolding admits
admits_other p ctx h n = rw h (not_user ctx.effective_user p.allowed_user_id n)

module _ {R : Redis} (base : Exec R (Unit {0})) where
  process_with_refused :
      (b : Bool) (dedupe : Option ℤ) (id : ℤ) (w : World R)
      → process_with base b false dedupe id w ≡ (ok tt, record w { sys = count_if b w.sys })
  unfolding process_with ◌>>=◌ modify
  process_with_refused true dedupe id w = refl
  process_with_refused false dedupe id w = refl

  -- The answer to the call that marks an update, and the server after it.
  abbrev pub marked : Result (Option ℕ) → ℤ → Sys R → Result Bool × R.State
  marked ttl id s = set_mark ttl id s

  -- What the call that marks comes to, and the server after it, by what becomes of the call.
  abbrev pub outcome : Fate → Result (Option ℕ) → ℤ → Sys R → Result Bool × R.State
  outcome done ttl id s = marked ttl id s
  outcome lost ttl id s = (err (failed "dedupe setnx"), s.redis)
  outcome unanswered ttl id s = (err (failed "dedupe setnx"), (marked ttl id s).1)

  mark_with-fate :
      (ttl : Result (Option ℕ)) (id : ℤ) (x : Fate) (s : Sys R) (fates : List Fate)
      → mark_with ttl id (record { sys = s; fates = x ∷ fates }) ≡ (
        (outcome x ttl id s).0,
        record { sys = record s { redis = (outcome x ttl id s).1 }; fates = fates },
      )
  unfolding ◌>>=◌ call lift
  mark_with-fate (err e) id done s fates = refl
  mark_with-fate (ok o) id done s fates = refl
  mark_with-fate ttl id lost s fates = refl
  mark_with-fate ttl id unanswered s fates = refl

  outcome_counted :
      (ttl : Result (Option ℕ)) (id : ℤ) (x : Fate) (s : Sys R)
      → outcome x ttl id (count_update s) ≡ outcome x ttl id s
  outcome_counted (err e) id done s = refl
  outcome_counted (ok o) id done s = refl
  outcome_counted ttl id lost s = refl
  outcome_counted (err e) id unanswered s = refl
  outcome_counted (ok o) id unanswered s = refl

  process_with_marked :
      (b : Bool) (ttl id : ℤ) (x : Fate) (s : Sys R) (fates : List Fate)
      → process_with base b true (some ttl) id (record { sys = s; fates = x ∷ fates })
        ≡ after_mark base (outcome x (expiry ttl) id s).0 (record {
          sys = record (count_if b s) { redis = (outcome x (expiry ttl) id s).1 };
          fates = fates;
        })
  unfolding process_with ◌>>=◌ modify attempt mark_first
  process_with_marked true ttl id x s fates =
      rw
        (
          mark_with-fate (expiry ttl) id x (count_update s) fates,
          outcome_counted (expiry ttl) id x s,
        )
        refl
  process_with_marked false ttl id x s fates = rw (mark_with-fate (expiry ttl) id x s fates) refl

  module _ (p : Processor) (ctx : Context) where
    process_update-eq :
        (admitted : Bool) (dedupe : Option ℤ)
        → admits p ctx ≡ admitted
        → p.dedupe ≡ dedupe
        → process_update base p ctx ≡ process_with base p.has_metrics admitted dedupe ctx.update_id
    unfolding process_update
    process_update-eq admitted dedupe e f =
        λ i. process_with base p.has_metrics (e i) (f i) ctx.update_id

    -- In private mode an update of another user, or of no user, reaches no handler and touches
    -- neither Redis nor the database: only the metric counts it.
    pub process_update_refused :
        (w : World R)
        → is_positive p.allowed_user_id ≡ true
        → ctx.effective_user ≢ some p.allowed_user_id
        → process_update base p ctx w ≡ (ok tt, record w { sys = count_if p.has_metrics w.sys })
    process_update_refused w h n =
        rw (process_update-eq false p.dedupe (admits_other p ctx h n) refl)
          (process_with_refused p.has_metrics p.dedupe ctx.update_id w)

    module _ (L : IsLawful R) (let_in : admits p ctx ≡ true) where
      set_nx_again :
          (o : Option ℕ) (s : Sys R) (c : Cell)
          → Commands.live (R.view s.redis) s.clock (update_key ctx.update_id) ≡ some c
          → ((R.set_nx s.redis s.clock (update_key ctx.update_id) (text "1") o).1 ≡ false)
            × (R.view (R.set_nx s.redis s.clock (update_key ctx.update_id) (text "1") o).0
                ≡ R.view s.redis)
      set_nx_again o s c h = ground (
        arith,
        L.view-set_nx s.redis s.clock (update_key ctx.update_id) (text "1") o,
        L.answer-set_nx s.redis s.clock (update_key ctx.update_id) (text "1") o,
      )

      set_nx_first :
          (o : Option ℕ) (s : Sys R)
          → Commands.live (R.view s.redis) s.clock (update_key ctx.update_id) ≡ none
          → ((R.set_nx s.redis s.clock (update_key ctx.update_id) (text "1") o).1 ≡ true)
            × ((R.view (R.set_nx s.redis s.clock (update_key ctx.update_id) (text "1") o).0).cells
                  (update_key ctx.update_id)
                ≡ some (record { value = text "1"; deadline = deadline_of s.clock o }))
      set_nx_first o s h = ground (
        arith,
        L.view-set_nx s.redis s.clock (update_key ctx.update_id) (text "1") o,
        L.answer-set_nx s.redis s.clock (update_key ctx.update_id) (text "1") o,
        beq_self (update_key ctx.update_id),
      )

      -- An admitted update that is marked, and whose mark has not expired, is dropped where
      -- Redis answers and the time to live is not negative: no handler runs, and nothing that
      -- can be seen of the server changes.
      pub process_update_again :
          (ttl : ℕ) (s : Sys R) (fates : List Fate) (c : Cell)
          → p.dedupe ≡ some (pos ttl)
          → Commands.live (R.view s.redis) s.clock (update_key ctx.update_id) ≡ some c
          → (redis : R.State) × (process_update base p ctx
                (record { sys = s; fates = done ∷ fates })
              ≡ (
                ok tt,
                record { sys = record (count_if p.has_metrics s) { redis = redis }; fates = fates },
              ))
            × (R.view redis ≡ R.view s.redis)
      unfolding pure expiry
      process_update_again ttl s fates c d h =
          let (answer, same) = set_nx_again (if eqb ttl 0 then none else some ttl) s c h in
          (
            _,
            rw (process_update-eq true (some (pos ttl)) let_in d) (
                process_with_marked p.has_metrics (pos ttl) ctx.update_id done s fates ∙ rw answer),
            same,
          )

      -- The server after the call that marks the update, by what becomes of the call and by the expiry.
      abbrev pub MarkedAs : Result (Option ℕ) → Fate → Sys R → R.State → Type 0
      MarkedAs (err e) x s redis = R.view redis ≡ R.view s.redis
      MarkedAs (ok o) lost s redis = R.view redis ≡ R.view s.redis
      MarkedAs (ok o) done s redis =
          (R.view redis).cells (update_key ctx.update_id)
          ≡ some (record { value = text "1"; deadline = deadline_of s.clock o })
      MarkedAs (ok o) unanswered s redis =
          (R.view redis).cells (update_key ctx.update_id)
          ≡ some (record { value = text "1"; deadline = deadline_of s.clock o })

      after_mark_fresh :
          (r : Result (Option ℕ)) (x : Fate) (s : Sys R)
          → Commands.live (R.view s.redis) s.clock (update_key ctx.update_id) ≡ none
          → (after_mark base (outcome x r ctx.update_id s).0 ≡ base)
            × MarkedAs r x s (outcome x r ctx.update_id s).1
      after_mark_fresh (err e) done s h = (refl, refl)
      after_mark_fresh (err e) lost s h = (refl, refl)
      after_mark_fresh (err e) unanswered s h = (refl, refl)
      after_mark_fresh (ok o) lost s h = (refl, refl)
      after_mark_fresh (ok o) done s h =
          let (answer, cell) = set_nx_first o s h in (rw answer refl, cell)
      after_mark_fresh (ok o) unanswered s h = (refl, (set_nx_first o s h).1)

      -- An admitted update that is not marked is processed, whatever becomes of the call that
      -- marks it. The mark is set, with the deadline that the time to live gives or without one
      -- if that is 0 or -1, where the call is done or only its answer is lost; nothing that can
      -- be seen of the server changes where the call is lost, or where Redis refuses a time to
      -- live that is negative otherwise.
      pub process_update_fresh :
          (ttl : ℤ) (s : Sys R) (x : Fate) (fates : List Fate)
          → p.dedupe ≡ some ttl
          → Commands.live (R.view s.redis) s.clock (update_key ctx.update_id) ≡ none
          → (redis : R.State) × (process_update base p ctx (record { sys = s; fates = x ∷ fates })
              ≡ base (record {
                sys = record (count_if p.has_metrics s) { redis = redis };
                fates = fates;
              }))
            × MarkedAs (expiry ttl) x s redis
      process_update_fresh ttl s x fates d h =
          let (runs, marks) = after_mark_fresh (expiry ttl) x s h in
          (
            (outcome x (expiry ttl) ctx.update_id s).1,
            rw (process_update-eq true (some ttl) let_in d)
                (process_with_marked p.has_metrics ttl ctx.update_id x s fates ∙ rw runs refl),
            marks,
          )
