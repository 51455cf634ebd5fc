-- ===== src/Queue/RateLimiter/Window.antt =====
-- Calls of `Allow` of internal/queue/ratelimit.go within an hour.
use hyprbot.Prelude.{
  inl, inr, ◌⊎◌, sym, beq_ne, ◌%◌, ◌≢◌, ◌++◌, text, ℕ, suc, ◌+◌, ◌-◌, ◌*◌, ◌/◌, ◌≤◌, ◌<◌, ◌≡◌, refl,
  ◌∙◌, ap, true, Option, none, some, List, [], ◌∷◌, Text, ℤ, text_has_eq, leb, ltb, ok, arith, All,
  beq_self,
}
use hyprbot.Strings.Decimal.{format_int, format_uint, parse_uint-format_uint}
use hyprbot.Queue.RateLimiter.Keys.{key_injective}
use hyprbot.Redis.{Redis, IsLawful}
use hyprbot.Redis.Commands
use hyprbot.Redis.Commands.{Cell}
use hyprbot.Queue.RateLimiter.{
  hour, window_end, Verdict, ttl, allow, key, second, incr_with_ttl, verdict,
}
use hyprbot.System.{call, ◌>>=◌, World, pure, raise, Sys, Exec}
use hyprbot.System.Keeps.{Keeps-pure, Keeps-raise, Keeps-call, Keeps-bind, Keeps}

-- The counter `k` stands at `n` until the deadline `d`.
abbrev pub Counts : Commands.View → Text → ℕ → ℕ → Type 0
Counts v k n d = v.cells k ≡ some (record { value = format_uint n; deadline = some d })

module _ (R : Redis) (L : IsLawful R) (s : R.State) (now : ℕ) (k : Text) (t : ℕ) where
  first_hit :
      Commands.live (R.view s) now k ≡ none
      → ((incr_with_ttl R s now k t).1 ≡ some 1)
        × ((ltb 0 t ≡ true) → Counts (R.view (incr_with_ttl R s now k t).0) k 1 (now + t * second))
  unfolding incr_with_ttl
  first_hit h = ground (
    arith,
    L.answer-incr s now k,
    L.view-incr s now k,
    L.view-expire (R.incr s now k).0 now k (t * second),
    beq_self k,
  )

  next_hit :
      (n d : ℕ)
      → Counts (R.view s) k (suc n) d
      → now < d
      → ((incr_with_ttl R s now k t).1 ≡ some (suc (suc n)))
        × Counts (R.view (incr_with_ttl R s now k t).0) k (suc (suc n)) d
  unfolding incr_with_ttl
  next_hit n d h lt = ground (
    arith,
    L.answer-incr s now k,
    L.view-incr s now k,
    beq_self k,
    parse_uint-format_uint (suc n),
  )

  -- Another key's cell stays.
  other_hit :
      (j : Text) → k ≢ j → (R.view (incr_with_ttl R s now k t).0).cells j ≡ (R.view s).cells j
  unfolding incr_with_ttl
  other_hit j h = ground (
    arith,
    L.view-incr s now k,
    L.view-expire (R.incr s now k).0 now k (t * second),
    beq_ne j k (λ e. h (sym e)),
  )

pub ttl_pos : (now : ℕ) → ltb 0 (ttl now) ≡ true
unfolding ttl
ttl_pos now = ground arith

module _ (hour_label : ℕ → Text) (R : Redis) (L : IsLawful R) (limit : ℕ)
    (chat_id user_id : ℤ) where
  -- A chat's user calls at these times, one after the other.
  unfoldable pub allow_times : List ℕ → Exec R (List Verdict)
  allow_times [] = pure []
  allow_times (t ∷ ts) =
      allow hour_label R limit chat_id user_id t >>= λ v. allow_times ts >>= λ vs. pure (v ∷ vs)

  -- The verdicts of calls that come after `n` others: the k-th call of the window is allowed
  -- exactly while k ≤ limit.
  unfoldable pub numbered : ℕ → List ℕ → List Verdict
  numbered n [] = []
  numbered n (t ∷ ts) =
      record { allowed = leb (suc n) limit; used = suc n; reset_at = window_end t }
      ∷ numbered (suc n) ts

  abbrev pub K : ℕ → Text
  K now = key hour_label chat_id user_id now

  abbrev pub at : Sys R → World R
  at s = record { sys = s; fates = [] }

  -- The state of the server after one call.
  abbrev pub hit : Sys R → ℕ → Sys R
  hit s t = record s { redis = (incr_with_ttl R s.redis t (K t) (ttl t)).0 }

  allow_lem :
      (s : Sys R) (t n : ℕ)
      → (incr_with_ttl R s.redis t (K t) (ttl t)).1 ≡ some n
      → allow hour_label R limit chat_id user_id t (at s)
        ≡ (ok (record { allowed = leb n limit; used = n; reset_at = window_end t }), at (hit s t))
  unfolding allow call ◌>>=◌
  allow_lem s t n h = ground arith

  same_key : (t t₀ : ℕ) → t / hour ≡ t₀ / hour → K t ≡ K t₀
  unfolding key
  same_key t t₀ e =
      ap
        (λ label.
          text "hyprbot:ratelimit:"
          ++ (format_int chat_id ++ b':' ∷ (format_int user_id ++ b':' ∷ hour_label label)))
        e

  allow_times_later :
      (ts : List ℕ) (s : Sys R) (t₀ n d : ℕ)
      → Counts (R.view s.redis) (K t₀) (suc n) d
      → All (λ t. (t / hour ≡ t₀ / hour) × (t < d)) ts
      → (allow_times ts (at s)).0 ≡ ok (numbered (suc n) ts)
  unfolding allow_times numbered ◌>>=◌
  allow_times_later [] s t₀ n d c h = refl
  allow_times_later (t ∷ ts) s t₀ n d c ((e, lt), h) =
      let (answer, counts) = next_hit R L s.redis t (K t) (ttl t) n d (rw (same_key t t₀ e) c) lt in
      let rest = allow_times_later ts (hit s t) t₀ (suc n) d (rw (← same_key t t₀ e) counts) h in
      ground (arith, allow_lem s t (suc (suc n)) answer, rest)

  -- The first call of an hour, and the calls that follow it in that hour before the counter's
  -- deadline, are numbered from 1, and the k-th is allowed exactly if k is at most the limit,
  -- where the counter was not there and no call to Redis fails.
  pub allow_times-eq-numbered :
      (ts : List ℕ) (s : Sys R) (t₀ : ℕ)
      → Commands.live (R.view s.redis) t₀ (K t₀) ≡ none
      → All (λ t. (t / hour ≡ t₀ / hour) × (t < t₀ + ttl t₀ * second)) ts
      → (allow_times (t₀ ∷ ts) (at s)).0 ≡ ok (numbered 0 (t₀ ∷ ts))
  unfolding allow_times numbered ◌>>=◌
  allow_times-eq-numbered ts s t₀ fresh h =
      let (answer, counts) = first_hit R L s.redis t₀ (K t₀) (ttl t₀) fresh in
      let rest =
        allow_times_later ts (hit s t₀) t₀ 0 (t₀ + ttl t₀ * second) (counts (ttl_pos t₀)) h in
      ground (arith, allow_lem s t₀ 1 answer, rest)

  Keeps-allow_other :
      (limit' : ℕ) (chat_id' user_id' : ℤ) (t : ℕ) (j : Text) (c : Option Cell)
      → key hour_label chat_id' user_id' t ≢ j
      → Keeps
          (λ (s : Sys R). (R.view s.redis).cells j ≡ c)
          (allow hour_label R limit' chat_id' user_id' t)
  unfolding allow
  Keeps-allow_other limit' chat_id' user_id' t j c h =
      Keeps-bind _ _
        (Keeps-call _ _
          λ s e. other_hit R L s.redis t (key hour_label chat_id' user_id' t) (ttl t) j h ∙ e)
        (elim [ none ↦ Keeps-raise _ | some n ↦ Keeps-pure _ ])

  -- Another chat, another user, or an hour with another label.
  abbrev pub IsOther : ℤ → ℤ → ℕ → ℕ → Type 0
  IsOther chat_id' user_id' t t₀ =
      (chat_id' ≢ chat_id) ⊎ (user_id' ≢ user_id) ⊎ (hour_label (t / hour) ≢ hour_label (t₀ / hour))

  other_key :
      (chat_id' user_id' : ℤ) (t t₀ : ℕ)
      → IsOther chat_id' user_id' t t₀
      → key hour_label chat_id' user_id' t ≢ K t₀
  other_key chat_id' user_id' t t₀ other e =
      let (c, u, l) = key_injective hour_label chat_id' chat_id user_id' user_id t t₀ e in
      elim other [ inl n ↦ n c | inr (inl n) ↦ n u | inr (inr n) ↦ n l ]

  -- The answer to the script depends on the counter only.
  same_answer :
      (s s' : R.State) (t : ℕ)
      → (R.view s').cells (K t) ≡ (R.view s).cells (K t)
      → (incr_with_ttl R s' t (K t) (ttl t)).1 ≡ (incr_with_ttl R s t (K t) (ttl t)).1
  unfolding incr_with_ttl
  same_answer s s' t h = ground (arith, L.answer-incr s t (K t), L.answer-incr s' t (K t))

  -- The verdict does not read the rest of the world.
  verdict_any :
      (t : ℕ) (o : Option ℕ) (w w' : World R)
      → (verdict hour_label R limit t o w).0 ≡ (verdict hour_label R limit t o w').0
  unfolding pure raise
  verdict_any t none w w' = refl
  verdict_any t (some n) w w' = refl

  same_verdict :
      (s s' : Sys R) (t : ℕ)
      → (incr_with_ttl R s'.redis t (K t) (ttl t)).1 ≡ (incr_with_ttl R s.redis t (K t) (ttl t)).1
      → (allow hour_label R limit chat_id user_id t (at s')).0
        ≡ (allow hour_label R limit chat_id user_id t (at s)).0
  unfolding allow call ◌>>=◌
  same_verdict s s' t h = rw h (verdict_any t _ _ _)

  -- A call of the rate limiter for another chat, another user or an hour with another label,
  -- whether it fails or not, leaves the counter of a chat's user as it is, so that the next call
  -- of that user comes to the verdict that it had come to before, where no call fails.
  pub allow-other :
      (limit' : ℕ) (chat_id' user_id' : ℤ) (t t₀ : ℕ) (w : World R)
      → IsOther chat_id' user_id' t t₀
      → let s' = (allow hour_label R limit' chat_id' user_id' t w).1.sys in
        ((R.view s'.redis).cells (K t₀) ≡ (R.view w.sys.redis).cells (K t₀))
        × ((allow hour_label R limit chat_id user_id t₀ (at s')).0
            ≡ (allow hour_label R limit chat_id user_id t₀ (at w.sys)).0)
  allow-other limit' chat_id' user_id' t t₀ w other =
      let same =
        (Keeps-allow_other limit' chat_id' user_id' t (K t₀) ((R.view w.sys.redis).cells (K t₀))
            (other_key chat_id' user_id' t t₀ other)).at
          w refl in
      (same, same_verdict w.sys _ t₀ (same_answer w.sys.redis _ t₀ same))

  ttl_short :
      (t₀ : ℕ)
      → 0 < t₀ % second
      → t₀ + second ≤ window_end t₀
      → t₀ + ttl t₀ * second < window_end t₀
  unfolding ttl
  ttl_short t₀ h k = ground arith

  expired_cell :
      (s : Sys R) (t₀ n t : ℕ)
      → Counts (R.view s.redis) (K t₀) n (t₀ + ttl t₀ * second)
      → t₀ + ttl t₀ * second ≤ t
      → Commands.live (R.view s.redis) t (K t₀) ≡ none
  expired_cell s t₀ n t c h = ground arith

  -- If the first call of an hour does not fall on a whole second, and comes at least a second
  -- before the hour ends, the counter is gone before the hour is over: at the hour's last
  -- instant a call is counted as the first again, however many were counted before.
  pub early_reset :
      (s : Sys R) (t₀ n : ℕ)
      → 0 < t₀ % second
      → t₀ + second ≤ window_end t₀
      → Counts (R.view s.redis) (K t₀) n (t₀ + ttl t₀ * second)
      → let t = window_end t₀ - 1 in
        (t / hour ≡ t₀ / hour)
        × ((allow hour_label R limit chat_id user_id t (at s)).0
            ≡ ok (record { allowed = leb 1 limit; used = 1; reset_at = window_end t₀ }))
  early_reset s t₀ n h k c =
      let t = window_end t₀ - 1 in
      let same : t / hour ≡ t₀ / hour = omega arith in
      let (answer, _) =
        first_hit R L s.redis t (K t) (ttl t)
          (rw (same_key t t₀ same) (expired_cell s t₀ n t c (ground (arith, ttl_short t₀ h k)))) in
      (same, ground (arith, allow_lem s t 1 answer))
