-- ===== src/Queue/RateLimiter/Stream.antt =====
-- The counters of internal/queue/ratelimit.go and the stream, which the same server holds.
use hyprbot.Queue.Delivery.{SameStream}
use hyprbot.Queue.RateLimiter.{incr_with_ttl, second}
use hyprbot.Redis.Commands
use hyprbot.Redis.Commands.{View, Cell}
use hyprbot.Strings.Decimal.{parse_uint}
use hyprbot.Redis.{IsLawful, Redis}
use hyprbot.Prelude.{refl, ◌∙◌, Option, some, none, Text, ℕ, ◌*◌, arith}

-- INCR and EXPIRE leave the stream alone.
SameStream-incr_by :
    (n : Option ℕ) (c : Cell) (v : View) (k : Text) → SameStream v (Commands.incr_by n c v k).0
SameStream-incr_by none c v k = (refl, refl, refl)
SameStream-incr_by (some n) c v k = (refl, refl, refl)

SameStream-incr_at :
    (c : Option Cell) (v : View) (k : Text) → SameStream v (Commands.incr_at c v k).0
SameStream-incr_at none v k = (refl, refl, refl)
SameStream-incr_at (some c) v k = SameStream-incr_by (parse_uint c.value) c v k

SameStream-expire_at :
    (c : Option Cell) (v : View) (now : ℕ) (k : Text) (t : ℕ)
    → SameStream v (Commands.expire_at c v now k t)
SameStream-expire_at none v now k t = (refl, refl, refl)
SameStream-expire_at (some c) v now k t = (refl, refl, refl)

pub SameStream-trans : (u v w : View) → SameStream u v → SameStream v w → SameStream u w
SameStream-trans u v w (a, b, c) (a', b', c') = (a ∙ a', b ∙ b', c ∙ c')

module _ {R : Redis} (L : IsLawful R) where
  SameStream-incr :
      (s : R.State) (now : ℕ) (k : Text) → SameStream (R.view s) (R.view (R.incr s now k).0)
  SameStream-incr s now k =
      rw (L.view-incr s now k) (SameStream-incr_at (Commands.live (R.view s) now k) (R.view s) k)

  pub SameStream-incr_with_ttl :
      (s : R.State) (now : ℕ) (k : Text) (t : ℕ)
      → SameStream (R.view s) (R.view (incr_with_ttl R s now k t).0)
  unfolding incr_with_ttl
  SameStream-incr_with_ttl s now k t = ground (
    arith,
    SameStream-incr s now k,
    L.view-expire (R.incr s now k).0 now k (t * second),
    SameStream-expire_at (Commands.live (R.view (R.incr s now k).0) now k)
        (R.view (R.incr s now k).0) now k (t * second),
  )
