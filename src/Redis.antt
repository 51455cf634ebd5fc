-- ===== src/Redis.antt =====
-- The Redis server, which the bot calls and does not implement: an unknown state with the commands
-- that the bot sends. `Redis.Commands` holds what the commands are documented to do.
pub mod Commands
pub mod Memory
use hyprbot.Prelude.{ℕ, ◌≡◌, Bool, Option, List, Text, ap}
use hyprbot.Redis.Commands.{View, Entry}
use hyprbot.Redis.Commands

pub record Redis : Type 1 where
  pub State : Type 0
  pub view : State → View
  pub get : State → ℕ → Text → Option Text
  pub set : State → ℕ → Text → Text → ℕ → State
  pub set_nx : State → ℕ → Text → Text → Option ℕ → State × Bool
  pub del : State → Text → State
  pub incr : State → ℕ → Text → State × Option ℕ
  pub expire : State → ℕ → Text → ℕ → State
  pub xgroup_create : State → State × Bool
  pub xadd : State → Text → State × ℕ
  pub xreadgroup : State → ℕ → State × Option (List Entry)
  pub xack : State → ℕ → State
  pub xdel : State → ℕ → State

-- Each command does to what can be seen of the server what its documentation says.
pub record IsLawful (R : Redis) : Type 0 where
  pub get-view : (s : R.State) (now : ℕ) (k : Text) → R.get s now k ≡ Commands.get (R.view s) now k
  pub view-set :
      (s : R.State) (now : ℕ) (k v : Text) (ttl : ℕ)
      → R.view (R.set s now k v ttl) ≡ Commands.set (R.view s) now k v ttl
  pub view-set_nx :
      (s : R.State) (now : ℕ) (k v : Text) (ttl : Option ℕ)
      → R.view (R.set_nx s now k v ttl).0 ≡ (Commands.set_nx (R.view s) now k v ttl).0
  pub answer-set_nx :
      (s : R.State) (now : ℕ) (k v : Text) (ttl : Option ℕ)
      → (R.set_nx s now k v ttl).1 ≡ (Commands.set_nx (R.view s) now k v ttl).1
  pub view-del : (s : R.State) (k : Text) → R.view (R.del s k) ≡ Commands.del (R.view s) k
  pub view-incr :
      (s : R.State) (now : ℕ) (k : Text)
      → R.view (R.incr s now k).0 ≡ (Commands.incr (R.view s) now k).0
  pub answer-incr :
      (s : R.State) (now : ℕ) (k : Text) → (R.incr s now k).1 ≡ (Commands.incr (R.view s) now k).1
  pub view-expire :
      (s : R.State) (now : ℕ) (k : Text) (ttl : ℕ)
      → R.view (R.expire s now k ttl) ≡ Commands.expire (R.view s) now k ttl
  pub view-xgroup_create :
      (s : R.State) → R.view (R.xgroup_create s).0 ≡ (Commands.xgroup_create (R.view s)).0
  pub answer-xgroup_create :
      (s : R.State) → (R.xgroup_create s).1 ≡ (Commands.xgroup_create (R.view s)).1
  pub view-xadd : (s : R.State) (p : Text) → R.view (R.xadd s p).0 ≡ (Commands.xadd (R.view s) p).0
  pub view-xreadgroup :
      (s : R.State) (n : ℕ) → R.view (R.xreadgroup s n).0 ≡ (Commands.xreadgroup (R.view s) n).0
  pub answer-xreadgroup :
      (s : R.State) (n : ℕ) → (R.xreadgroup s n).1 ≡ (Commands.xreadgroup (R.view s) n).1
  pub view-xack : (s : R.State) (i : ℕ) → R.view (R.xack s i) ≡ Commands.xack (R.view s) i
  pub view-xdel : (s : R.State) (i : ℕ) → R.view (R.xdel s i) ≡ Commands.xdel (R.view s) i
