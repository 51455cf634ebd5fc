-- ===== src/Providers/Attempts/Retries.antt =====
-- The loop of `Chat` in both provider clients: its result and its waits.
use hyprbot.Providers.Attempts.{
  Reply, Outcome, answered, temporary, fatal, call_once, backoff, last_call, decided, chat_from,
}
use hyprbot.Prelude.{
  err, refl, subst, ap, arith, ok, ◌^◌, ◌*◌, ◌≤◌, zero, length, suc, ◌∷◌, ◌+◌, [], Result, ◌≡◌, ℕ,
  Text, Error, List,
}

abbrev pub IsTemporary : Outcome → Type 0
IsTemporary o = (e : Error) × (o ≡ temporary e)

abbrev pub sum : List ℕ → ℕ
sum [] = 0
sum (x ∷ xs) = x + sum xs

double : (base a : ℕ) → base * 2 ^ suc a ≡ base * 2 ^ a + base * 2 ^ a
double base a = grind arith

last_call-length : (o : Outcome) → length (last_call o).1 ≤ 0
last_call-length (answered t) = omega arith
last_call-length (temporary e) = omega arith
last_call-length (fatal e) = omega arith

decided-length :
    (wait n : ℕ) (o : Outcome) (rest : Result Text × List ℕ)
    → length rest.1 ≤ n
    → length (decided wait o rest).1 ≤ suc n
decided-length wait n (answered t) rest h = omega arith
decided-length wait n (temporary e) rest h = omega arith
decided-length wait n (fatal e) rest h = omega arith

module _ (parse : Text → Result Text) (base : ℕ) (reply : ℕ → Reply) where
  -- These attempts, from one on, come to errors that may be retried.
  abbrev pub AllTemporary : ℕ → ℕ → Type 0
  AllTemporary a zero = Unit
  AllTemporary a (suc k) = IsTemporary (call_once parse (reply a)) × AllTemporary (suc a) k

  -- The waits between these attempts.
  abbrev pub waits : ℕ → ℕ → List ℕ
  waits a zero = []
  waits a (suc k) = backoff base a ∷ waits (suc a) k

  at_attempt :
      (m n : ℕ) (t : Text)
      → m ≡ n
      → call_once parse (reply m) ≡ answered t
      → call_once parse (reply n) ≡ answered t
  at_attempt m n t same e = subst (λ i. call_once parse (reply i) ≡ answered t) same e

  succeeds_from :
      (a k left : ℕ) (t : Text)
      → AllTemporary a k
      → call_once parse (reply (a + k)) ≡ answered t
      → k ≤ left
      → chat_from parse base reply a left ≡ (ok t, waits a k)
  unfolding chat_from
  succeeds_from a zero zero t h e le = rw (at_attempt (a + 0) a t (omega arith) e) refl
  succeeds_from a zero (suc left) t h e le = rw (at_attempt (a + 0) a t (omega arith) e) refl
  succeeds_from a (suc k) zero t h e le = absurd (omega arith)
  succeeds_from a (suc k) (suc left) t ((x, same), h) e le =
      let rest =
        succeeds_from (suc a) k left t h (at_attempt (a + suc k) (suc a + k) t (omega arith) e)
          (omega arith) in
      rw (same, rest) refl

  sum-waits : (a k : ℕ) → sum (waits a k) + base * 2 ^ a ≡ base * 2 ^ (a + k)
  sum-waits a zero = ground arith
  sum-waits a (suc k) =
      let rest = sum-waits (suc a) k in
      let same : base * 2 ^ (suc a + k) ≡ base * 2 ^ (a + suc k) =
        ap (λ n. base * 2 ^ n) (omega arith) in
      omega (arith, double base a, rest, same)

  length-waits : (a k : ℕ) → length (waits a k) ≡ k
  length-waits a zero = refl
  length-waits a (suc k) = omega (arith, length-waits (suc a) k)

  exhausts_from :
      (a left : ℕ)
      → AllTemporary a (suc left)
      → (e : Error) × (chat_from parse base reply a left ≡ (err e, waits a left))
  unfolding chat_from
  exhausts_from a zero ((e, same), h) = (e, rw same refl)
  exhausts_from a (suc left) ((x, same), h) =
      let (e, rest) = exhausts_from (suc a) left h in (e, rw (same, rest) refl)

  waits_bounded : (a left : ℕ) → length (chat_from parse base reply a left).1 ≤ left
  unfolding chat_from
  waits_bounded a zero = last_call-length (call_once parse (reply a))
  waits_bounded a (suc left) = decided-length _ left _ _ (waits_bounded (suc a) left)

  -- If the first k attempts of a request come to errors that may be retried, the next one is
  -- answered, and k is at most the number of retries, then the client returns that answer after
  -- exactly k waits, whose sum is the base times 2^k - 1.
  pub chat_from-succeeds :
      (k max : ℕ) (t : Text)
      → AllTemporary 0 k
      → call_once parse (reply k) ≡ answered t
      → k ≤ max
      → let (r, ws) = chat_from parse base reply 0 max in
        (r ≡ ok t) × (length ws ≡ k) × (sum ws + base ≡ base * 2 ^ k)
  chat_from-succeeds k max t h e le =
      let same : base * 2 ^ (0 + k) ≡ base * 2 ^ k = ap (λ n. base * 2 ^ n) (omega arith) in
      rw (succeeds_from 0 k max t h (at_attempt k (0 + k) t (omega arith) e) le)
        (refl, length-waits 0 k, omega (arith, sum-waits 0 k, same))

  -- Whatever the requests come to, the client waits at most as often as the number of retries.
  pub chat_from-length : (max : ℕ) → length (chat_from parse base reply 0 max).1 ≤ max
  chat_from-length max = waits_bounded 0 max

  -- If every attempt that the number of retries allows comes to an error that may be retried,
  -- the client returns an error after that number of waits.
  pub chat_from-exhausts :
      (max : ℕ)
      → AllTemporary 0 (suc max)
      → let (r, ws) = chat_from parse base reply 0 max in
        ((e : Error) × (r ≡ err e)) × (length ws ≡ max)
  chat_from-exhausts max h =
      let (e, same) = exhausts_from 0 max h in rw same ((e, refl), length-waits 0 max)
