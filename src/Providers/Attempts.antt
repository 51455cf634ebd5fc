-- ===== src/Providers/Attempts.antt =====
-- `Chat` and `callOnce` of internal/providers/openai_compat/client.go and of
-- internal/providers/custom_http/client.go: one request, and the loop that repeats it. Both clients
-- write this out, with the same conditions.
use hyprbot.Prelude.{
  ltb, eqb, ◌||◌, zero, ◌∷◌, leb, ◌^◌, [], if◌then◌else◌, suc, err, failed, List, Error, ◌*◌, ok,
  Result, ℕ, Text,
}
pub mod Retries
pub mod Parsed

-- What a request comes to: it cannot be built, `Do` fails, the body cannot be read, or a status and
-- a body.
pub data Reply : Type 0 where
  unbuilt unreachable unreadable : Reply
  status : ℕ → Text → Reply

-- What `callOnce` returns: a text, an error that may be retried, or one that may not.
pub data Outcome : Type 0 where
  answered : Text → Outcome
  temporary fatal : Error → Outcome

-- `parse` reads the body.
abbrev pub parsed : Result Text → Outcome
parsed (ok t) = answered t
parsed (err e) = fatal e

-- `c.cfg.BackoffBase * (1 << attempt)`
abbrev pub backoff : ℕ → ℕ → ℕ
backoff base attempt = base * 2 ^ attempt

-- Behind a call: the last attempt, and one with attempts left, which `rest` are.
abbrev pub last_call : Outcome → Result Text × List ℕ
last_call (answered t) = (ok t, [])
last_call (temporary e) = (err e, [])
last_call (fatal e) = (err e, [])

abbrev pub decided : ℕ → Outcome → Result Text × List ℕ → Result Text × List ℕ
decided wait (answered t) rest = (ok t, [])
decided wait (fatal e) rest = (err e, [])
decided wait (temporary e) rest = (rest.0, wait ∷ rest.1)

module _ (parse : Text → Result Text) where
  unfoldable pub call_once : Reply → Outcome
  call_once unbuilt = fatal (failed "build request")
  call_once unreachable = temporary (failed "request failed")
  call_once unreadable = fatal (failed "read response body")
  call_once (status code body) =
      if leb 500 code || eqb code 429
      then temporary (failed "provider temporary status")
      else if ltb code 200 || ltb 299 code
      then fatal (failed "provider status")
      else parsed (parse body)

  module _ (base : ℕ) (reply : ℕ → Reply) where
    -- The loop of `Chat` from one attempt on, with the attempts that are left after it: the result,
    -- and the times that it waits. `reply` is what each attempt comes to.
    unfoldable pub chat_from : ℕ → ℕ → Result Text × List ℕ
    chat_from attempt zero = last_call (call_once (reply attempt))
    chat_from attempt (suc left) =
        let rest = chat_from (suc attempt) left in
        decided (backoff base attempt) (call_once (reply attempt)) rest
