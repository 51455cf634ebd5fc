-- ===== src/Providers/Attempts/Parsed.antt =====
-- Where the texts come from that the loop of the provider clients returns.
use hyprbot.Providers.Attempts.{
  Reply, Outcome, answered, temporary, fatal, unbuilt, unreachable, unreadable, status, call_once,
  last_call, decided, chat_from, parsed,
}
use hyprbot.Prelude.{zero, suc, ℕ, arith, Result, refl, List, Text, ok, err, ◌≡◌}

module _ (parse : Text → Result Text) where
  -- The text comes from a body.
  abbrev pub IsParsed : Text → Type 0
  IsParsed t = (body : Text) × (parse body ≡ ok t)

  call_once-answered : (r : Reply) (t : Text) → call_once parse r ≡ answered t → IsParsed t
  unfolding call_once
  call_once-answered unbuilt t h = absurd (ground arith)
  call_once-answered unreachable t h = absurd (ground arith)
  call_once-answered unreadable t h = absurd (ground arith)
  call_once-answered (status code body) t h = by_parse (parse body) refl (ground arith)
    where
      by_parse : (r : Result Text) → parse body ≡ r → parsed r ≡ answered t → IsParsed t
      by_parse (ok x) e k = (body, ground arith)
      by_parse (err x) e k = absurd (ground arith)

  last_call-IsParsed :
      (r : Reply) (o : Outcome) (t : Text)
      → call_once parse r ≡ o
      → (last_call o).0 ≡ ok t
      → IsParsed t
  last_call-IsParsed r (answered x) t e h = call_once-answered r t (ground arith)
  last_call-IsParsed r (temporary x) t e h = absurd (ground arith)
  last_call-IsParsed r (fatal x) t e h = absurd (ground arith)

  decided-IsParsed :
      (r : Reply) (o : Outcome) (wait : ℕ) (rest : Result Text × List ℕ) (t : Text)
      → call_once parse r ≡ o
      → (rest.0 ≡ ok t → IsParsed t)
      → (decided wait o rest).0 ≡ ok t
      → IsParsed t
  decided-IsParsed r (answered x) wait rest t e k h = call_once-answered r t (ground arith)
  decided-IsParsed r (temporary x) wait rest t e k h = k h
  decided-IsParsed r (fatal x) wait rest t e k h = absurd (ground arith)

  pub chat_from-IsParsed :
      (base : ℕ) (reply : ℕ → Reply) (attempt left : ℕ) (t : Text)
      → (chat_from parse base reply attempt left).0 ≡ ok t
      → IsParsed t
  unfolding chat_from
  chat_from-IsParsed base reply attempt zero t h = last_call-IsParsed (reply attempt) _ t refl h
  chat_from-IsParsed base reply attempt (suc left) t h =
      decided-IsParsed (reply attempt) _ _ _ t refl
        (chat_from-IsParsed base reply (suc attempt) left t) h
