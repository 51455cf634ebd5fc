-- ===== src/Worker/Replies.antt =====
-- `replyText` of `processJob` in internal/worker/worker.go: the text that Telegram is given.
use hyprbot.Worker.{reply_text}
use hyprbot.Prelude.{
  inr, [], inl, Bool-cases, zero, ◌∷◌, ltb, suc, is_empty, if◌then◌else◌, arith, length, ◌≤◌, Text,
  ℕ, take, text,
}
use hyprbot.Strings.{trim_space}

length-take : (n : ℕ) (t : Text) → (length (take n t) ≤ n) × (length (take n t) ≤ length t)
unfolding take
length-take zero t = (omega arith, omega arith)
length-take (suc n) [] = (omega arith, omega arith)
length-take (suc n) (c ∷ t) = let (a, b) = length-take n t in (omega arith, omega arith)

take-inhabited : (n : ℕ) (t : Text) → 1 ≤ n → 1 ≤ length t → 1 ≤ length (take n t)
unfolding take
take-inhabited zero t h k = omega arith
take-inhabited (suc n) [] h k = omega arith
take-inhabited (suc n) (c ∷ t) h k = omega arith

-- Whatever the provider answers, the text of the reply is not empty and has at most 4000 code
-- points.
pub reply_text-length :
    (answer : Text) → (1 ≤ length (reply_text answer)) × (length (reply_text answer) ≤ 4000)
unfolding reply_text text
reply_text-length answer = go (trim_space answer) (length-take 4000 (trim_space answer))
  where
    go :
        (t : Text)
        → (length (take 4000 t) ≤ 4000) × (length (take 4000 t) ≤ length t)
        → let r =
            if is_empty t
            then text "Provider returned an empty response."
            else if ltb 4000 (length t)
            then take 4000 t
            else t in
          (1 ≤ length r) × (length r ≤ 4000)
    go [] h = (omega arith, omega arith)
    go (c ∷ t) h = elim (Bool-cases (ltb 4000 (length (c ∷ t)))) [
      | inl e ↦ rw e (take-inhabited 4000 (c ∷ t) (omega arith) (omega arith), h.0)
      | inr e ↦ rw e (omega arith, ground arith)
    ]
