-- ===== src/System/Ensures.antt =====
-- What holds of the result and of the shared state after a method, whichever calls fail.
use hyprbot.Redis.{Redis}
use hyprbot.Prelude.{List, failed, err, Error, String, ok, Result, ◌∷◌, []}
use hyprbot.System.{
  raise, lift, done, lost, unanswered, Fate, Sys, World, Exec, pure, attempt, call, ◌>>=◌, continue,
}
use hyprbot.System.Keeps.{Keeps}

pub record Ensures {R : Redis} {A : Type 0} (P : Sys R → Type 0) (m : Exec R A)
    (Q : Result A → Sys R → Type 0) : Type 0 where
  pub at : (w : World R) → P w.sys → Q (m w).0 (m w).1.sys

module _ {R : Redis} {A : Type 0} {P : Sys R → Type 0} {Q : Result A → Sys R → Type 0} where
  pub Ensures-pure : (a : A) → ((s : Sys R) → P s → Q (ok a) s) → Ensures P (pure a) Q
  unfolding pure
  Ensures-pure a k = record { at = λ w h. k w.sys h }

  pub Ensures-raise : (e : Error) → ((s : Sys R) → P s → Q (err e) s) → Ensures P (raise e) Q
  unfolding raise
  Ensures-raise e k = record { at = λ w h. k w.sys h }

  pub Ensures-lift : (r : Result A) → ((s : Sys R) → P s → Q r s) → Ensures P (lift r) Q
  unfolding lift
  Ensures-lift r k = record { at = λ w h. k w.sys h }

  pub Ensures-from :
      {P' : Sys R → Type 0} (m : Exec R A)
      → ((s : Sys R) → P s → P' s)
      → Ensures P' m Q
      → Ensures P m Q
  Ensures-from m i k = record { at = λ w h. k.at w (i w.sys h) }

  -- A call is done, or it fails and has either changed nothing or taken effect.
  pub Ensures-call :
      (f : Sys R → A × Sys R) (label : String)
      → ((s : Sys R) → P s → Q (ok (f s).0) (f s).1)
      → ((s : Sys R) → P s → Q (err (failed label)) s × Q (err (failed label)) (f s).1)
      → Ensures P (call f label) Q
  unfolding call
  Ensures-call f label k l = record { at = λ w h. go w.fates w.sys h }
    where
      go :
          (fates : List Fate) (s : Sys R)
          → P s
          → Q
              (call f label (record { sys = s; fates = fates })).0
              (call f label (record { sys = s; fates = fates })).1.sys
      go [] s h = k s h
      go (done ∷ fates) s h = k s h
      go (lost ∷ fates) s h = (l s h).0
      go (unanswered ∷ fates) s h = (l s h).1

module _ {R : Redis} {A : Type 0} {P : Sys R → Type 0} where
  -- A fact that does not depend on the state is a hypothesis.
  pub Ensures-fact :
      {F : Type 0} {Q : Result A → Sys R → Type 0} (m : Exec R A)
      → (F → Ensures P m Q)
      → Ensures (λ s. F × P s) m Q
  Ensures-fact m k = record { at = λ w h. (k h.0).at w h.1 }

  pub Ensures-attempt :
      {Q : Result (Result A) → Sys R → Type 0} (m : Exec R A)
      → Ensures P m (λ r. Q (ok r))
      → Ensures P (attempt m) Q
  unfolding attempt
  Ensures-attempt m k = record { at = λ w h. k.at w h }

  pub Ensures-of_Keeps : (m : Exec R A) → Keeps P m → Ensures P m (λ _. P)
  Ensures-of_Keeps m k = record { at = λ w h. k.at w h }

  pub Keeps-of_Ensures : (m : Exec R A) → Ensures P m (λ _. P) → Keeps P m
  Keeps-of_Ensures m k = record { at = λ w h. k.at w h }

module _ {R : Redis} {A B : Type 0} {P : Sys R → Type 0} (Mid : Result A → Sys R → Type 0) where
  pub Ensures-bind :
      {Q : Result B → Sys R → Type 0} (m : Exec R A) (f : A → Exec R B)
      → Ensures P m Mid
      → ((a : A) → Ensures (Mid (ok a)) (f a) Q)
      → ((e : Error) (s : Sys R) → Mid (err e) s → Q (err e) s)
      → Ensures P (m >>= f) Q
  unfolding ◌>>=◌
  Ensures-bind {Q} m f k l x = record { at = λ w h. let (r, w') = m w in go r w' (k.at w h) }
    where
      go : (r : Result A) (w : World R) → Mid r w.sys → Q (continue r f w).0 (continue r f w).1.sys
      go (ok a) w h = (l a).at w h
      go (err e) w h = x e w.sys h
