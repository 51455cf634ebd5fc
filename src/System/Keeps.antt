-- ===== src/System/Keeps.antt =====
-- Properties of the shared state that a method keeps, whichever calls fail: a rule for each way to
-- build a method.
use hyprbot.Prelude.{
  ◌≡◌, refl, Bool, true, false, List, [], ◌∷◌, String, Error, Result, ok, err, if◌then◌else◌,
}
use hyprbot.Redis.{Redis}
use hyprbot.System.{
  Fate, done, lost, unanswered, Sys, World, Exec, pure, raise, lift, gets, modify, attempt, call,
  ◌>>=◌, continue,
}

pub record Keeps {R : Redis} {A : Type 0} (P : Sys R → Type 0) (m : Exec R A) : Type 0 where
  pub at : (w : World R) → P w.sys → P (m w).1.sys

module _ {R : Redis} {A : Type 0} {P : Sys R → Type 0} where
  pub Keeps-pure : (a : A) → Keeps P (pure a)
  unfolding pure
  Keeps-pure a = record { at = λ w h. h }

  pub Keeps-raise : (e : Error) → Keeps P (raise {A = A} e)
  unfolding raise
  Keeps-raise e = record { at = λ w h. h }

  pub Keeps-lift : (r : Result A) → Keeps P (lift r)
  unfolding lift
  Keeps-lift r = record { at = λ w h. h }

  pub Keeps-gets : (f : Sys R → A) → Keeps P (gets f)
  unfolding gets
  Keeps-gets f = record { at = λ w h. h }

  pub Keeps-attempt : (m : Exec R A) → Keeps P m → Keeps P (attempt m)
  unfolding attempt
  Keeps-attempt m k = record { at = λ w h. k.at w h }

  -- A call keeps what its effect keeps.
  pub Keeps-call :
      (f : Sys R → A × Sys R) (label : String)
      → ((s : Sys R) → P s → P (f s).1)
      → Keeps P (call f label)
  unfolding call
  Keeps-call f label k = record { at = λ w h. go w.fates w.sys h }
    where
      go :
          (fates : List Fate) (s : Sys R)
          → P s
          → P (call f label (record { sys = s; fates = fates })).1.sys
      go [] s h = k s h
      go (done ∷ fates) s h = k s h
      go (lost ∷ fates) s h = h
      go (unanswered ∷ fates) s h = k s h

  pub Keeps-if :
      (b : Bool) (m n : Exec R A)
      → (b ≡ true → Keeps P m)
      → (b ≡ false → Keeps P n)
      → Keeps P (if b then m else n)
  Keeps-if true m n k l = k refl
  Keeps-if false m n k l = l refl

module _ {R : Redis} {P : Sys R → Type 0} where
  pub Keeps-modify : (f : Sys R → Sys R) → ((s : Sys R) → P s → P (f s)) → Keeps P (modify f)
  unfolding modify
  Keeps-modify f k = record { at = λ w h. k w.sys h }

module _ {R : Redis} {A B : Type 0} {P : Sys R → Type 0} where
  Keeps-continue :
      (r : Result A) (f : A → Exec R B)
      → ((a : A) → Keeps P (f a))
      → (w : World R) → P w.sys
      → P (continue r f w).1.sys
  Keeps-continue (ok a) f k w h = (k a).at w h
  Keeps-continue (err e) f k w h = h

  pub Keeps-bind :
      (m : Exec R A) (f : A → Exec R B) → Keeps P m → ((a : A) → Keeps P (f a)) → Keeps P (m >>= f)
  unfolding ◌>>=◌
  Keeps-bind m f k l = record {
    at = λ w h. let (r, w') = m w in Keeps-continue r f l w' (k.at w h);
  }

pub ruleset keeps_rules =
    (Keeps-pure, Keeps-raise, Keeps-lift, Keeps-gets, Keeps-attempt, Keeps-if, Keeps-bind)
