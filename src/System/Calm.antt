-- ===== src/System/Calm.antt =====
-- Methods run where no call fails: what holds of the result and of the shared state afterwards, with
-- no failure left to come.
use hyprbot.Redis.{Redis}
use hyprbot.System.{Sys, World, Exec, pure, raise, lift, modify, attempt, call, ◌>>=◌, continue}
use hyprbot.System.Keeps.{Keeps}
use hyprbot.Prelude.{
  ◌≡◌, refl, Bool, true, false, [], String, Error, Result, ok, err, if◌then◌else◌,
}

-- The world in which no call fails.
abbrev pub calm_world : {R : Redis} → Sys R → World R
calm_world s = record { sys = s; fates = [] }

pub record Runs {R : Redis} {A : Type 0} (P : Sys R → Type 0) (m : Exec R A)
    (Q : Result A → Sys R → Type 0) : Type 0 where
  pub calm : (s : Sys R) → P s → (m (calm_world s)).1.fates ≡ []
  pub at : (s : Sys R) → P s → Q (m (calm_world s)).0 (m (calm_world s)).1.sys

module _ {R : Redis} {A : Type 0} {P : Sys R → Type 0} {Q : Result A → Sys R → Type 0} where
  pub Runs-pure : (a : A) → ((s : Sys R) → P s → Q (ok a) s) → Runs P (pure a) Q
  unfolding pure
  Runs-pure a k = record { calm = λ s h. refl; at = k }

  pub Runs-raise : (e : Error) → ((s : Sys R) → P s → Q (err e) s) → Runs P (raise e) Q
  unfolding raise
  Runs-raise e k = record { calm = λ s h. refl; at = k }

  pub Runs-lift : (r : Result A) → ((s : Sys R) → P s → Q r s) → Runs P (lift r) Q
  unfolding lift
  Runs-lift r k = record { calm = λ s h. refl; at = k }

  pub Runs-call :
      (f : Sys R → A × Sys R) (label : String)
      → ((s : Sys R) → P s → Q (ok (f s).0) (f s).1)
      → Runs P (call f label) Q
  unfolding call
  Runs-call f label k = record { calm = λ s h. refl; at = k }

  pub Runs-if :
      (b : Bool) (m n : Exec R A)
      → (b ≡ true → Runs P m Q)
      → (b ≡ false → Runs P n Q)
      → Runs P (if b then m else n) Q
  Runs-if true m n k l = k refl
  Runs-if false m n k l = l refl

module _ {R : Redis} {A : Type 0} {P : Sys R → Type 0} where
  pub Runs-attempt :
      {Q : Result (Result A) → Sys R → Type 0} (m : Exec R A)
      → Runs P m (λ r. Q (ok r))
      → Runs P (attempt m) Q
  unfolding attempt
  Runs-attempt m k = record { calm = k.calm; at = k.at }

module _ {R : Redis} {P : Sys R → Type 0} {Q : Result (Unit {0}) → Sys R → Type 0} where
  pub Runs-modify :
      (f : Sys R → Sys R) → ((s : Sys R) → P s → Q (ok tt) (f s)) → Runs P (modify f) Q
  unfolding modify
  Runs-modify f k = record { calm = λ s h. refl; at = k }

module _ {R : Redis} {A B : Type 0} {P : Sys R → Type 0} (Mid : Result A → Sys R → Type 0) where
  pub Runs-bind :
      {Q : Result B → Sys R → Type 0} (m : Exec R A) (f : A → Exec R B)
      → Runs P m Mid
      → ((a : A) → Runs (Mid (ok a)) (f a) Q)
      → ((e : Error) (s : Sys R) → Mid (err e) s → Q (err e) s)
      → Runs P (m >>= f) Q
  unfolding ◌>>=◌
  Runs-bind {Q} m f k l x = record {
    calm = λ s h. let (r, w) = m (calm_world s) in calm_after r w (k.calm s h) (k.at s h);
    at = λ s h. let (r, w) = m (calm_world s) in at_after r w (k.calm s h) (k.at s h);
  }
    where
      calm_after :
          (r : Result A) (w : World R) → w.fates ≡ [] → Mid r w.sys → (continue r f w).1.fates ≡ []
      calm_after (ok a) w e h = rw e ((l a).calm w.sys h)
      calm_after (err e') w e h = e

      at_after :
          (r : Result A) (w : World R)
          → w.fates ≡ []
          → Mid r w.sys
          → Q (continue r f w).0 (continue r f w).1.sys
      at_after (ok a) w e h = rw e ((l a).at w.sys h)
      at_after (err e') w e h = x e' w.sys h

-- A postcondition that has the method succeed.
abbrev pub OnOk : {R : Redis} {A : Type 0} → (A → Sys R → Type 0) → Result A → Sys R → Type 0
OnOk Q (ok a) s = Q a s
OnOk Q (err e) s = ⊥

module _ {R : Redis} {A B : Type 0} {P : Sys R → Type 0} {Q : Result B → Sys R → Type 0}
    (Mid : A → Sys R → Type 0) where
  pub Runs-then :
      (m : Exec R A) (f : A → Exec R B)
      → Runs P m (OnOk Mid)
      → ((a : A) → Runs (Mid a) (f a) Q)
      → Runs P (m >>= f) Q
  Runs-then m f k l = Runs-bind (OnOk Mid) m f k l (λ e s h. elim h [ ])

  -- A method that succeeds is attempted.
  pub Runs-attempted :
      (m : Exec R A) (f : Result A → Exec R B)
      → Runs P m (OnOk Mid)
      → ((a : A) → Runs (Mid a) (f (ok a)) Q)
      → Runs P (attempt m >>= f) Q
  Runs-attempted m f k l =
      Runs-bind (λ r s. elim r [ err e ↦ ⊥ | ok x ↦ OnOk Mid x s ]) (attempt m) f (Runs-attempt m k)
        (elim [ ok a ↦ l a | err e ↦ record { calm = λ s h. elim h [ ]; at = λ s h. elim h [ ] } ])
        (λ e s h. elim h [ ])

module _ {R : Redis} {A : Type 0} {P : Sys R → Type 0} {Q : Result A → Sys R → Type 0} where
  pub Runs-from :
      {P' : Sys R → Type 0} (m : Exec R A) → ((s : Sys R) → P s → P' s) → Runs P' m Q → Runs P m Q
  Runs-from m i k = record { calm = λ s h. k.calm s (i s h); at = λ s h. k.at s (i s h) }

-- A method that makes no failure up, in any state.
pub record IsCalm {R : Redis} {A : Type 0} (m : Exec R A) : Type 0 where
  pub at : (s : Sys R) → (m (calm_world s)).1.fates ≡ []

module _ {R : Redis} {A : Type 0} where
  pub IsCalm-pure : (a : A) → IsCalm {R = R} (pure a)
  unfolding pure
  IsCalm-pure a = record { at = λ s. refl }

  pub IsCalm-raise : (e : Error) → IsCalm {R = R} {A = A} (raise e)
  unfolding raise
  IsCalm-raise e = record { at = λ s. refl }

  pub IsCalm-lift : (r : Result A) → IsCalm {R = R} (lift r)
  unfolding lift
  IsCalm-lift r = record { at = λ s. refl }

  pub IsCalm-call : (f : Sys R → A × Sys R) (label : String) → IsCalm (call f label)
  unfolding call
  IsCalm-call f label = record { at = λ s. refl }

  pub IsCalm-attempt : (m : Exec R A) → IsCalm m → IsCalm (attempt m)
  unfolding attempt
  IsCalm-attempt m k = record { at = k.at }

  pub IsCalm-if : (b : Bool) (m n : Exec R A) → IsCalm m → IsCalm n → IsCalm (if b then m else n)
  IsCalm-if true m n k l = k
  IsCalm-if false m n k l = l

  pub Runs-of_Keeps : {P : Sys R → Type 0} (m : Exec R A) → Keeps P m → IsCalm m → Runs P m (λ _. P)
  Runs-of_Keeps m k c = record { calm = λ s h. c.at s; at = λ s h. k.at (calm_world s) h }

module _ {R : Redis} {A B : Type 0} where
  pub IsCalm-bind :
      (m : Exec R A) (f : A → Exec R B) → IsCalm m → ((a : A) → IsCalm (f a)) → IsCalm (m >>= f)
  unfolding ◌>>=◌
  IsCalm-bind m f k l = record { at = λ s. let (r, w) = m (calm_world s) in go r w (k.at s) }
    where
      go : (r : Result A) (w : World R) → w.fates ≡ [] → (continue r f w).1.fates ≡ []
      go (ok a) w e = rw e ((l a).at w.sys)
      go (err x) w e = e

pub ruleset calm_rules =
    (IsCalm-pure, IsCalm-raise, IsCalm-lift, IsCalm-call, IsCalm-attempt, IsCalm-if, IsCalm-bind)
