-- ===== src/Prelude/Results.antt =====
-- Go's `(value, error)` results.
use Prim.Native.String.{String}
use mathlib.Core.Path.{◌≡◌, refl}

-- An error: the sentinel `storage.ErrNotFound`, which callers test for, or any other one, known by
-- the text that it is wrapped in.
pub data Error : Type 0 where
  not_found : Error
  failed : String → Error

pub data Result {ℓ} (A : Type ℓ) : Type ℓ where
  ok : A → Result A
  err : Error → Result A

infixl 10 ◌>>=◌
abbrev pub ◌>>=◌ {ℓ κ} : {A : Type ℓ} {B : Type κ} → Result A → (A → Result B) → Result B
err e >>= k = err e
ok x >>= k = k x

-- A chain that ends well has a first step that ends well.
pub >>=-eq-ok {ℓ κ} :
    {X : Type ℓ} {Y : Type κ} (r : Result X) (k : X → Result Y) {y : Y}
    → (r >>= k) ≡ ok y
    → (x : X) × (r ≡ ok x) × (k x ≡ ok y)
>>=-eq-ok (err e) k h = cc
>>=-eq-ok (ok x) k h = (x, refl, h)
