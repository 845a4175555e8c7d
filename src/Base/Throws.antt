-- ===== src/Base/Throws.antt =====
-- A C++ expression that may throw a `std::exception`; `thrown` carries the `what()` text.
use mathlib.Core.Path.{◌≡◌, refl}
use mathlib.Core.Logic.{◌⊎◌, inl, inr}
use smartthings4cpp.Base.Text.{Bytes}

pub data Try {ℓ} (A : Type ℓ) : Type ℓ where
  ok : A → Try A
  thrown : Bytes → Try A

infixl 5 ◌>>=◌
abbrev pub ◌>>=◌ {ℓ κ} : {A : Type ℓ} {B : Type κ} → Try A → (A → Try B) → Try B
ok a >>= f = f a
thrown e >>= f = thrown e

pub Try-cases {ℓ} :
    {A : Type ℓ} (t : Try A) → ((a : A) × (t ≡ ok a)) ⊎ ((e : Bytes) × (t ≡ thrown e))
Try-cases (ok a) = inl (a, refl)
Try-cases (thrown e) = inr (e, refl)
