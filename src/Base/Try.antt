-- ===== src/Base/Try.antt =====
-- A Python expression that returns a value or raises.

pub data Try {ℓ} (A : Type ℓ) : Type ℓ where
  returns : A → Try A
  raises : Try A

infixl 5 ◌>>=◌
abbrev pub ◌>>=◌ {ℓ κ} : {A : Type ℓ} {B : Type κ} → Try A → (A → Try B) → Try B
returns a >>= f = f a
raises >>= f = raises
