-- ===== src/Common/Outcome.antt =====
-- C code whose behaviour may be undefined: a read or a write outside an object or through a null
-- pointer, or the use of a value that was never set.
pub data Exec {ℓ} (A : Type ℓ) : Type ℓ where
  ok : A → Exec A
  undefined : Exec A

infixl 5 ◌>>=◌
abbrev pub ◌>>=◌ {ℓ κ} : {A : Type ℓ} {B : Type κ} → Exec A → (A → Exec B) → Exec B
ok a >>= f = f a
undefined >>= f = undefined
