-- ===== src/Evm/Abi/Decoded.antt =====
-- The outcomes of a Go decoder: a value, an error result, or a panic.
use go_fula.Prelude.{Option, none, some}

pub data Decoded {ℓ} (A : Type ℓ) : Type ℓ where
  value : A → Decoded A
  error : Decoded A
  panic : Decoded A

infixl 5 ◌>>=◌
abbrev pub ◌>>=◌ {ℓ κ} : {A : Type ℓ} {B : Type κ} → Decoded A → (A → Decoded B) → Decoded B
value a >>= f = f a
error >>= f = error
panic >>= f = panic

-- `none` is Go's error result.
abbrev pub try {ℓ} : {A : Type ℓ} → Option A → Decoded A
try none = error
try (some a) = value a
