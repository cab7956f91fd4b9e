-- ===== src/Base/Total.antt =====
-- Results that a loop on fuel may lack: the chain of such steps, and total correctness.
use mathlib.Core.Option.{Option, none, some}

infixl 5 ◌>>=◌
abbrev pub ◌>>=◌ {ℓ κ} : {A : Type ℓ} {B : Type κ} → Option A → (A → Option B) → Option B
none >>= f = none
some a >>= f = f a

-- There is a result, and it has the property.
pub data Yields {A : Type 0} (P : A → Type 0) : Option A → Type 0 where
  yields : {a : A} → P a → Yields P (some a)

module _ {A : Type 0} {P : A → Type 0} where
  pub Yields-bind :
      {B : Type 0} {Q : B → Type 0} {o : Option A} {f : A → Option B}
      → Yields P o
      → ((a : A) → P a → Yields Q (f a))
      → Yields Q (o >>= f)
  Yields-bind (yields p) next = next _ p

  pub Yields-mono :
      {Q : A → Type 0} {o : Option A} → Yields P o → ((a : A) → P a → Q a) → Yields Q o
  Yields-mono (yields p) weaken = yields (weaken _ p)
