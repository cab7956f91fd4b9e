-- ===== src/Base/Stores.antt =====
-- A store by address: a function of the address, changed at one place.
use Prim.Native.Nat.{ℕ}
use mathlib.Core.Path.{◌≡◌, refl}
use mathlib.Core.Logic.{◌≢◌}
use mathlib.Core.Bool.{false}
use native.Mathlib.Omega.{arith}
use os_porting.Base.Tests.{◌==◌, if◌then◌else◌}

abbrev pub put {ℓ} : {A : Type ℓ} → (ℕ → A) → ℕ → A → ℕ → A
put f p v q = if q == p then v else f q

pub put_self : {A : Type 0} (f : ℕ → A) (i : ℕ) (v : A) → put f i v i ≡ v
put_self f i v = ground arith

pub put-other : {A : Type 0} (f : ℕ → A) {i j : ℕ} (v : A) → j ≢ i → put f i v j ≡ f j
put-other f {i} {j} v ne = let apart : (j == i) ≡ false = ground arith in rw apart refl
