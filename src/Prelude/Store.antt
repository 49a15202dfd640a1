-- ===== src/Prelude/Store.antt =====
-- Stores: a value for each address, and the write of one address.
use Prim.Native.Nat.{ℕ}
use mathlib.Core.Path.{◌≡◌}
use mathlib.Core.Logic.{◌≢◌}
use native.Mathlib.Omega.{arith}
use hftperformance.Prelude.Tests.{◌==◌, if◌then◌else◌}

abbrev pub update {ℓ} : {A : Type ℓ} → (ℕ → A) → ℕ → A → ℕ → A
update f n v m = if m == n then v else f m

pub update_self {ℓ} : {A : Type ℓ} (f : ℕ → A) (n : ℕ) (v : A) → update f n v n ≡ v
update_self f n v = ground arith

pub update_ne {ℓ} : {A : Type ℓ} (f : ℕ → A) {n m : ℕ} (v : A) → m ≢ n → update f n v m ≡ f m
update_ne f v h = ground arith
