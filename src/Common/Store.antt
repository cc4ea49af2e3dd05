-- ===== src/Common/Store.antt =====
-- Memory as a function of addresses; address 0 is NULL.
use Prim.Native.Nat.{ℕ, compare, Ordering}
use mathlib.Core.Path.{◌≡◌}
use mathlib.Core.Logic.{◌≢◌}
use native.Mathlib.Omega.{arith}

abbrev pub null : ℕ
null = 0

-- A write of `v` at address `p`.
abbrev pub update {ℓ} : {A : Type ℓ} → (ℕ → A) → ℕ → A → ℕ → A
update m p v q = elim (compare q p) [ Ordering.eq ↦ v | _ ↦ m q ]

pub update_self {ℓ} : {A : Type ℓ} (m : ℕ → A) (p : ℕ) (v : A) → update m p v p ≡ v
update_self m p v = ground arith

pub update_ne {ℓ} : {A : Type ℓ} (m : ℕ → A) (p : ℕ) (v : A) (q : ℕ) → q ≢ p → update m p v q ≡ m q
update_ne m p v q h = ground arith
