-- ===== src/Prelude/Family.antt =====
-- Families indexed by a number, such as the goroutines of a system.
use Prim.Native.Nat.{ℕ}
use orthrus.Prelude.Tests.{◌==◌, if◌then◌else◌}

abbrev pub update {ℓ} : {A : Type ℓ} → (ℕ → A) → ℕ → A → ℕ → A
update f i a j = if i == j then a else f j
