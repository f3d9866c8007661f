-- ===== src/Common/Updates.antt =====
-- A function on numbers that is changed in one place.
use Prim.Native.Nat.{ℕ}
use native.Mathlib.Decide.{ℕ_discrete}
use mathlib.Core.Path.{◌≡◌, sym, subst}
use mathlib.Core.Logic.{◌≢◌}
use tcp_test.Common.Tests.{◌==◌, ==_of_eq, ==_of_ne, if◌then◌else◌}

abbrev pub update {ℓ} : {A : Type ℓ} → (ℕ → A) → ℕ → A → ℕ → A
update values k value j = if k == j then value else values j

module _ {ℓ κ} {A : Type ℓ} where
  -- A property of the values where one of them changes.
  pub update_all :
      (P : ℕ → A → Type κ) (values : ℕ → A) (k : ℕ) (value : A)
      → P k value
      → ((j : ℕ) → k ≢ j → P j (values j))
      → (j : ℕ) → P j (update values k value j)
  update_all P values k value new rest j = elim (ℕ_discrete k j) [
    | yes same ↦ rw (==_of_eq same) (subst (λ (i : ℕ). P i value) same new)
    | no other ↦ rw (==_of_ne other) (rest j other)
  ]

  pub update_keeps :
      (P : A → Type κ) (values : ℕ → A) (k : ℕ) (value : A) (j : ℕ)
      → (P (values k) → P value)
      → P (values j)
      → P (update values k value j)
  update_keeps P values k value j new old = elim (ℕ_discrete k j) [
    | yes same ↦ rw (==_of_eq same) (new (subst (λ (i : ℕ). P (values i)) (sym same) old))
    | no other ↦ rw (==_of_ne other) old
  ]

  pub update_own :
      (P : A → Type κ) (values : ℕ → A) (k : ℕ) (value : A) (j : ℕ)
      → j ≡ k
      → P value
      → P (update values k value j)
  update_own P values k value j e new = rw (==_of_eq (sym e)) new
