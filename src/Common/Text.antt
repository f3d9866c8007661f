-- ===== src/Common/Text.antt =====
-- Texts as lists of bytes, and maps whose keys are texts (std::unordered_map<std::string, …>).
use Prim.Native.Nat.{ℕ}
use mathlib.Core.Path.{◌≡◌, refl, ap}
use mathlib.Core.Logic.{inl, inr}
use mathlib.Core.Bool.{Bool, true, false, ◌&&◌}
use mathlib.Core.Option.{Option, none, some}
use mathlib.Core.List.{List, [], ◌∷◌}
use native.Mathlib.Omega.{arith}
use tcp_test.Common.Tests.{Bool-cases, ◌==◌, if◌then◌else◌}

abbrev pub Text : Type 0
Text = List ℕ

unfoldable pub same_text : Text → Text → Bool
same_text [] [] = true
same_text [] (d ∷ t) = false
same_text (c ∷ s) [] = false
same_text (c ∷ s) (d ∷ t) = (c == d) && same_text s t

pub same_text_refl : (s : Text) → same_text s s ≡ true
unfolding same_text
same_text_refl [] = refl
same_text_refl (c ∷ s) = ground (arith, same_text_refl s)

pub same_text-eq : (s t : Text) → same_text s t ≡ true → s ≡ t
unfolding same_text
same_text-eq [] [] h = refl
same_text-eq [] (d ∷ t) h = cc
same_text-eq (c ∷ s) [] h = cc
same_text-eq (c ∷ s) (d ∷ t) h = ground (arith, same_text-eq s t)

module _ {ℓ} {V : Type ℓ} where
  unfoldable pub lookup : Text → List (Text × V) → Option V
  lookup k [] = none
  lookup k ((j, v) ∷ m) = if same_text j k then some v else lookup k m

  -- `m[k] = v`
  unfoldable pub store : Text → V → List (Text × V) → List (Text × V)
  store k v [] = (k, v) ∷ []
  store k v ((j, w) ∷ m) =
      let rest = store k v m in if same_text j k then (j, v) ∷ m else (j, w) ∷ rest

  pub lookup-store_self : (k : Text) (v : V) (m : List (Text × V)) → lookup k (store k v m) ≡ some v
  unfolding lookup store
  lookup-store_self k v [] = ground (arith, same_text_refl k)
  lookup-store_self k v ((j, w) ∷ m) = ground (arith, lookup-store_self k v m)

  pub lookup-store_ne :
      (k j : Text) (v : V) (m : List (Text × V))
      → same_text k j ≡ false
      → lookup j (store k v m) ≡ lookup j m
  unfolding lookup store
  lookup-store_ne k j v [] h = ground (arith, h)
  lookup-store_ne k j v ((i, w) ∷ m) h = elim (Bool-cases (same_text i k)) [
    | inl same ↦ ground (arith, same, h, ap (λ (x : Text). same_text x j) (same_text-eq i k same))
    | inr other ↦ ground (arith, other, lookup-store_ne k j v m h)
  ]
