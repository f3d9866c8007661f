-- ===== src/Common/Perms.antt =====
-- Permuted lists have equal lengths, over the native numbers.
use mathlib.Core.Path.{◌≡◌, refl, ap, sym, ◌∙◌}
use mathlib.Core.List
use mathlib.Core.List.{List, [], ◌∷◌, Perm}
use mathlib.Core.List.Perm
use native.Mathlib.Bridge.{from_ℕ}
use Prim.Native.Nat.{suc}
use tcp_test.Common.Lists.{length}

from_length {ℓ} : {A : Type ℓ} (xs : List A) → from_ℕ (List.length xs) ≡ length xs
from_length [] = refl
from_length (x ∷ xs) = ap suc (from_length xs)

pub length-perm {ℓ} : {A : Type ℓ} {xs ys : List A} → Perm xs ys → length xs ≡ length ys
length-perm {xs} {ys} p = sym (from_length xs) ∙ ap from_ℕ (Perm.length-eq p) ∙ from_length ys
