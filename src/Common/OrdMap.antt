-- ===== src/Common/OrdMap.antt =====
-- `std::map` with a number for its key, as the list of its entries in the order of iteration.
use Prim.Native.Nat.{ℕ, suc, ◌≤◌, ◌<◌}
use mathlib.Core.Path.{◌≡◌, refl}
use mathlib.Core.Logic.{◌≢◌}
use mathlib.Core.Option.{Option, none, some}
use mathlib.Core.List.{List, [], ◌∷◌}
use native.Mathlib.Omega.{arith}
use tcp_test.Common.Tests.{ltb, ◌==◌, if◌then◌else◌}

abbrev pub OrdMap {ℓ} : Type ℓ → Type ℓ
OrdMap V = List (ℕ × V)

module _ {ℓ} {V : Type ℓ} where
  unfoldable pub find : ℕ → OrdMap V → Option V
  find k [] = none
  find k ((j, v) ∷ m) = if j == k then some v else find k m

  -- `m.insert({k, v})` keeps an entry that is there.
  unfoldable pub insert : ℕ → V → OrdMap V → OrdMap V
  insert k v [] = (k, v) ∷ []
  insert k v ((j, w) ∷ m) =
      let rest = insert k v m in
      if ltb k j then (k, v) ∷ (j, w) ∷ m else if k == j then (j, w) ∷ m else (j, w) ∷ rest

  -- `m[k] = v` overwrites it.
  unfoldable pub assign : ℕ → V → OrdMap V → OrdMap V
  assign k v [] = (k, v) ∷ []
  assign k v ((j, w) ∷ m) =
      let rest = assign k v m in
      if ltb k j then (k, v) ∷ (j, w) ∷ m else if k == j then (k, v) ∷ m else (j, w) ∷ rest

  unfoldable pub erase : ℕ → OrdMap V → OrdMap V
  erase k [] = []
  erase k ((j, w) ∷ m) = let rest = erase k m in if j == k then m else (j, w) ∷ rest

  -- `m[k]` where it is read: an entry that is missing reads as the default.
  unfoldable pub find_or : V → ℕ → OrdMap V → V
  find_or d k m = elim (find k m) [ none ↦ d | some v ↦ v ]

  -- The keys rise, from `n` on.
  abbrev pub From : ℕ → OrdMap V → Type 0
  From n [] = Unit {0}
  From n ((k, v) ∷ m) = (n ≤ k) × From (suc k) m

  pub From-mono : (a b : ℕ) (m : OrdMap V) → a ≤ b → From b m → From a m
  From-mono a b [] h f = tt
  From-mono a b ((k, v) ∷ m) h f = (omega arith, f.1)

  pub find_below : (k n : ℕ) (m : OrdMap V) → From n m → k < n → find k m ≡ none
  unfolding find
  find_below k n [] f h = refl
  find_below k n ((j, w) ∷ m) f h = ground (arith, find_below k (suc j) m f.1)

  pub find-assign :
      (k j : ℕ) (v : V) (m : OrdMap V)
      → find j (assign k v m) ≡ (if k == j then some v else find j m)
  unfolding find assign
  find-assign k j v [] = refl
  find-assign k j v ((i, w) ∷ m) = ground (arith, find-assign k j v m)

  pub find_or-assign_self : (d : V) (k : ℕ) (v : V) (m : OrdMap V) → find_or d k (assign k v m) ≡ v
  unfolding find_or
  find_or-assign_self d k v m = ground (arith, find-assign k k v m)

  pub find_or-assign_ne :
      (d : V) (k j : ℕ) (v : V) (m : OrdMap V) → k ≢ j → find_or d j (assign k v m) ≡ find_or d j m
  unfolding find_or
  find_or-assign_ne d k j v m ne = ground (arith, find-assign k j v m)

  pub find-insert :
      (k j n : ℕ) (v : V) (m : OrdMap V)
      → From n m
      → find j (insert k v m)
        ≡ (if k == j then some (elim (find k m) [ none ↦ v | some w ↦ w ]) else find j m)
  unfolding find insert
  find-insert k j n v [] f = refl
  find-insert k j n v ((i, w) ∷ m) f =
      ground (arith, find-insert k j (suc i) v m f.1, find_below k (suc i) m f.1)

  pub insert-From : (n k : ℕ) (v : V) (m : OrdMap V) → n ≤ k → From n m → From n (insert k v m)
  unfolding insert
  insert-From n k v [] h f = omega arith
  insert-From n k v ((j, w) ∷ m) h f = ground (arith, insert-From (suc j) k v m)

  pub find-erase_self : (k n : ℕ) (m : OrdMap V) → From n m → find k (erase k m) ≡ none
  unfolding find erase
  find-erase_self k n [] f = refl
  find-erase_self k n ((j, w) ∷ m) f =
      ground (arith, find-erase_self k (suc j) m f.1, find_below k (suc j) m f.1)

  pub find-erase_ne : (k j : ℕ) (m : OrdMap V) → k ≢ j → find j (erase k m) ≡ find j m
  unfolding find erase
  find-erase_ne k j [] ne = refl
  find-erase_ne k j ((i, w) ∷ m) ne = ground (arith, find-erase_ne k j m ne)

  pub assign-From : (n k : ℕ) (v : V) (m : OrdMap V) → n ≤ k → From n m → From n (assign k v m)
  unfolding assign
  assign-From n k v [] h f = omega arith
  assign-From n k v ((j, w) ∷ m) h f = ground (arith, assign-From (suc j) k v m)

  pub erase-From : (n k : ℕ) (m : OrdMap V) → From n m → From n (erase k m)
  unfolding erase
  erase-From n k [] f = tt
  erase-From n k ((j, w) ∷ m) f = ground (arith, erase-From (suc j) k m, From-mono n (suc j) m)

  pub erase-assign : (k : ℕ) (v : V) (m : OrdMap V) → find k m ≡ none → erase k (assign k v m) ≡ m
  unfolding find assign erase
  erase-assign k v [] h = ground arith
  erase-assign k v ((j, w) ∷ m) h = ground (arith, h, erase-assign k v m)

  pub find-assign_self : (k : ℕ) (v : V) (m : OrdMap V) → find k (assign k v m) ≡ some v
  find-assign_self k v m = ground (arith, find-assign k k v m)
