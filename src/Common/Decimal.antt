-- ===== src/Common/Decimal.antt =====
-- std::to_string of an unsigned number, and the number that a row of digits spells.
use Prim.Native.Nat.{ℕ, zero, suc, ◌+◌, ◌-◌, ◌*◌, ◌/◌, ◌%◌, ◌<◌}
use mathlib.Core.Path.{◌≡◌, refl}
use mathlib.Core.List.{List, [], ◌∷◌, ◌++◌}
use native.Mathlib.Omega.{arith}
use tcp_test.Common.Tests.{ltb, if◌then◌else◌, Bool-cases}

-- The digits, with more fuel than there are.
unfoldable pub digits : ℕ → ℕ → List ℕ
digits zero n = []
digits (suc fuel) n =
    let rest = digits fuel (n / 10) in
    if ltb n 10 then (48 + n) ∷ [] else rest ++ ((48 + n % 10) ∷ [])

unfoldable pub to_string : ℕ → List ℕ
to_string n = digits (suc n) n

unfoldable pub spelled : ℕ → List ℕ → ℕ
spelled value [] = value
spelled value (c ∷ s) = spelled (value * 10 + (c - 48)) s

spelled-append : (value : ℕ) (s t : List ℕ) → spelled value (s ++ t) ≡ spelled (spelled value s) t
unfolding spelled
spelled-append value [] t = refl
spelled-append value (c ∷ s) t = spelled-append (value * 10 + (c - 48)) s t

spelled-digits : (fuel n : ℕ) → n < fuel → spelled 0 (digits fuel n) ≡ n
unfolding spelled digits
spelled-digits zero n h = absurd (omega arith)
spelled-digits (suc fuel) n h = ground (
  arith,
  Bool-cases (ltb n 10),
  spelled-append 0 (digits fuel (n / 10)) ((48 + n % 10) ∷ []),
  spelled-digits fuel (n / 10),
)

pub spelled-to_string : (n : ℕ) → spelled 0 (to_string n) ≡ n
unfolding to_string
spelled-to_string n = spelled-digits (suc n) n (omega arith)
