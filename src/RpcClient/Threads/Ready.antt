-- ===== src/RpcClient/Threads/Ready.antt =====
-- The threads that have not begun.
use native.Mathlib.Decide.{ℕ_discrete}
use tcp_test.Common.{
  ℕ, update, zero, suc, ◌+◌, ◌≤◌, ◌<◌, ◌≡◌, refl, sym, ap, ◌∙◌, Bool, true, false, arith,
  if◌then◌else◌,
}
use tcp_test.RpcClient.Threads.{Phase, ready, numbered, registered, waiting, timed_out, done}

-- How many of the first `n` threads have not begun.
abbrev pub is_ready : Phase → Bool
is_ready ready = true
is_ready (numbered id) = false
is_ready (registered id promise) = false
is_ready (waiting id promise) = false
is_ready (timed_out id) = false
is_ready (done line) = false

unfoldable pub ready_below : ℕ → (ℕ → Phase) → ℕ
ready_below zero phases = 0
ready_below (suc n) phases = (if is_ready (phases n) then 1 else 0) + ready_below n phases

ready_above :
    (n k : ℕ) (phases : ℕ → Phase) (phase : Phase)
    → n ≤ k
    → ready_below n (update phases k phase) ≡ ready_below n phases
unfolding ready_below
ready_above zero k phases phase h = refl
ready_above (suc n) k phases phase h = ground (arith, ready_above n k phases phase)

pub ready_begins :
    (n k : ℕ) (phases : ℕ → Phase) (phase : Phase)
    → k < n
    → phases k ≡ ready
    → is_ready phase ≡ false
    → suc (ready_below n (update phases k phase)) ≡ ready_below n phases
unfolding ready_below
ready_begins zero k phases phase h e e' = absurd (omega arith)
ready_begins (suc n) k phases phase h e e' = elim (ℕ_discrete k n) [
  | yes same ↦
      let old : is_ready (phases n) ≡ true = ap is_ready (ap phases (sym same) ∙ e) in
      ground (arith, same, ready_above n k phases phase, e', old)
  | no other ↦ ground (arith, other, ready_begins n k phases phase (omega (arith, other)) e e')
]

pub ready_same :
    (n k : ℕ) (phases : ℕ → Phase) (phase : Phase)
    → is_ready (phases k) ≡ false
    → is_ready phase ≡ false
    → ready_below n (update phases k phase) ≡ ready_below n phases
unfolding ready_below
ready_same zero k phases phase e e' = refl
ready_same (suc n) k phases phase e e' =
    let old : k ≡ n → is_ready (phases n) ≡ false =
      λ same. ap is_ready (ap phases (sym same)) ∙ e in
    ground (arith, old, ready_same n k phases phase e e')
