-- ===== src/Reorder/InOrder.antt =====
-- Frames numbered from 0 that arrive in any order are handed on in the order of their numbers.
use mathlib.Core.List.{
  Mem, Nodup, Perm, mem-cons_self, mem-cons_of_mem, Nodup-cons, Nodup-nil, mem-cons, not-mem-nil,
}
use mathlib.Core.List.Perm
use native.Mathlib.Decide.{ℕ_discrete}
use native.Mathlib.Bridge.{le_prop}
use mathlib.Core.HLevel.{×_prop}
use mathlib.Core.Logic.Or
use tcp_test.Common.{
  ℕ, suc, ◌+◌, ◌-◌, ◌^◌, ◌≤◌, ◌<◌, ◌≡◌, refl, ap, sym, ◌∙◌, List, [], ◌∷◌, map, length, get_elem?,
  All, arith, Option, some,
}
use tcp_test.Common.OrdMap.{find}
use tcp_test.Frame.{Frame}
use tcp_test.Reorder.{lane_run, empty_lane}
use tcp_test.Reorder.Queue.{Waiting, lane_run-Waiting}

-- The frames of a stream, numbered from `n` on.
abbrev pub Numbered : ℕ → List Frame → Type 0
Numbered n [] = Unit {0}
Numbered n (f ∷ fs) = (f.sequence ≡ n) × Numbered (suc n) fs

abbrev sequences : List Frame → List ℕ
sequences = map λ f. f.sequence

Frame_option-set : IsSet (Option Frame)
Frame_option-set = hlevel

abbrev Stands : List Frame → ℕ → Frame → Type 0
Stands fs n f = (n ≤ f.sequence) × (get_elem? fs (f.sequence - n) ≡ some f)

-- A frame stands at the place of its number.
mem-Stands : (n : ℕ) (fs : List Frame) (f : Frame) → Numbered n fs → Mem f fs → Stands fs n f
mem-Stands n [] f num m = absurd (not-mem-nil m)
mem-Stands n (g ∷ fs) f num m =
    Or.elim (×_prop le_prop (Frame_option-set _ _)) (mem-cons.0 m) (λ e. rw e (first e))
      (λ k. later (mem-Stands (suc n) fs f num.1 k))
  where
    first : f ≡ g → Stands (g ∷ fs) n g
    first e = ground (arith, num.0)

    later : Stands fs (suc n) f → Stands (g ∷ fs) n f
    later s =
        let e : f.sequence - n ≡ suc (f.sequence - suc n) = omega (arith, s.0) in
        (omega (arith, s.0), rw e s.1)

mem-sequences-le : (n i : ℕ) (fs : List Frame) → Numbered n fs → Mem i (sequences fs) → n ≤ i
mem-sequences-le n i [] num m = absurd (not-mem-nil m)
mem-sequences-le n i (f ∷ fs) num m =
    Or.elim le_prop (mem-cons.0 m) (λ e. omega (arith, e, num.0))
      (λ k. omega (arith, mem-sequences-le (suc n) i fs num.1 k))

Numbered-Nodup : (n : ℕ) (fs : List Frame) → Numbered n fs → Nodup (sequences fs)
Numbered-Nodup n [] num = Nodup-nil
Numbered-Nodup n (f ∷ fs) num = Nodup-cons.1 (
  (λ m. omega (arith, num.0, mem-sequences-le (suc n) f.sequence fs num.1 m)),
  Numbered-Nodup (suc n) fs num.1,
)

mem_sequences :
    (n i : ℕ) (fs : List Frame) → Numbered n fs → n ≤ i → i < n + length fs → Mem i (sequences fs)
mem_sequences n i [] num le lt = absurd (omega arith)
mem_sequences n i (f ∷ fs) num le lt = elim (ℕ_discrete i f.sequence) [
  | yes e ↦ mem-cons.1 (Or.inl e)
  | no ne ↦
      mem-cons.1
        (Or.inr (mem_sequences (suc n) i fs num.1 (omega (arith, num.0, ne)) (omega arith)))
]

mem-All {ℓ κ} : {A : Type ℓ} (P : A → Type κ) (xs : List A) → ((x : A) → Mem x xs → P x) → All P xs
mem-All P [] h = tt
mem-All P (x ∷ xs) h = (h x mem-cons_self, mem-All P xs (λ y m. h y (mem-cons_of_mem x m)))

arrived-Waiting :
    (sent arrived : List Frame) (small : length sent < 2 ^ 32)
    → Numbered 0 sent
    → Perm arrived sent
    → Waiting sent small empty_lane arrived
unfolding find
arrived-Waiting sent arrived small num p = record {
  within = omega arith;
  ahead = tt;
  holds = tt;
  genuine = mem-All _ arrived λ f m.
      ap (get_elem? sent) (sym (zero_off f.sequence))
      ∙ (mem-Stands 0 sent f num ((Perm.mem_iff p).0 m)).1;
  fresh = λ f m. (omega arith, refl);
  distinct = Perm.nodup (Perm.symm (Perm.map (λ f. f.sequence) p)) (Numbered-Nodup 0 sent num);
  covered = λ i lt le e.
      (Perm.mem_iff (Perm.map (λ f. f.sequence) p)).1 (mem_sequences 0 i sent num le (omega arith));
}
  where
    zero_off : (n : ℕ) → n - 0 ≡ n
    zero_off n = omega arith

-- Frames numbered from 0 up are all handed on, in the order of their numbers, in whatever order they
-- arrive; the queue is empty afterwards. There are fewer than 2 ^ 32 of them.
pub lane_run-perm :
    (sent arrived : List Frame)
    → length sent < 2 ^ 32
    → Numbered 0 sent
    → Perm arrived sent
    → lane_run empty_lane arrived
      ≡ record { delivered = sent; lane = record { queue = []; next = length sent } }
lane_run-perm sent arrived small num p = ground (
  arith,
  lane_run-Waiting sent small arrived empty_lane (arrived-Waiting sent arrived small num p),
)
