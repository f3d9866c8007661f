-- ===== src/Reorder/Stale.antt =====
-- A frame that arrives again: its number lies below the next one, and the loop stops at it for ever.
use tcp_test.Common.{ℕ, suc, ◌<◌, ◌≡◌, refl, List, [], ◌∷◌, arith}
use tcp_test.Common.OrdMap.{OrdMap, insert, From}
use tcp_test.Frame.{Frame}
use tcp_test.Reorder.{Lane, drain, lane_add, lane_run}

-- The entry at `begin()` has a number that was handed on before.
abbrev IsBlocked : OrdMap Frame → ℕ → Type 0
IsBlocked [] next = ⊥
IsBlocked ((k, f) ∷ q) next = k < next

insert-IsBlocked :
    (k : ℕ) (f : Frame) (q : OrdMap Frame) (next : ℕ)
    → IsBlocked q next
    → IsBlocked (insert k f q) next
unfolding insert
insert-IsBlocked k f [] next h = absurd h
insert-IsBlocked k f ((j, g) ∷ q) next h = ground arith

insert_stale :
    (k : ℕ) (f : Frame) (q : OrdMap Frame) (next : ℕ)
    → From (suc next) q
    → k < next
    → IsBlocked (insert k f q) next
unfolding insert
insert_stale k f [] next h lt = lt
insert_stale k f ((j, g) ∷ q) next h lt = ground arith

drain-IsBlocked :
    (q : OrdMap Frame) (next : ℕ)
    → IsBlocked q next
    → drain q next ≡ record { delivered = []; lane = record { queue = q; next = next } }
unfolding drain
drain-IsBlocked [] next h = absurd h
drain-IsBlocked ((k, f) ∷ q) next h = ground arith

lane_run-IsBlocked :
    (fs : List Frame) (lane : Lane)
    → IsBlocked lane.queue lane.next
    → let r = lane_run lane fs in (r.delivered ≡ []) × (r.lane.next ≡ lane.next)
unfolding lane_run lane_add
lane_run-IsBlocked [] lane h = (refl, refl)
lane_run-IsBlocked (f ∷ fs) lane h =
    let blocked = insert-IsBlocked f.sequence f lane.queue lane.next h in
    rw (drain-IsBlocked (insert f.sequence f lane.queue) lane.next blocked) (
      lane_run-IsBlocked fs (record { queue = insert f.sequence f lane.queue; next = lane.next })
        blocked)

-- Once a frame arrives whose number lies below the lane's next number, as a repeated frame's does, no
-- frame of the stream is handed on any more, whatever arrives afterwards.
pub lane_run_stale :
    (lane : Lane) (stale : Frame) (fs : List Frame)
    → From (suc lane.next) lane.queue
    → stale.sequence < lane.next
    → let r = lane_run lane (stale ∷ fs) in (r.delivered ≡ []) × (r.lane.next ≡ lane.next)
unfolding lane_run lane_add
lane_run_stale lane stale fs ahead lt =
    let blocked = insert_stale stale.sequence stale lane.queue lane.next ahead lt in
    rw (drain-IsBlocked (insert stale.sequence stale lane.queue) lane.next blocked) (
      lane_run-IsBlocked fs
        (record { queue = insert stale.sequence stale lane.queue; next = lane.next }) blocked)
