-- ===== src/Reorder/Tests.antt =====
-- Three frames that arrive in another order, and one that arrives again.
use tcp_test.Common.{◌≡◌, refl, List, [], ◌∷◌, arith}
use tcp_test.Common.OrdMap.{insert}
use tcp_test.Frame.{Frame}
use tcp_test.Samples.{numbered}
use tcp_test.Reorder.{drain, lane_add, lane_run, empty_lane}
use tcp_test.Reorder.Stale.{lane_run_stale}

abbrev three : List Frame
three = numbered 1 0 ∷ numbered 1 1 ∷ numbered 1 2 ∷ []

abbrev mixed : List Frame
mixed = numbered 1 1 ∷ numbered 1 0 ∷ numbered 1 2 ∷ []

runs :
    lane_run empty_lane mixed ≡ record { delivered = three; lane = record { queue = []; next = 3 } }
unfolding lane_run lane_add drain insert
runs = refl

lane_run_stale_example :
    let r = lane_run (record { queue = []; next = 3 }) (numbered 1 1 ∷ numbered 1 3 ∷ []) in
    (r.delivered ≡ []) × (r.lane.next ≡ 3)
lane_run_stale_example =
    lane_run_stale (record { queue = []; next = 3 }) (numbered 1 1) (numbered 1 3 ∷ []) tt
      (omega arith)
