-- ===== src/StreamManager/Tests.antt =====
-- Two streams, each with its frames in another order.
use mathlib.Core.List.Perm
use tcp_test.Common.{◌≡◌, refl, List, [], ◌∷◌, arith}
use tcp_test.Common.OrdMap.{find, find_or}
use tcp_test.Frame.{Frame}
use tcp_test.Samples.{numbered}
use tcp_test.StreamManager.{new_manager, lane_of, add_all}
use tcp_test.StreamManager.Streams.{of_stream, Separate, add_all-perm}

abbrev mixed : List Frame
mixed = numbered 1 1 ∷ numbered 2 0 ∷ numbered 1 0 ∷ []

new-Separate : Separate new_manager
unfolding lane_of find_or find
new-Separate = record { own = λ s. tt }

add_all-perm_example :
    of_stream 1 (add_all new_manager mixed).incoming_frames ≡ numbered 1 0 ∷ numbered 1 1 ∷ []
unfolding of_stream
add_all-perm_example =
    add_all-perm mixed (numbered 1 0 ∷ numbered 1 1 ∷ []) 1 (omega arith) (refl, (refl, tt))
      (Perm.swap (numbered 1 0) (numbered 1 1) [])
