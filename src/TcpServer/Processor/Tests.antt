-- ===== src/TcpServer/Processor/Tests.antt =====
-- A frame in the worker's hands and one in the queue, before and after the destructor begins.
use tcp_test.Common.{◌≡◌, refl, false, true, List, [], ◌∷◌, ◌++◌}
use tcp_test.Frame.{Frame}
use tcp_test.Samples.{numbered}
use tcp_test.TcpServer.{process_frames}
use tcp_test.TcpServer.Processor.{
  handling, alive, destroying, joined, StreamProcessor, push_frame, look, adds, loops, looks,
  destroys, Reach, start, next, Runs,
}
use tcp_test.TcpServer.Processor.Order.{callbacks_in_order}
use tcp_test.TcpServer.Processor.Progress.{destructor_joins}

abbrev busy : StreamProcessor
busy = record {
  frame_queue = numbered 3 8 ∷ [];
  running = true;
  worker = handling (numbered 3 7);
  owner = alive;
  added = numbered 3 7 ∷ numbered 3 8 ∷ [];
  called = [];
}

busy_reached : Reach false false true busy
unfolding push_frame look
busy_reached =
    next
      (next
        (next (next (start refl) (adds (numbered 3 7) refl refl)) (adds (numbered 3 8) refl refl))
        (loops refl refl))
      (looks refl refl)

abbrev closing : StreamProcessor
closing = record busy { owner = destroying; running = false }

callbacks_in_order_example :
    (handled : List Frame) × ([] ≡ process_frames false false true handled)
    × (numbered 3 7 ∷ numbered 3 8 ∷ [] ≡ handled ++ (numbered 3 7 ∷ numbered 3 8 ∷ []))
callbacks_in_order_example = callbacks_in_order false false true busy_reached

destructor_joins_example :
    (q : StreamProcessor) × Runs false false true closing q × (q.owner ≡ joined)
destructor_joins_example =
    destructor_joins false false true (next busy_reached (destroys refl refl)) refl
