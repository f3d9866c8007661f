-- ===== src/Reorder.antt =====
-- The reordering of one stream, which server.cpp (`StreamManager::addIncomingFrame`) and client.cpp
-- (`Client::handleRead`) both do: a queue by sequence number, and the next number to hand on.
pub mod Queue
pub mod InOrder
pub mod Stale
mod Tests
use tcp_test.Common.{ℕ, ◌+◌, ◌%◌, ◌^◌, List, [], ◌∷◌, ◌++◌, ◌==◌, if◌then◌else◌}
use tcp_test.Common.OrdMap.{OrdMap, insert}
use tcp_test.Frame.{Frame}

pub record Lane : Type 0 where
  pub queue : OrdMap Frame
  pub next : ℕ

-- A lane after some frames, with the frames that it has handed on.
pub record Drained : Type 0 where
  pub delivered : List Frame
  pub lane : Lane

-- `while (!stream_queue.empty())`: take the entry at `begin()` while its number is the next one.
unfoldable pub drain : OrdMap Frame → ℕ → Drained
drain [] next = record { delivered = []; lane = record { queue = []; next = next } }
drain ((sequence, frame) ∷ queue) next =
    let rest = drain queue ((next + 1) % 2 ^ 32) in
    if sequence == next
    then record { delivered = frame ∷ rest.delivered; lane = rest.lane }
    else record { delivered = []; lane = record { queue = (sequence, frame) ∷ queue; next = next } }

-- `stream_queue.insert({frame.sequence, frame})`, then the loop.
unfoldable pub lane_add : Lane → Frame → Drained
lane_add lane frame = drain (insert frame.sequence frame lane.queue) lane.next

-- Frames that arrive one after the other.
unfoldable pub lane_run : Lane → List Frame → Drained
lane_run lane [] = record { delivered = []; lane = lane }
lane_run lane (frame ∷ frames) =
    let first = lane_add lane frame in
    let others = lane_run first.lane frames in
    record { delivered = first.delivered ++ others.delivered; lane = others.lane }

abbrev pub empty_lane : Lane
empty_lane = record { queue = []; next = 0 }
