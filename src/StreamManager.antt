-- ===== src/StreamManager.antt =====
-- server.cpp, class StreamManager: the queues of one connection. A method that waits on the condition
-- variable while its queue is empty answers `none` there; the mutex makes each method one step.
pub mod Streams
mod Tests
use tcp_test.Common.{ℕ, ◌≡◌, Bool, true, false, not, Option, none, some, List, [], ◌∷◌, ◌++◌}
use tcp_test.Common.OrdMap.{OrdMap, find_or, assign}
use tcp_test.Frame.{Frame, is_empty}
use tcp_test.Reorder.{Lane, Drained, lane_add}

pub record StreamManager : Type 0 where
  pub incoming_frames : List Frame
  pub outgoing_frames : List Frame
  pub stream_frames : OrdMap (OrdMap Frame)
  pub next_sequence : OrdMap ℕ

abbrev pub new_manager : StreamManager
new_manager = record {
  incoming_frames = [];
  outgoing_frames = [];
  stream_frames = [];
  next_sequence = [];
}

unfoldable pub send_frame : StreamManager → Frame → StreamManager
send_frame m frame = record m { outgoing_frames = m.outgoing_frames ++ (frame ∷ []) }

-- `front` and `pop` of a queue.
abbrev pub pop : List Frame → Option (Frame × List Frame)
pop [] = none
pop (frame ∷ frames) = some (frame, frames)

unfoldable pub receive_frame : StreamManager → Option (Frame × StreamManager)
receive_frame m = elim (pop m.incoming_frames) [
  | none ↦ none
  | some (frame, frames) ↦ some (frame, record m { incoming_frames = frames })
]

-- The two maps at one stream; a missing entry reads as an empty queue and as 0.
unfoldable pub lane_of : StreamManager → ℕ → Lane
lane_of m stream_id = record {
  queue = find_or [] stream_id m.stream_frames;
  next = find_or 0 stream_id m.next_sequence;
}

unfoldable pub add_incoming_frame : StreamManager → Frame → StreamManager
add_incoming_frame m frame =
    let d = lane_add (lane_of m frame.stream_id) frame in
    record m {
      incoming_frames = m.incoming_frames ++ d.delivered;
      stream_frames = assign frame.stream_id d.lane.queue m.stream_frames;
      next_sequence = assign frame.stream_id d.lane.next m.next_sequence;
    }

unfoldable pub has_outgoing_frames : StreamManager → Bool
has_outgoing_frames m = not (is_empty m.outgoing_frames)

-- The caller has seen a frame in the queue: `front` of an empty one is undefined.
unfoldable pub get_next_outgoing_frame : StreamManager → Option (Frame × StreamManager)
get_next_outgoing_frame m = elim (pop m.outgoing_frames) [
  | none ↦ none
  | some (frame, frames) ↦ some (frame, record m { outgoing_frames = frames })
]

unfoldable pub add_all : StreamManager → List Frame → StreamManager
add_all m [] = m
add_all m (frame ∷ frames) = add_all (add_incoming_frame m frame) frames
