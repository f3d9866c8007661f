-- ===== src/TcpServer/Processor.antt =====
-- TcpServer::StreamProcessor: its queue, its worker and its destructor, whose steps interleave. What has
-- been added and which callbacks have been called is kept as the history.
pub mod Order
pub mod Progress
mod Tests
use tcp_test.Common.{
  ℕ, zero, suc, ◌+◌, ◌<◌, ◌≡◌, refl, ap, sym, ◌∙◌, Bool, true, false, List, [], ◌∷◌, ◌++◌, arith,
  if◌then◌else◌, append-nil, append_assoc, append_snoc, length, inl, inr, ◌⊎◌,
}
use tcp_test.Frame.{Frame}
use tcp_test.TcpServer.{StreamCall, process_frame, process_frames}

-- The worker: at the head of its loop, before its look at the queue, in the wait, with a frame, or behind
-- the loop.
pub data WorkerState : Type 0 where
  looping looking waiting done : WorkerState
  handling : Frame → WorkerState

-- The owner: it has the processor, is in the destructor, or has joined the worker.
pub data OwnerState : Type 0 where
  alive destroying joined : OwnerState

pub record StreamProcessor : Type 0 where
  pub frame_queue : List Frame
  pub running : Bool
  pub worker : WorkerState
  pub owner : OwnerState
  pub added : List Frame
  pub called : List StreamCall

-- The constructor starts the worker.
abbrev pub new_processor : StreamProcessor
new_processor = record {
  frame_queue = [];
  running = true;
  worker = looping;
  owner = alive;
  added = [];
  called = [];
}

-- `addFrame`
unfoldable pub push_frame : StreamProcessor → Frame → StreamProcessor
push_frame p frame = record p {
  frame_queue = p.frame_queue ++ (frame ∷ []);
  added = p.added ++ (frame ∷ []);
}

-- The end of a look at the queue, with the state where it is empty.
unfoldable pub look : WorkerState → StreamProcessor → StreamProcessor
look otherwise p = elim p.frame_queue [
  | [] ↦ record p { worker = otherwise }
  | frame ∷ rest ↦ record p { worker = handling frame; frame_queue = rest }
]

-- The steps, with `Frame::enable_checksum` and whether the two callbacks are set.
pub data Step (enabled checksum_set request_set : Bool) (p : StreamProcessor) (q : StreamProcessor)
    : Type 0 where
  adds :
      (frame : Frame)
      → p.owner ≡ alive
      → q ≡ push_frame p frame
      → Step enabled checksum_set request_set p q
  loops :
      p.worker ≡ looping
      → q ≡ record p { worker = if p.running then looking else done }
      → Step enabled checksum_set request_set p q
  looks : p.worker ≡ looking → q ≡ look waiting p → Step enabled checksum_set request_set p q
  -- the wait ends, at the latest after 100 milliseconds
  ends_wait : p.worker ≡ waiting → q ≡ look looping p → Step enabled checksum_set request_set p q
  handles :
      (frame : Frame)
      → p.worker ≡ handling frame
      → q ≡ record p {
        worker = looping;
        called = p.called ++ process_frame enabled checksum_set request_set frame;
      }
      → Step enabled checksum_set request_set p q
  destroys :
      p.owner ≡ alive
      → q ≡ record p { owner = destroying; running = false }
      → Step enabled checksum_set request_set p q
  joins :
      p.owner ≡ destroying
      → p.worker ≡ done
      → q ≡ record p { owner = joined }
      → Step enabled checksum_set request_set p q

pub data Reach (enabled checksum_set request_set : Bool) : StreamProcessor → Type 0 where
  start : {p : StreamProcessor} → p ≡ new_processor → Reach enabled checksum_set request_set p
  next :
      {p q : StreamProcessor}
      → Reach enabled checksum_set request_set p
      → Step enabled checksum_set request_set p q
      → Reach enabled checksum_set request_set q

-- The frame in the worker's hands.
abbrev pub in_hand : WorkerState → List Frame
in_hand looping = []
in_hand looking = []
in_hand waiting = []
in_hand done = []
in_hand (handling frame) = frame ∷ []

-- Later states.
pub data Runs (enabled checksum_set request_set : Bool)
    : StreamProcessor → StreamProcessor → Type 0 where
  stays : {p q : StreamProcessor} → q ≡ p → Runs enabled checksum_set request_set p q
  steps :
      {p r q : StreamProcessor}
      → Step enabled checksum_set request_set p r
      → Runs enabled checksum_set request_set r q
      → Runs enabled checksum_set request_set p q
