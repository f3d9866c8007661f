-- ===== src/DemoServer/Serving.antt =====
-- server.cpp, a connection: the critical sections of its reader and its writer interleave. The reader
-- closes the descriptor when the connection ends; nothing tells the writer.
pub mod Rounds
pub mod Order
pub mod Progress
pub mod Requests
mod Tests
use tcp_test.Common.{
  ℕ, suc, ◌≡◌, Bool, true, false, List, [], ◌∷◌, ◌++◌, length, All, if◌then◌else◌,
}
use tcp_test.Frame.{Frame, IsByte}
use tcp_test.StreamManager.{StreamManager, new_manager, send_frame}
use tcp_test.DemoServer.{waiting, read_loop, write_round, bytes_of}

-- The shared manager, the reader's buffer and the responses that it has yet to queue, what `recv`
-- returned, whether the descriptor is open, the bytes that were sent while it was, and those that were
-- sent on its number afterwards.
pub record Serving : Type 0 where
  pub manager : StreamManager
  pub buffer : List ℕ
  pub pending : List Frame
  pub received : List (List ℕ)
  pub is_open : Bool
  pub sent_bytes : List ℕ
  pub stray_bytes : List ℕ

abbrev pub accepted_connection : Serving
accepted_connection = record {
  manager = new_manager;
  buffer = [];
  pending = [];
  received = [];
  is_open = true;
  sent_bytes = [];
  stray_bytes = [];
}

-- `send` on the number of the descriptor.
unfoldable pub give : List ℕ → Serving → Serving
give bytes s =
    if s.is_open
    then record s { sent_bytes = s.sent_bytes ++ bytes }
    else record s { stray_bytes = s.stray_bytes ++ bytes }

-- The steps: the reader parses what came, queues a response, or ends; the writer makes a round.
pub data Step (enabled : Bool) (u : ℕ) (s : Serving) (t : Serving) : Type 0 where
  reads :
      (bytes rest : List ℕ) (m : StreamManager)
      → s.is_open ≡ true
      → s.pending ≡ []
      → All IsByte bytes
      → read_loop u (suc (length (s.buffer ++ bytes))) new_manager (s.buffer ++ bytes)
        ≡ waiting m rest
      → t ≡ record s {
        buffer = rest;
        pending = m.outgoing_frames;
        received = s.received ++ (bytes ∷ []);
      }
      → Step enabled u s t
  queues :
      (response : Frame) (more : List Frame)
      → s.pending ≡ response ∷ more
      → t ≡ record s { manager = send_frame s.manager response; pending = more }
      → Step enabled u s t
  closes : s.is_open ≡ true → s.pending ≡ [] → t ≡ record s { is_open = false } → Step enabled u s t
  writes :
      t
        ≡ give
            (bytes_of (write_round enabled s.manager).0)
            (record s { manager = (write_round enabled s.manager).1 })
      → Step enabled u s t

pub data Reach (enabled : Bool) (u : ℕ) : Serving → Type 0 where
  start : {s : Serving} → s ≡ accepted_connection → Reach enabled u s
  next : {s t : Serving} → Reach enabled u s → Step enabled u s t → Reach enabled u t

-- Later states.
pub data Runs (enabled : Bool) (u : ℕ) : Serving → Serving → Type 0 where
  stays : {s t : Serving} → t ≡ s → Runs enabled u s t
  steps : {s r t : Serving} → Step enabled u s r → Runs enabled u r t → Runs enabled u s t

-- The reader has not ended, and nothing waits to be sent.
pub record IsServed (s : Serving) : Type 0 where
  pub still_open : s.is_open ≡ true
  pub all_queued : s.pending ≡ []
  pub all_sent : s.manager.outgoing_frames ≡ []
