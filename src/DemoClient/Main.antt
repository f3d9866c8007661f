-- ===== src/DemoClient/Main.antt =====
-- client.cpp, main: its three threads, each with a stream of its own and five messages, whose critical
-- sections interleave with one another and with the writer.
pub mod Texts
pub mod Frames
pub mod Order
pub mod Finish
pub mod Exchange
mod Tests
use tcp_test.Common.{ℕ, ◌+◌, ◌<◌, ◌≡◌, Bool, true, some, List, [], ◌++◌, update}
use tcp_test.DemoClient.{Client, new_client, take_sequence, message_frame, push_frame, write_frame}
use tcp_test.DemoClient.Sessions.{message_text}

-- The loop of a thread: before the message `j`, or with the number that `sendMessage` took for it.
pub data Loop : Type 0 where
  before : ℕ → Loop
  holding : ℕ → ℕ → Loop

-- The client, the threads from 0 on, and the bytes that the writer has sent.
pub record Program : Type 0 where
  pub client : Client
  pub loops : ℕ → Loop
  pub socket : List ℕ

-- The steps of the threads, and a round of the writer.
pub data Step (enabled : Bool) (u : ℕ) (s : Program) (t : Program) : Type 0 where
  takes :
      (i j : ℕ)
      → i < 3
      → j < 5
      → s.loops i ≡ before j
      → t ≡ record s {
        client = (take_sequence s.client (i + 1)).1;
        loops = update s.loops i (holding j (take_sequence s.client (i + 1)).0);
      }
      → Step enabled u s t
  queues :
      (i j sequence : ℕ)
      → s.loops i ≡ holding j sequence
      → t ≡ record s {
        client = push_frame s.client (message_frame u (message_text (i + 1) j) (i + 1) sequence);
        loops = update s.loops i (before (j + 1));
      }
      → Step enabled u s t
  writes :
      (bytes : List ℕ) (c : Client)
      → write_frame enabled true s.client ≡ some (bytes, c)
      → t ≡ record s { client = c; socket = s.socket ++ bytes }
      → Step enabled u s t

pub data Reach (enabled : Bool) (u : ℕ) : Program → Type 0 where
  start :
      {s : Program}
      → s ≡ record { client = new_client; loops = λ i. before 0; socket = [] }
      → Reach enabled u s
  next : {s t : Program} → Reach enabled u s → Step enabled u s t → Reach enabled u t

-- Later states.
pub data Runs (enabled : Bool) (u : ℕ) : Program → Program → Type 0 where
  stays : {s t : Program} → t ≡ s → Runs enabled u s t
  steps : {s r t : Program} → Step enabled u s r → Runs enabled u r t → Runs enabled u s t

-- The three threads have ended and everything is written.
pub record IsFinished (s : Program) : Type 0 where
  pub first : s.loops 0 ≡ before 5
  pub second : s.loops 1 ≡ before 5
  pub third : s.loops 2 ≡ before 5
  pub all_written : s.client.outgoing_frames ≡ []
