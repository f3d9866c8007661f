-- ===== src/DemoClient/Stopping.antt =====
-- client.cpp, `stop`: the two threads of a client, and the thread that stops it. A call of recv may return
-- at any time, with data or without (the peer has closed the connection, or an error), and a wait on the
-- condition variable may end at any time (notified or not). How often either has happened is kept.
use tcp_test.Common.{ℕ, suc, ◌≤◌, ◌≡◌, Bool, true, false, if◌then◌else◌}

pub data ReaderState : Type 0 where
  receiving handling reader_done : ReaderState

pub data WriterState : Type 0 where
  waiting working writer_done : WriterState

pub data MainState : Type 0 where
  sleeping joining_reader joining_writer stopped : MainState

pub record Threads : Type 0 where
  pub main : MainState
  pub reader : ReaderState
  pub writer : WriterState
  pub running : Bool
  -- the frames in `outgoing_frames_`
  pub queued : ℕ
  pub socket_open : Bool
  -- the calls of recv that have returned, and the waits that have ended
  pub returns : ℕ
  pub wakeups : ℕ

-- The steps of the client.
pub data Step (s : Threads) (t : Threads) : Type 0 where
  -- `while (running_)` of the reader
  checks :
      s.reader ≡ handling
      → t ≡ record s { reader = if s.running then receiving else reader_done }
      → Step s t
  receives :
      s.reader ≡ receiving → t ≡ record s { reader = handling; returns = suc s.returns } → Step s t
  breaks :
      s.reader ≡ receiving
      → t ≡ record s { reader = reader_done; returns = suc s.returns }
      → Step s t
  -- `sendMessage`, before the client is stopped
  queues : s.main ≡ sleeping → t ≡ record s { queued = suc s.queued } → Step s t
  -- the writer sends a frame, waits for one, or leaves
  writes :
      (n : ℕ)
      → s.writer ≡ working
      → s.running ≡ true
      → s.queued ≡ suc n
      → t ≡ record s { queued = n }
      → Step s t
  waits :
      s.writer ≡ working
      → s.running ≡ true
      → s.queued ≡ 0
      → t ≡ record s { writer = waiting }
      → Step s t
  wakes : s.writer ≡ waiting → t ≡ record s { writer = working; wakeups = suc s.wakeups } → Step s t
  leaves : s.writer ≡ working → s.running ≡ false → t ≡ record s { writer = writer_done } → Step s t
  -- `stop`
  stops : s.main ≡ sleeping → t ≡ record s { main = joining_reader; running = false } → Step s t
  joins_reader :
      s.main ≡ joining_reader
      → s.reader ≡ reader_done
      → t ≡ record s { main = joining_writer }
      → Step s t
  joins_writer :
      s.main ≡ joining_writer
      → s.writer ≡ writer_done
      → t ≡ record s { main = stopped; socket_open = false }
      → Step s t

pub data Reach (s : Threads) : Threads → Type 0 where
  here : {t : Threads} → t ≡ s → Reach s t
  next : {t u : Threads} → Reach s t → Step t u → Reach s u

-- Whether `stop` has joined the reader, and whether it has got to its end.
abbrev past_reader : MainState → Bool
past_reader sleeping = false
past_reader joining_reader = false
past_reader joining_writer = true
past_reader stopped = true

abbrev at_end : MainState → Bool
at_end sleeping = false
at_end joining_reader = false
at_end joining_writer = false
at_end stopped = true

-- As long as no other call of recv than the first `n` has returned, `stop` has not got past the reader.
record InReceive (n : ℕ) (s : Threads) : Type 0 where
  least : n ≤ s.returns
  held :
      s.returns ≡ n → (s.reader ≡ receiving) × (past_reader s.main ≡ false) × (s.socket_open ≡ true)

-- The same for the waits of the writer.
record InWait (n : ℕ) (s : Threads) : Type 0 where
  least : n ≤ s.wakeups
  held : s.wakeups ≡ n → (s.writer ≡ waiting) × (at_end s.main ≡ false) × (s.socket_open ≡ true)
