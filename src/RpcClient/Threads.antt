-- ===== src/RpcClient/Threads.antt =====
-- The threads of src/rpc_client.cpp, which share one TcpClient: every thread makes the request of
-- `sendTestMessages`, and the critical sections of `sendAndWaitResponse` interleave with those of the
-- other threads, with the server of src/rpc_server.cpp and with the reader. A request that `write` has
-- sent reaches the server whole, and its answer the reader, as long as no write has failed after a part
-- of its frame went out; behind such a part the server may read anything.
pub mod Invariant
pub mod Ready
pub mod Numbers
pub mod Steps
pub mod Network
pub mod Isolation
mod Tests
use tcp_test.Common.{
  ℕ, zero, suc, ◌+◌, ◌<◌, ◌≡◌, Bool, true, false, Option, none, some, List, [], ◌∷◌, ◌++◌, ◌==◌,
  update, if◌then◌else◌, ℤ,
}
use tcp_test.Common.Text.{Text}
use tcp_test.Common.OrdMap.{find}
use tcp_test.Frame.{Frame, serialize, is_empty}
use tcp_test.TcpClient.{
  TcpClient, new_client, connect, get_next_stream_id, register, unregister, deliver, request_frame,
  SendResult, write, wrote, refused,
}
use tcp_test.RpcServer.Answers.{answer}
use tcp_test.RpcClient.{Printed, got_response, no_response, test_message}

-- Where a thread is: before its request, with a stream id, with a registered promise, in the wait,
-- after a timeout, or behind the request with what it prints.
pub data Phase : Type 0 where
  ready : Phase
  numbered : ℕ → Phase
  registered waiting : ℕ → ℕ → Phase
  timed_out : ℕ → Phase
  done : Printed → Phase

-- The client, the threads from 0 on, the requests that were sent and the answers that come back, and
-- whether a part of a frame is on the connection.
pub record Session : Type 0 where
  pub client : TcpClient
  pub phases : ℕ → Phase
  pub requests : List Frame
  pub responses : List Frame
  pub torn : Bool

-- The message of the thread `k`, which has the id k + 1.
abbrev pub message_of : ℕ → Text
message_of k = test_message (k + 1) (k + 1)

-- The steps of `n` threads, of the server and of the reader.
pub data Step (n : ℕ) (enabled : Bool) (u u' : ℕ) (s : Session) (t : Session) : Type 0 where
  takes :
      (k : ℕ)
      → k < n
      → s.phases k ≡ ready
      → t ≡ record s {
        client = (get_next_stream_id s.client).1;
        phases = update s.phases k (numbered (get_next_stream_id s.client).0);
      }
      → Step n enabled u u' s t
  registers :
      (k id : ℕ)
      → s.phases k ≡ numbered id
      → t ≡ record s {
        client = (register s.client id).1;
        phases = update s.phases k (registered id (register s.client id).0);
      }
      → Step n enabled u u' s t
  sends :
      (k id promise : ℕ) (results : List SendResult) (out : List ℕ)
      → s.phases k ≡ registered id promise
      → write (serialize enabled (request_frame u id (message_of k))) results ≡ wrote out
      → t ≡ record s {
        phases = update s.phases k (waiting id promise);
        requests = s.requests ++ (request_frame u id (message_of k) ∷ []);
      }
      → Step n enabled u u' s t
  fails :
      (k id promise : ℕ) (results : List SendResult) (out : List ℕ)
      → s.phases k ≡ registered id promise
      → write (serialize enabled (request_frame u id (message_of k))) results ≡ refused out
      → t ≡ record s {
        client = unregister s.client id;
        phases = update s.phases k (done (no_response (k + 1)));
        torn = if is_empty out then s.torn else true;
      }
      → Step n enabled u u' s t
  -- what the server reads behind a part of a frame
  garbles :
      (requests : List Frame)
      → s.torn ≡ true
      → t ≡ record s { requests = requests }
      → Step n enabled u u' s t
  serves :
      (f : Frame) (rest : List Frame)
      → s.requests ≡ f ∷ rest
      → t ≡ record s { requests = rest; responses = s.responses ++ (answer u' f ∷ []) }
      → Step n enabled u u' s t
  delivers :
      (f : Frame) (rest : List Frame) (c : TcpClient)
      → s.responses ≡ f ∷ rest
      → deliver s.client f ≡ some c
      → t ≡ record s { client = c; responses = rest }
      → Step n enabled u u' s t
  returns :
      (k id promise : ℕ) (response : Text)
      → s.phases k ≡ waiting id promise
      → find promise s.client.values ≡ some response
      → t ≡ record s { phases = update s.phases k (done (got_response (k + 1) response)) }
      → Step n enabled u u' s t
  times_out :
      (k id promise : ℕ)
      → s.phases k ≡ waiting id promise
      → find promise s.client.values ≡ none
      → t ≡ record s { phases = update s.phases k (timed_out id) }
      → Step n enabled u u' s t
  gives_up :
      (k id : ℕ)
      → s.phases k ≡ timed_out id
      → t ≡ record s {
        client = unregister s.client id;
        phases = update s.phases k (done (no_response (k + 1)));
      }
      → Step n enabled u u' s t

-- From a new client that has connected.
pub data Reach (n : ℕ) (enabled : Bool) (u u' : ℕ) : Session → Type 0 where
  start :
      {t : Session} (descriptor : ℤ) (address : Bool) (connected : ℤ)
      → (connect new_client descriptor address connected).0 ≡ true
      → t ≡ record {
        client = (connect new_client descriptor address connected).1;
        phases = λ _. ready;
        requests = [];
        responses = [];
        torn = false;
      }
      → Reach n enabled u u' t
  next : {s t : Session} → Reach n enabled u u' s → Step n enabled u u' s t → Reach n enabled u u' t
