-- ===== src/ClientHandler.antt =====
-- include/tcp_server.h, class TcpServer::ClientHandler: the buffer and the queue of one connection, its
-- reader and its writer. A thread is whether it is joinable; what `send` returns is a list, as in the
-- client, with every result but a count an error.
pub mod Writing
mod Tests
use tcp_test.Common.{
  ℕ, ◌+◌, Bool, true, false, not, Option, none, some, List, [], ◌∷◌, ◌++◌, length, take, drop, ltb,
  if◌then◌else◌, ℤ, pos, minus_one, is_negative,
}
use tcp_test.Frame.{Frame}
use tcp_test.Parser.{receive}
use tcp_test.TcpClient.{SendResult, sends, interrupted, failed, Call, shuts, closes, joins}

pub record ClientHandler : Type 0 where
  pub client_fd : ℤ
  pub running : Bool
  pub read_thread : Bool
  pub write_thread : Bool
  pub outgoing_queue : List (List ℕ)
  pub frame_buffer : List ℕ

unfoldable pub start : ClientHandler → ClientHandler
start h = if h.read_thread then h else record h { read_thread = true; write_thread = true }

-- The constructor starts both threads.
unfoldable pub new_handler : ℕ → ClientHandler
new_handler fd = start (record {
  client_fd = pos fd;
  running = true;
  read_thread = false;
  write_thread = false;
  outgoing_queue = [];
  frame_buffer = [];
})

unfoldable pub stop : ClientHandler → ClientHandler × List Call
stop h = (
  record h { running = false; client_fd = minus_one; read_thread = false; write_thread = false },
  (if is_negative h.client_fd then [] else shuts h.client_fd ∷ closes h.client_fd ∷ [])
      ++ ((if h.read_thread then joins ∷ [] else [])
          ++ (if h.write_thread then joins ∷ [] else [])),
)

unfoldable pub write : ClientHandler → List ℕ → Bool × ClientHandler
write h data_ = (true, record h { outgoing_queue = h.outgoing_queue ++ (data_ ∷ []) })

-- A round of `handleRead`: the frames for which the request callback is called, in order, each with the
-- client's id.
unfoldable pub own_all : ℤ → List Frame → List Frame
own_all id [] = []
own_all id (frame ∷ frames) = record frame { client_id = id } ∷ own_all id frames

unfoldable pub read_bytes : ℤ → ClientHandler → List ℕ → List Frame × ClientHandler
read_bytes id h bytes =
    let received = receive h.frame_buffer bytes in
    (own_all id received.frames, record h { frame_buffer = received.buffer })

-- How the sending of one or more buffers ends, with the bytes that went out: all of them, and the
-- results of `send` that are left; an error; or still in the loop after these results.
pub data SendEnd : Type 0 where
  complete : List ℕ → List SendResult → SendEnd
  broken unfinished : List ℕ → SendEnd

-- `while (total_sent < data.size())`
unfoldable pub send_loop : List ℕ → ℕ → List ℕ → List SendResult → SendEnd
send_loop data_ total_sent out [] =
    if ltb total_sent (length data_) then unfinished out else complete out []
send_loop data_ total_sent out (sends n ∷ more) =
    let rest = send_loop data_ (total_sent + n) (out ++ take n (drop total_sent data_)) more in
    if ltb total_sent (length data_) then rest else complete out (sends n ∷ more)
send_loop data_ total_sent out (interrupted ∷ more) =
    if ltb total_sent (length data_) then broken out else complete out (interrupted ∷ more)
send_loop data_ total_sent out (failed ∷ more) =
    if ltb total_sent (length data_) then broken out else complete out (failed ∷ more)

-- `for (const auto& data : pending_data)`
unfoldable pub send_pending : List (List ℕ) → List ℕ → List SendResult → SendEnd
send_pending [] out results = complete out results
send_pending (data_ ∷ pending) out results = elim (send_loop data_ 0 out results) [
  | complete out' more ↦ send_pending pending out' more
  | broken out' ↦ broken out'
  | unfinished out' ↦ unfinished out'
]

abbrev pub bytes_sent : SendEnd → List ℕ
bytes_sent (complete out more) = out
bytes_sent (broken out) = out
bytes_sent (unfinished out) = out

abbrev pub is_complete : SendEnd → Bool
is_complete (complete out more) = true
is_complete (broken out) = false
is_complete (unfinished out) = false

abbrev pub is_broken : SendEnd → Bool
is_broken (complete out more) = false
is_broken (broken out) = true
is_broken (unfinished out) = false

-- A round of `handleWrite`: the whole queue is taken and sent; an error ends the writer. `none` while
-- it waits, or once the handler has stopped.
unfoldable pub write_round : ClientHandler → List SendResult → Option (SendEnd × ClientHandler)
write_round h results = elim h.outgoing_queue [
  | [] ↦ none
  | data_ ∷ pending ↦
      let sent = send_pending (data_ ∷ pending) [] results in
      if h.running
      then some (sent, record h { outgoing_queue = []; running = not (is_broken sent) })
      else none
]
