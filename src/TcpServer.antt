-- ===== src/TcpServer.antt =====
-- include/tcp_server.h, class TcpServer: the listening socket, the table of the connections, and the
-- callbacks, each call of which is an entry of a list. A stream processor is its queue of frames. A client's id is its descriptor.
pub mod Clients
pub mod Accepting
pub mod Processor
pub mod Streams
mod Tests
use tcp_test.Common.{
  ℕ, ◌%◌, ◌^◌, Bool, true, false, not, ◌||◌, ◌&&◌, Option, none, some, List, [], ◌∷◌, ◌++◌, length,
  if◌then◌else◌, ℤ, pos, minus_one, is_negative,
}
use tcp_test.Common.OrdMap.{OrdMap, find, find_or, assign, erase}
use tcp_test.Frame.{Frame, serialize, verify_checksum}
use tcp_test.Parser.{receive}
use tcp_test.Handler.{create_frame}
use tcp_test.TcpClient.{SendResult, Call, opens, closes, shuts}
use tcp_test.ClientHandler
use tcp_test.ClientHandler.{ClientHandler, new_handler, SendEnd, read_bytes, write_round, own_all}

pub record TcpServer : Type 0 where
  pub sock_fd : ℤ
  pub running : Bool
  pub clients : OrdMap ClientHandler
  pub client_buffers : OrdMap (List ℕ)
  pub disconnect_queue : List ℕ
  pub stream_processors : OrdMap (List Frame)
  pub has_connect_callback : Bool
  pub has_request_callback : Bool
  pub has_checksum_callback : Bool
  pub read_buffer_size : ℕ

abbrev pub new_server : TcpServer
new_server = record {
  sock_fd = minus_one;
  running = false;
  clients = [];
  client_buffers = [];
  disconnect_queue = [];
  stream_processors = [];
  has_connect_callback = false;
  has_request_callback = false;
  has_checksum_callback = false;
  read_buffer_size = 1024;
}

-- The setters; a callback is whether it is set.
unfoldable pub set_request_callback : TcpServer → Bool → TcpServer
set_request_callback s cb = record s { has_request_callback = cb }

unfoldable pub set_connect_callback : TcpServer → Bool → TcpServer
set_connect_callback s cb = record s { has_connect_callback = cb }

unfoldable pub set_checksum_callback : TcpServer → Bool → TcpServer
set_checksum_callback s cb = record s { has_checksum_callback = cb }

unfoldable pub set_read_buffer_size : TcpServer → ℕ → TcpServer
set_read_buffer_size s size = record s { read_buffer_size = size }

-- `start`, with the results of `socket`, `bind` and `listen`.
unfoldable pub start : TcpServer → ℤ → ℤ → ℤ → Bool × TcpServer × List Call
start s fd bound listening =
    let failed_ : TcpServer = record s { sock_fd = minus_one } in
    if s.running
    then (false, s, [])
    else if is_negative fd
    then (false, s, [])
    else if is_negative bound
    then (false, failed_, opens fd ∷ closes fd ∷ [])
    else if is_negative listening
    then (false, failed_, opens fd ∷ closes fd ∷ [])
    else (true, record s { sock_fd = fd; running = true }, opens fd ∷ [])

-- Calls of the connect callback.
pub data Notice : Type 0 where
  connects disconnects : ℕ → Notice

-- A step of the server: it goes on, or the program is terminated, since a `std::thread` is destroyed
-- while it is joinable.
pub data Outcome : Type 0 where
  continues : TcpServer → List Notice → Outcome
  terminated : List Notice → Outcome

-- Whether destroying a connection destroys a joinable thread; `ClientHandler` has no destructor.
unfoldable pub has_threads : ClientHandler → Bool
has_threads h = h.read_thread || h.write_thread

unfoldable pub any_threads : OrdMap ClientHandler → Bool
any_threads [] = false
any_threads ((id, h) ∷ clients) = has_threads h || any_threads clients

-- `stop`, but for joining the server's own threads.
unfoldable pub stop : TcpServer → Outcome × List Call
stop s =
    let calls = (if is_negative s.sock_fd then [] else shuts s.sock_fd ∷ closes s.sock_fd ∷ []) in
    let stopped : TcpServer = record s {
      running = false;
      sock_fd = minus_one;
      stream_processors = [];
      clients = [];
      client_buffers = [];
    } in
    if not s.running
    then (continues s [], [])
    else if any_threads s.clients
    then (terminated [], calls)
    else (continues stopped [], calls)

abbrev pub notify : TcpServer → Notice → List Notice
notify s notice = if s.has_connect_callback then notice ∷ [] else []

-- A round of `acceptLoop` in which `accept` succeeds. An entry that is there is destroyed.
unfoldable pub accept_client : TcpServer → ℕ → Outcome
accept_client s client_fd =
    let s' : TcpServer = record s {
      clients = assign client_fd (new_handler client_fd) s.clients;
    } in
    elim (find client_fd s.clients) [
      | none ↦ continues s' (notify s (connects client_fd))
      | some h ↦
          if has_threads h then terminated [] else continues s' (notify s (connects client_fd))
    ]

-- The callback, then the two `erase`; `disconnectWorker` does the same with an id of its queue.
unfoldable pub handle_client_disconnect : TcpServer → ℕ → Outcome
handle_client_disconnect s client_id =
    let s' : TcpServer = record s {
      clients = erase client_id s.clients;
      client_buffers = erase client_id s.client_buffers;
    } in
    elim (find client_id s.clients) [
      | none ↦ continues s' (notify s (disconnects client_id))
      | some h ↦
          if has_threads h
          then terminated (notify s (disconnects client_id))
          else continues s' (notify s (disconnects client_id))
    ]

unfoldable pub schedule_client_disconnect : TcpServer → ℕ → TcpServer
schedule_client_disconnect s client_id = record s {
  disconnect_queue = s.disconnect_queue ++ (client_id ∷ []);
}

-- A round of `disconnectWorker`.
unfoldable pub disconnect_worker : TcpServer → Outcome
disconnect_worker s = elim s.disconnect_queue [
  | [] ↦ continues s []
  | client_id ∷ more ↦ handle_client_disconnect (record s { disconnect_queue = more }) client_id
]

-- `response`: the checksum that `calculateChecksum` returns is dropped, so the member stays
-- uninitialised until `serialize` computes it again.
unfoldable pub response : Bool → ℕ → TcpServer → ℕ → ℕ → ℕ → List ℕ → TcpServer
response enabled uninitialised s client_id stream_id sequence payload =
    let frame_data = serialize enabled (create_frame uninitialised stream_id sequence payload) in
    elim (find client_id s.clients) [
      | none ↦ s
      | some h ↦
          let (queued, h') = ClientHandler.write h frame_data in
          record s { clients = assign client_id h' s.clients }
    ]

-- What a connection's reader makes of bytes: the frames for which the request callback is called.
unfoldable pub read_client : TcpServer → ℕ → List ℕ → List Frame × TcpServer
read_client s client_id bytes = elim (find client_id s.clients) [
  | none ↦ ([], s)
  | some h ↦
      let (frames, h') = read_bytes (pos client_id) h bytes in
      (frames, record s { clients = assign client_id h' s.clients })
]

-- A round of a connection's writer.
unfoldable pub write_client : TcpServer → ℕ → List SendResult → Option (SendEnd × TcpServer)
write_client s client_id results = elim (find client_id s.clients) [
  | none ↦ none
  | some h ↦ elim (write_round h results) [
    | none ↦ none
    | some (sent, h') ↦ some (sent, record s { clients = assign client_id h' s.clients })
  ]
]

-- `StreamProcessor::addFrame`, on the stream's processor, which is made if it is missing.
unfoldable pub add_frame : TcpServer → Frame → TcpServer
add_frame s frame = record s {
  stream_processors =
      assign frame.stream_id (find_or [] frame.stream_id s.stream_processors ++ (frame ∷ []))
        s.stream_processors;
}

unfoldable pub add_frames : TcpServer → List Frame → TcpServer
add_frames s [] = s
add_frames s (frame ∷ frames) = add_frames (add_frame s frame) frames

unfoldable pub process_incoming_data : TcpServer → ℕ → List ℕ → TcpServer
process_incoming_data s client_id data_ =
    let received = receive (find_or [] client_id s.client_buffers) data_ in
    let s' : TcpServer = record s {
      client_buffers = assign client_id received.buffer s.client_buffers;
    } in
    elim (find client_id s.clients) [
      | none ↦ s
      | some h ↦ add_frames s' (own_all (pos client_id) received.frames)
    ]

-- Calls of the checksum callback and of the request callback.
pub data StreamCall : Type 0 where
  checks : Bool → ℕ → ℕ → StreamCall
  requests : ℤ → ℕ → ℕ → List ℕ → StreamCall

-- A round of `processLoop` with a frame of the queue; the three Booleans are `Frame::enable_checksum`
-- and whether the two callbacks are set.
unfoldable pub process_frame : Bool → Bool → Bool → Frame → List StreamCall
process_frame enabled has_checksum_callback has_request_callback frame =
    let checked =
      (if has_checksum_callback
        then checks (verify_checksum enabled frame) frame.stream_id frame.sequence ∷ []
        else []) in
    let requested =
      (if has_request_callback && not (is_negative frame.client_id)
        then requests frame.client_id frame.stream_id frame.sequence frame.payload ∷ []
        else []) in
    if verify_checksum enabled frame then checked ++ requested else checked

-- The loop over a queue, while `running`.
unfoldable pub process_frames : Bool → Bool → Bool → List Frame → List StreamCall
process_frames enabled has_checksum_callback has_request_callback [] = []
process_frames enabled has_checksum_callback has_request_callback (frame ∷ frames) =
    process_frame enabled has_checksum_callback has_request_callback frame
    ++ process_frames enabled has_checksum_callback has_request_callback frames

-- A round of `cleanupInactiveStreams`: the processors that only the map refers to are erased, each with
-- its queue. `held` says which have another reference.
unfoldable pub cleanup_streams : (ℕ → Bool) → OrdMap (List Frame) → OrdMap (List Frame)
cleanup_streams held [] = []
cleanup_streams held ((stream_id, queue) ∷ processors) =
    let rest = cleanup_streams held processors in
    if held stream_id then (stream_id, queue) ∷ rest else rest

unfoldable pub cleanup_inactive_streams : (ℕ → Bool) → TcpServer → TcpServer
cleanup_inactive_streams held s = record s {
  stream_processors = cleanup_streams held s.stream_processors;
}
