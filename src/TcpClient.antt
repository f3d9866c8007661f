-- ===== src/TcpClient.antt =====
-- include/tcp_client.h, class TcpClient: requests with a response handler each, a write loop over
-- `send`, and a reader that hands payloads to the handlers. An id is the bit pattern of its `int`. A
-- promise is a number, in the order of creation, with the value that it was set to. What the system
-- calls return is an argument; `send` and `recv` results are lists.
pub mod Connection
pub mod Waiting
pub mod Deliveries
pub mod Handlers
pub mod Requests
pub mod Responses
mod Tests
use tcp_test.Common.{
  ℕ, ◌+◌, ◌-◌, ◌%◌, ◌^◌, Bool, true, false, not, Option, none, some, List, [], ◌∷◌, ◌++◌, length,
  take, drop, ltb, if◌then◌else◌, ℤ, minus_one, is_negative,
}
use tcp_test.Common.OrdMap.{OrdMap, find, assign, erase}
use tcp_test.Frame.{Frame, serialize}
use tcp_test.Parser.{receive}

pub record TcpClient : Type 0 where
  pub socket : ℤ
  pub running : Bool
  pub joinable : Bool
  pub next_stream_id : ℕ
  pub response_handlers : OrdMap ℕ
  pub promises : ℕ
  pub values : OrdMap (List ℕ)

abbrev pub new_client : TcpClient
new_client = record {
  socket = minus_one;
  running = false;
  joinable = false;
  next_stream_id = 0;
  response_handlers = [];
  promises = 0;
  values = [];
}

-- The system calls on descriptors, in their order, and a started thread.
pub data Call : Type 0 where
  opens closes shuts : ℤ → Call
  spawns joins terminates : Call

-- `connect`, with the results of `socket`, `inet_pton` (is it positive?) and `::connect`. Assigning to
-- a thread that is joinable terminates the program.
unfoldable pub connect : TcpClient → ℤ → Bool → ℤ → Bool × TcpClient × List Call
connect c descriptor address connected =
    let c' : TcpClient = record c { socket = descriptor } in
    let c₋ : TcpClient = record c { socket = minus_one } in
    let started : TcpClient = record c' { running = true; joinable = true } in
    if not (is_negative c.socket)
    then (false, c, [])
    else if is_negative descriptor
    then (false, c', [])
    else if not address
    then (false, c₋, opens descriptor ∷ closes descriptor ∷ [])
    else if is_negative connected
    then (false, c₋, opens descriptor ∷ closes descriptor ∷ [])
    else (true, started, opens descriptor ∷ (if c.joinable then terminates else spawns) ∷ [])

unfoldable pub disconnect : TcpClient → TcpClient × List Call
disconnect c = (
  record c {
    socket = if is_negative c.socket then c.socket else minus_one;
    running = false;
    joinable = false;
    response_handlers = [];
  },
  (if is_negative c.socket then [] else shuts c.socket ∷ closes c.socket ∷ [])
      ++ (if c.joinable then joins ∷ [] else []),
)

-- `next_stream_id_++`
unfoldable pub get_next_stream_id : TcpClient → ℕ × TcpClient
get_next_stream_id c =
    (c.next_stream_id, record c { next_stream_id = (c.next_stream_id + 1) % 2 ^ 32 })

-- A new promise, stored under the id: the promise, and the client.
unfoldable pub register : TcpClient → ℕ → ℕ × TcpClient
register c stream_id = (
  c.promises,
  record c {
    promises = c.promises + 1;
    response_handlers = assign stream_id c.promises c.response_handlers;
  },
)

-- `response_handlers_.erase(stream_id)`
unfoldable pub unregister : TcpClient → ℕ → TcpClient
unregister c stream_id = record c { response_handlers = erase stream_id c.response_handlers }

-- The loop body over the completed frames of `handleRead`; `none` where `set_value` throws out of the
-- thread, on a promise that has a value.
unfoldable pub deliver : TcpClient → Frame → Option TcpClient
deliver c frame = elim (find frame.stream_id c.response_handlers) [
  | none ↦ some c
  | some promise ↦ elim (find promise c.values) [
    | some value ↦ none
    | none ↦ some (record c {
      values = assign promise frame.payload c.values;
      response_handlers = erase frame.stream_id c.response_handlers;
    })
  ]
]

unfoldable pub deliver_all : TcpClient → List Frame → Option TcpClient
deliver_all c [] = some c
deliver_all c (frame ∷ frames) = elim (deliver c frame) [
  | none ↦ none
  | some c' ↦ deliver_all c' frames
]

-- `handleRead`; a call of `recv` that was interrupted is no bytes, which the parser passes over.
unfoldable pub handle_read : TcpClient → List ℕ → List (List ℕ) → Option TcpClient
handle_read c frame_buffer [] = some c
handle_read c frame_buffer (bytes ∷ more) =
    let received = receive frame_buffer bytes in
    elim (deliver_all c received.frames) [
      | none ↦ none
      | some c' ↦ handle_read c' received.buffer more
    ]

-- What `send` returns: a positive count, or an error, which is EINTR or another.
pub data SendResult : Type 0 where
  sends : ℕ → SendResult
  interrupted failed : SendResult

-- How `write` ends: `true`, `false`, or it is still in the loop after these results. Each keeps the
-- bytes that went out.
pub data WriteEnd : Type 0 where
  wrote refused blocked : List ℕ → WriteEnd

-- The loop of `write`, with `total_sent`. A call of `send` with the count n takes the first n of the
-- bytes it is given.
unfoldable pub write_loop : List ℕ → ℕ → List ℕ → List SendResult → WriteEnd
write_loop data_ total_sent out [] =
    if ltb total_sent (length data_) then blocked out else wrote out
write_loop data_ total_sent out (sends n ∷ more) =
    let rest = write_loop data_ (total_sent + n) (out ++ take n (drop total_sent data_)) more in
    if ltb total_sent (length data_) then rest else wrote out
write_loop data_ total_sent out (interrupted ∷ more) =
    let rest = write_loop data_ total_sent out more in
    if ltb total_sent (length data_) then rest else wrote out
write_loop data_ total_sent out (failed ∷ more) =
    if ltb total_sent (length data_) then refused out else wrote out

unfoldable pub write : List ℕ → List SendResult → WriteEnd
write data_ results = write_loop data_ 0 [] results

-- The frame of a request; `calculateChecksum` does not store, so the checksum stays uninitialised.
unfoldable pub request_frame : ℕ → ℕ → List ℕ → Frame
request_frame uninitialised stream_id payload = record {
  length = length payload % 2 ^ 32;
  stream_id = stream_id;
  sequence = 1;
  checksum = uninitialised;
  payload = payload;
  client_id = minus_one;
}

-- How `sendAndWaitResponse` ends: with the response, without one (`false`), or it does not return, as
-- `write` is still in its loop or the reader has thrown.
pub data RequestEnd : Type 0 where
  answered : List ℕ → TcpClient → RequestEnd
  unanswered : TcpClient → RequestEnd
  pending : RequestEnd

-- `wait_for` after the reader has delivered the frames `during` the wait; after a timeout it may
-- deliver the frames `late` before the handler is erased.
unfoldable pub wait_response : TcpClient → ℕ → ℕ → List Frame → List Frame → RequestEnd
wait_response c promise stream_id during late = elim (deliver_all c during) [
  | none ↦ pending
  | some c' ↦ elim (find promise c'.values) [
    | some value ↦ answered value c'
    | none ↦ elim (deliver_all c' late) [
      | none ↦ pending
      | some c'' ↦ unanswered (unregister c'' stream_id)
    ]
  ]
]

-- `sendAndWaitResponse`: the id, and the end.
unfoldable pub send_and_wait_response :
    Bool → ℕ → TcpClient → List ℕ → List SendResult → List Frame → List Frame → ℕ × RequestEnd
send_and_wait_response enabled uninitialised c payload results during late =
    let (stream_id, c') = get_next_stream_id c in
    let (promise, c'') = register c' stream_id in
    (
      stream_id,
      elim (write (serialize enabled (request_frame uninitialised stream_id payload)) results) [
        | wrote out ↦ wait_response c'' promise stream_id during late
        | refused out ↦ unanswered (unregister c'' stream_id)
        | blocked out ↦ pending
      ],
    )
