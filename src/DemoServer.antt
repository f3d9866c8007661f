-- ===== src/DemoServer.antt =====
-- server.cpp, class Server: five large responses to every frame, a reader that cuts frames off its
-- buffer by a loop of its own, and a writer that polls the queue. The members of a response that the
-- code leaves uninitialised are an argument; the pauses have no effect on the state.
pub mod Reading
pub mod Responses
pub mod Exchange
pub mod Startup
pub mod Serving
mod Tests
use tcp_test.Common.{
  ℕ, zero, suc, ◌+◌, ◌*◌, ◌%◌, ◌^◌, Bool, true, false, Option, none, some, List, [], ◌∷◌, ◌++◌,
  length, take, drop, replicate, leb, if◌then◌else◌, ok, err, minus_one,
}
use tcp_test.Frame.{Frame, header_size, get_word, deserialize, serialize}
use tcp_test.StreamManager.{StreamManager, send_frame, has_outgoing_frames, get_next_outgoing_frame}

-- `std::string response_data(4096, 'A')`
unfoldable pub response_data : List ℕ
response_data = replicate 4096 65

unfoldable pub response_to : ℕ → Frame → ℕ → Frame
response_to uninitialised frame i = record {
  length = length response_data % 2 ^ 32;
  stream_id = frame.stream_id;
  sequence = (frame.sequence * 5 + i) % 2 ^ 32;
  checksum = uninitialised;
  payload = response_data;
  client_id = minus_one;
}

-- The counted loop, with the rounds that are left.
pub respond : ℕ → ℕ → ℕ → Frame → StreamManager → StreamManager
respond uninitialised zero i frame m = m
respond uninitialised (suc rounds) i frame m =
    respond uninitialised rounds (i + 1) frame (send_frame m (response_to uninitialised frame i))

pub handle_frame : ℕ → StreamManager → Frame → StreamManager
handle_frame uninitialised m frame = respond uninitialised 5 0 frame m

-- How the reader's inner loop ends: it waits for more with what is left in the buffer, `deserialize`
-- throws out of the thread, or (never, by the theorems) the fuel is used up.
pub data ReadEnd : Type 0 where
  waiting : StreamManager → List ℕ → ReadEnd
  thrown stuck : ReadEnd

-- `while (frame_buffer.size() >= Frame::HEADER_SIZE)`
pub read_loop : ℕ → ℕ → StreamManager → List ℕ → ReadEnd
read_loop uninitialised zero m buffer = stuck
read_loop uninitialised (suc fuel) m buffer =
    let frame_size = header_size + get_word buffer 0 in
    elim (leb header_size (length buffer)) [
      | true ↦ elim (leb frame_size (length buffer)) [
        | true ↦ elim (deserialize (take frame_size buffer)) [
          | ok frame ↦
              read_loop uninitialised fuel (handle_frame uninitialised m frame)
                (drop frame_size buffer)
          | err e ↦ thrown
        ]
        | false ↦ waiting m buffer
      ]
      | false ↦ waiting m buffer
    ]

-- `handleRead` over what `recv` returns until the connection ends. Every round takes sixteen bytes at
-- least, so the buffer's length is more fuel than the inner loop needs.
pub handle_read : ℕ → StreamManager → List ℕ → List (List ℕ) → ReadEnd
handle_read uninitialised m buffer [] = waiting m buffer
handle_read uninitialised m buffer (bytes ∷ more) =
    elim (read_loop uninitialised (suc (length (buffer ++ bytes))) m (buffer ++ bytes)) [
      | waiting m' buffer' ↦ handle_read uninitialised m' buffer' more
      | thrown ↦ thrown
      | stuck ↦ stuck
    ]

-- One round of `handleWrite`: the bytes that it gives to `send`, if any.
pub write_round : Bool → StreamManager → Option (List ℕ) × StreamManager
write_round enabled m =
    if has_outgoing_frames m
    then (elim (get_next_outgoing_frame m) [
      | none ↦ (none, m)
      | some (frame, m') ↦ (some (serialize enabled frame), m')
    ])
    else (none, m)

abbrev pub bytes_of : Option (List ℕ) → List ℕ
bytes_of none = []
bytes_of (some bytes) = bytes

-- Several rounds, and all the bytes sent in them.
pub write_rounds : ℕ → Bool → StreamManager → List ℕ × StreamManager
write_rounds zero enabled m = ([], m)
write_rounds (suc n) enabled m =
    let (out, m') = write_round enabled m in
    let (later, m'') = write_rounds n enabled m' in (bytes_of out ++ later, m'')
