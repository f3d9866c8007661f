-- ===== src/DemoClient.antt =====
-- client.cpp, class Client: numbered messages, and a reader that checks, counts and reorders what
-- arrives. Message texts are lists of bytes; printing a message is an entry of a list.
pub mod Arrivals
pub mod Sending
pub mod Sessions
pub mod Messages
pub mod Stopping
pub mod Conversation
pub mod Main
mod Tests
use tcp_test.Common.{
  ℕ, ◌+◌, ◌%◌, ◌^◌, Bool, true, false, Option, none, some, List, [], ◌∷◌, ◌++◌, length,
  if◌then◌else◌, minus_one,
}
use tcp_test.Common.OrdMap.{OrdMap, find_or, assign}
use tcp_test.Frame.{Frame, verify_checksum, serialize}
use tcp_test.Parser.{receive}
use tcp_test.Reorder.{lane_add}

-- The members that the sending threads and the writer share.
pub record Client : Type 0 where
  pub next_sequence : OrdMap ℕ
  pub outgoing_frames : List Frame

abbrev pub new_client : Client
new_client = record { next_sequence = []; outgoing_frames = [] }

-- `frame.sequence = next_sequence_[stream_id]++`, under `sequence_mutex_`.
pub take_sequence : Client → ℕ → ℕ × Client
take_sequence c stream_id =
    let sequence = find_or 0 stream_id c.next_sequence in
    (
      sequence,
      record c { next_sequence = assign stream_id ((sequence + 1) % 2 ^ 32) c.next_sequence },
    )

-- The frame of a message; its checksum is left uninitialised.
pub message_frame : ℕ → List ℕ → ℕ → ℕ → Frame
message_frame uninitialised message stream_id sequence = record {
  length = length message % 2 ^ 32;
  stream_id = stream_id;
  sequence = sequence;
  checksum = uninitialised;
  payload = message;
  client_id = minus_one;
}

-- `outgoing_frames_.push(frame)`, under `mutex_`.
pub push_frame : Client → Frame → Client
push_frame c frame = record c { outgoing_frames = c.outgoing_frames ++ (frame ∷ []) }

pub send_message : ℕ → Client → List ℕ → ℕ → Client
send_message uninitialised c message stream_id =
    let (sequence, c') = take_sequence c stream_id in
    push_frame c' (message_frame uninitialised message stream_id sequence)

-- A round of `handleWrite`: `none` while it waits or once the client has stopped.
pub write_frame : Bool → Bool → Client → Option (List ℕ × Client)
write_frame enabled running c = elim c.outgoing_frames [
  | [] ↦ none
  | frame ∷ frames ↦
      if running
      then some (serialize enabled frame, record c { outgoing_frames = frames })
      else none
]

-- The locals of `handleRead`, and the frames whose messages were printed.
pub record Reader : Type 0 where
  pub stream_frames : OrdMap (OrdMap Frame)
  pub next_sequence : OrdMap ℕ
  pub total_frames : ℕ
  pub valid_frames : ℕ
  pub invalid_frames : ℕ
  pub printed : List Frame

abbrev pub new_reader : Reader
new_reader = record {
  stream_frames = [];
  next_sequence = [];
  total_frames = 0;
  valid_frames = 0;
  invalid_frames = 0;
  printed = [];
}

-- A frame with a valid checksum is queued, and what is in order is printed.
pub print_in_order : Reader → Frame → Reader
print_in_order r frame =
    let d =
      lane_add
        (record {
          queue = find_or [] frame.stream_id r.stream_frames;
          next = find_or 0 frame.stream_id r.next_sequence;
        })
        frame in
    record r {
      stream_frames = assign frame.stream_id d.lane.queue r.stream_frames;
      next_sequence = assign frame.stream_id d.lane.next r.next_sequence;
      printed = r.printed ++ d.delivered;
    }

-- The body of the loop over the completed frames.
pub accept_frame : Bool → Reader → Frame → Reader
accept_frame enabled r frame =
    let counted : Reader = record r { total_frames = (r.total_frames + 1) % 2 ^ 32 } in
    if verify_checksum enabled frame
    then print_in_order (record counted { valid_frames = (counted.valid_frames + 1) % 2 ^ 32 })
        frame
    else record counted { invalid_frames = (counted.invalid_frames + 1) % 2 ^ 32 }

pub accept_frames : Bool → Reader → List Frame → Reader
accept_frames enabled r [] = r
accept_frames enabled r (frame ∷ frames) =
    accept_frames enabled (accept_frame enabled r frame) frames

-- `handleRead` over what `recv` returns until the connection ends: the reader at the statistics.
pub handle_read : Bool → Reader → List ℕ → List (List ℕ) → Reader
handle_read enabled r frame_buffer [] = r
handle_read enabled r frame_buffer (bytes ∷ more) =
    let received = receive frame_buffer bytes in
    handle_read enabled (accept_frames enabled r received.frames) received.buffer more
