-- ===== src/Handler.antt =====
-- include/frame_handler.h, class FrameHandler: a buffer, the loop that feeds it to the parser, and a
-- callback. A call of the callback is an entry of a list, in the order of the calls; whether a
-- callback is set is a Boolean. `Frame::enable_checksum` is an argument.
pub mod Replay
pub mod Limit
mod Tests
use tcp_test.Common.{
  ℕ, zero, suc, ◌+◌, ◌*◌, ◌%◌, ◌^◌, ◌≡◌, Bool, true, false, List, [], ◌∷◌, ◌++◌, length, drop, ltb,
  ◌==◌, if◌then◌else◌, minus_one,
}
use tcp_test.Frame.{Frame, is_empty, verify_checksum}
use tcp_test.Parser.{process_data}

abbrev pub max_buffer_size : ℕ
max_buffer_size = 10 * 1024 * 1024

abbrev pub max_iterations : ℕ
max_iterations = 1000

pub record Handler : Type 0 where
  pub frame_buffer : List ℕ
  pub has_callback : Bool

-- The end of a call: it returns, or `erase` is given an end behind the buffer's end, which is
-- undefined behaviour. Both keep the frames that the callback was called with.
pub data Outcome : Type 0 where
  returned : Handler → List Frame → Outcome
  overrun : List Frame → Outcome

-- The `for` over the frames of one round: invalid checksums are skipped.
pub dispatch : Bool → Bool → List Frame → List Frame
dispatch enabled has_callback [] = []
dispatch enabled has_callback (f ∷ fs) =
    let rest = dispatch enabled has_callback fs in
    if verify_checksum enabled f then (if has_callback then f ∷ rest else rest) else rest

pub record Progress : Type 0 where
  pub bytes_consumed : ℕ
  pub calls : List Frame

-- The `do … while` loop. The number counts the rounds that `iteration_count` still allows, and at 0 is
-- the `break` behind the warning. Every round parses the buffer from its beginning.
pub handle_loop : ℕ → Bool → Handler → Progress → Progress
handle_loop zero enabled h p = p
handle_loop (suc rounds) enabled h p =
    let parsed = process_data h.frame_buffer in
    let p' : Progress = record {
      bytes_consumed = p.bytes_consumed + parsed.consumed;
      calls = p.calls ++ dispatch enabled h.has_callback parsed.frames;
    } in
    let next = handle_loop rounds enabled h p' in
    if parsed.consumed == 0
    then p
    else if ltb p'.bytes_consumed (length h.frame_buffer)
    then next
    else p'

-- The `erase` behind the loop.
pub erase_consumed : Handler → Progress → Outcome
erase_consumed h p =
    if ltb 0 p.bytes_consumed
    then if ltb (length h.frame_buffer) p.bytes_consumed
      then overrun p.calls
      else returned (record h { frame_buffer = drop p.bytes_consumed h.frame_buffer }) p.calls
    else returned h p.calls

-- `iteration_count++ > MAX_ITERATIONS` lets `max_iterations + 1` rounds pass.
pub process_incoming_data : Bool → Handler → List ℕ → Outcome
process_incoming_data enabled h data_ =
    let h' : Handler = record h { frame_buffer = h.frame_buffer ++ data_ } in
    let looped =
      erase_consumed h'
        (handle_loop (suc max_iterations) enabled h' (record { bytes_consumed = 0; calls = [] })) in
    if is_empty data_
    then returned h []
    else if ltb max_buffer_size (length h.frame_buffer + length data_)
    then returned (record h { frame_buffer = [] }) []
    else looped

-- The members that the code leaves uninitialised are an argument.
unfoldable pub create_frame : ℕ → ℕ → ℕ → List ℕ → Frame
create_frame uninitialised stream_id sequence payload = record {
  length = length payload % 2 ^ 32;
  stream_id = stream_id;
  sequence = sequence;
  checksum = uninitialised;
  payload = payload;
  client_id = minus_one;
}

pub set_frame_callback : Handler → Bool → Handler
set_frame_callback h has_callback = record h { has_callback = has_callback }
