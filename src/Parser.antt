-- ===== src/Parser.antt =====
-- include/frame.h, class FrameParser: `processData` cuts the complete frames off the front of a
-- buffer; and the step that every reader of a socket makes with it, which keeps the rest.
pub mod Stream
pub mod Chunks
mod Tests
use tcp_test.Common.{
  ℕ, zero, suc, ◌+◌, ◌-◌, ◌≡◌, Bool, true, false, List, [], ◌∷◌, ◌++◌, length, take, drop,
  replicate, leb, ltb, if◌then◌else◌, ok, err,
}
use tcp_test.Frame.{Frame, header_size, get_word, deserialize}

-- What `processData` returns, and what it stores in `bytes_consumed`.
pub record Parsed : Type 0 where
  pub frames : List Frame
  pub consumed : ℕ

-- What one round of its loop does: a frame is complete, with the new position; the rest of a frame is
-- still to come (`break`); or `deserialize` has thrown.
pub data Round : Type 0 where
  complete : Frame → ℕ → Round
  waits thrown : Round

unfoldable pub parse_round : List ℕ → ℕ → Round
parse_round data_ consumed =
    let frame_length = get_word data_ consumed in
    let frame_size = header_size + frame_length in
    if leb header_size (length data_ - consumed)
    then if leb frame_size (length data_ - consumed)
      then (elim (deserialize (take frame_size (drop consumed data_))) [
        | ok frame ↦ complete frame (consumed + frame_size)
        | err e ↦ thrown
      ])
      else waits
    else waits

-- The loop. A round that does not stop it takes sixteen bytes at least, so `length data_` rounds are
-- enough fuel.
unfoldable pub parse_loop : ℕ → List ℕ → ℕ → List Frame → Parsed
parse_loop zero data_ consumed frames = record { frames = frames; consumed = consumed }
parse_loop (suc fuel) data_ consumed frames = elim (ltb consumed (length data_)) [
  | true ↦ elim (parse_round data_ consumed) [
    | complete frame next ↦ parse_loop fuel data_ next (frames ++ (frame ∷ []))
    | waits ↦ record { frames = frames; consumed = consumed }
    | thrown ↦ record { frames = frames; consumed = suc consumed }
  ]
  | false ↦ record { frames = frames; consumed = consumed }
]

unfoldable pub process_data : List ℕ → Parsed
process_data data_ = parse_loop (length data_) data_ 0 []

-- A reader's frame buffer after a call of `recv`, and the frames that were complete.
pub record Received : Type 0 where
  pub frames : List Frame
  pub buffer : List ℕ

-- `frame_buffer.insert(end, …)`, `processData`, and `erase` of what was consumed.
unfoldable pub receive : List ℕ → List ℕ → Received
receive frame_buffer bytes =
    let data_ = frame_buffer ++ bytes in
    let parsed = process_data data_ in
    record {
      frames = parsed.frames;
      buffer = if ltb 0 parsed.consumed then drop parsed.consumed data_ else data_;
    }
