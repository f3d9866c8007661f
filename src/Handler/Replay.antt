-- ===== src/Handler/Replay.antt =====
-- What `processIncomingData` delivers: a buffer that ends with a frame, one that holds no frame, and
-- one with a frame and the beginning of another, which it delivers again.
use tcp_test.Common.{
  ℕ, suc, ◌+◌, ◌≤◌, ◌<◌, ◌≡◌, ◌≢◌, refl, ap, ◌∙◌, Bool, List, [], ◌∷◌, ◌++◌, map, length, All,
  arith, append-nil, length-append, drop_all,
}
use tcp_test.Frame.{Frame}
use tcp_test.Frame.RoundTrip.{emit, Fits, unowned, length-emit}
use tcp_test.Parser.{process_data}
use tcp_test.Parser.Stream.{emits, IsPartial, process_data-emits}
use tcp_test.Handler.{
  Handler, Progress, returned, overrun, max_buffer_size, max_iterations, dispatch, handle_loop,
  erase_consumed, process_incoming_data,
}

-- A call on data that neither is empty nor passes the limit runs the loop.
incoming_loops :
    (enabled : Bool) (h : Handler) (data_ : List ℕ)
    → data_ ≢ []
    → length h.frame_buffer + length data_ ≤ max_buffer_size
    → let h' = record h { frame_buffer = h.frame_buffer ++ data_ } in
      process_incoming_data enabled h data_
      ≡ erase_consumed h'
          (handle_loop (suc max_iterations) enabled h' (record { bytes_consumed = 0; calls = [] }))
unfolding process_incoming_data
incoming_loops enabled h [] ne fits = absurd (ne refl)
incoming_loops enabled h (x ∷ xs) ne fits = ground arith

-- One round of the loop on a buffer that the parser cuts in a known way.
round_again :
    (rounds : ℕ) (enabled : Bool) (h : Handler) (p : Progress) (fs : List Frame) (n : ℕ)
    → process_data h.frame_buffer ≡ record { frames = fs; consumed = n }
    → 0 < n
    → p.bytes_consumed + n < length h.frame_buffer
    → handle_loop (suc rounds) enabled h p
      ≡ handle_loop rounds enabled h (record {
        bytes_consumed = p.bytes_consumed + n;
        calls = p.calls ++ dispatch enabled h.has_callback fs;
      })
unfolding handle_loop
round_again rounds enabled h p fs n e pos more = ground (arith, e)

round_last :
    (rounds : ℕ) (enabled : Bool) (h : Handler) (p : Progress) (fs : List Frame) (n : ℕ)
    → process_data h.frame_buffer ≡ record { frames = fs; consumed = n }
    → 0 < n
    → length h.frame_buffer ≤ p.bytes_consumed + n
    → handle_loop (suc rounds) enabled h p ≡ record {
      bytes_consumed = p.bytes_consumed + n;
      calls = p.calls ++ dispatch enabled h.has_callback fs;
    }
unfolding handle_loop
round_last rounds enabled h p fs n e pos full = ground (arith, e)

round_none :
    (rounds : ℕ) (enabled : Bool) (h : Handler) (p : Progress)
    → process_data h.frame_buffer ≡ record { frames = []; consumed = 0 }
    → handle_loop (suc rounds) enabled h p ≡ p
unfolding handle_loop
round_none rounds enabled h p e = ground (arith, e)

abbrev grown : Handler → List ℕ → Handler
grown h data_ = record h { frame_buffer = h.frame_buffer ++ data_ }

abbrev start : Progress
start = record { bytes_consumed = 0; calls = [] }

emits_pos : (fs : List Frame) → fs ≢ [] → 0 < length (emits fs)
emits_pos [] ne = absurd (ne refl)
emits_pos (f ∷ fs) ne = omega (arith, length-append (emit f) (emits fs), length-emit f)

process_data_exact :
    (fs : List Frame)
    → All Fits fs
    → process_data (emits fs) ≡ record { frames = map unowned fs; consumed = length (emits fs) }
process_data_exact fs v = rw (append-nil (emits fs)) at (process_data-emits fs [] v (omega arith))

-- Frames that end with the buffer are delivered once each, in order, those with an invalid checksum
-- left out, and the buffer is empty afterwards.
pub process_incoming_data_whole :
    (enabled : Bool) (h : Handler) (data_ : List ℕ) (fs : List Frame)
    → data_ ≢ []
    → length h.frame_buffer + length data_ ≤ max_buffer_size
    → fs ≢ []
    → All Fits fs
    → h.frame_buffer ++ data_ ≡ emits fs
    → process_incoming_data enabled h data_
      ≡ returned (record h { frame_buffer = [] }) (dispatch enabled h.has_callback (map unowned fs))
unfolding erase_consumed
process_incoming_data_whole enabled h data_ fs ne fits full v e =
    incoming_loops enabled h data_ ne fits
    ∙ rw
        (round_last max_iterations enabled (grown h data_) start (map unowned fs)
          (length (emits fs)) parsed (emits_pos fs full) (omega (arith, ap length e)))
        (ground (
          arith,
          emits_pos fs full,
          ap length e,
          drop_all (length (emits fs)) (h.frame_buffer ++ data_),
        ))
  where
    parsed :
        process_data (h.frame_buffer ++ data_)
        ≡ record { frames = map unowned fs; consumed = length (emits fs) }
    parsed = rw e (process_data_exact fs v)

-- A buffer that holds no complete frame yet is kept, and nothing is delivered.
pub process_incoming_data_partial :
    (enabled : Bool) (h : Handler) (data_ : List ℕ)
    → data_ ≢ []
    → length h.frame_buffer + length data_ ≤ max_buffer_size
    → IsPartial (h.frame_buffer ++ data_)
    → process_incoming_data enabled h data_
      ≡ returned (record h { frame_buffer = h.frame_buffer ++ data_ }) []
unfolding erase_consumed
process_incoming_data_partial enabled h data_ ne fits partial =
    incoming_loops enabled h data_ ne fits
    ∙ rw
        (round_none max_iterations enabled (grown h data_) start
          (process_data-emits [] (h.frame_buffer ++ data_) tt partial))
        refl

-- Frames followed by the beginning of another, shorter than these frames together, are delivered twice
-- each, and then the buffer is erased past its end.
pub process_incoming_data_overruns :
    (enabled : Bool) (h : Handler) (data_ : List ℕ) (fs : List Frame) (rest : List ℕ)
    → data_ ≢ []
    → length h.frame_buffer + length data_ ≤ max_buffer_size
    → All Fits fs
    → h.frame_buffer ++ data_ ≡ emits fs ++ rest
    → IsPartial rest
    → 0 < length rest
    → length rest < length (emits fs)
    → let once = dispatch enabled h.has_callback (map unowned fs) in
      process_incoming_data enabled h data_ ≡ overrun (once ++ once)
unfolding erase_consumed
process_incoming_data_overruns enabled h data_ fs rest ne fits v e partial pos short =
    incoming_loops enabled h data_ ne fits
    ∙ rw
        (
          round_again max_iterations enabled (grown h data_) start (map unowned fs) n parsed
              (omega arith) (omega (arith, size)),
          round_last 999 enabled (grown h data_) (record { bytes_consumed = 0 + n; calls = once })
              (map unowned fs) n parsed (omega arith) (omega (arith, size)),
        )
        (ground (arith, size))
  where
    n : ℕ
    n = length (emits fs)

    size : length (h.frame_buffer ++ data_) ≡ length (emits fs) + length rest
    size = omega (arith, ap length e, length-append (emits fs) rest)

    once : List Frame
    once = dispatch enabled h.has_callback (map unowned fs)

    parsed :
        process_data (h.frame_buffer ++ data_) ≡ record { frames = map unowned fs; consumed = n }
    parsed = rw e (process_data-emits fs rest v partial)
