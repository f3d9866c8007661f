-- ===== src/Handler/Limit.antt =====
-- The size of the buffer over any sequence of calls.
use tcp_test.Common.{
  ℕ, ◌+◌, ◌≤◌, ◌≡◌, ap, subst, suc, Bool, List, [], ◌++◌, length, length-append, length-drop, arith,
  ltb, Bool-cases,
}
use tcp_test.Frame.{Frame, is_empty}
use tcp_test.Handler.{
  Handler, Outcome, Progress, returned, overrun, erase_consumed, handle_loop, max_buffer_size,
  max_iterations, process_incoming_data, set_frame_callback,
}

-- The handlers that a new one becomes by calls that return.
pub data Reach (enabled : Bool) : Handler → Type 0 where
  start : {h : Handler} → h.frame_buffer ≡ [] → Reach enabled h
  sets :
      {h h' : Handler} (has_callback : Bool)
      → Reach enabled h
      → h' ≡ set_frame_callback h has_callback
      → Reach enabled h'
  processes :
      {h h' : Handler} (data_ : List ℕ) (calls : List Frame)
      → Reach enabled h
      → process_incoming_data enabled h data_ ≡ returned h' calls
      → Reach enabled h'

-- The size of the buffer that a call leaves.
abbrev left : Outcome → ℕ
left (returned h calls) = length h.frame_buffer
left (overrun calls) = 0

erase-left : (h : Handler) (p : Progress) → left (erase_consumed h p) ≤ length h.frame_buffer
unfolding erase_consumed
erase-left h p = ground (
  arith,
  Bool-cases (ltb 0 p.bytes_consumed),
  Bool-cases (ltb (length h.frame_buffer) p.bytes_consumed),
  length-drop p.bytes_consumed h.frame_buffer,
)

process-left :
    (enabled : Bool) (h : Handler) (data_ : List ℕ)
    → length h.frame_buffer ≤ max_buffer_size
    → left (process_incoming_data enabled h data_) ≤ max_buffer_size
unfolding process_incoming_data
process-left enabled h data_ small =
    let h' : Handler = record h { frame_buffer = h.frame_buffer ++ data_ } in
    let p =
      handle_loop (suc max_iterations) enabled h' (record { bytes_consumed = 0; calls = [] }) in
    ground (
      arith,
      Bool-cases (is_empty data_),
      Bool-cases (ltb max_buffer_size (length h.frame_buffer + length data_)),
      erase-left h' p,
      length-append h.frame_buffer data_,
    )

-- However calls of processIncomingData that return and of setFrameCallback follow one another on a
-- handler with an empty buffer, the buffer never holds more than ten megabytes between them.
pub buffer_bounded :
    {enabled : Bool} {h : Handler} → Reach enabled h → length h.frame_buffer ≤ max_buffer_size
unfolding set_frame_callback
buffer_bounded (start e) = omega (arith, ap length e)
buffer_bounded (sets has_callback r e) = rw e (buffer_bounded r)
buffer_bounded {enabled} (processes {h} data_ calls r e) =
    subst (λ (o : Outcome). left o ≤ max_buffer_size) e
      (process-left enabled h data_ (buffer_bounded r))
