-- ===== src/Handler/Tests.antt =====
-- A handler with a callback on a frame that comes in two parts, and on a frame with one byte too many.
use tcp_test.Common.{ℕ, ◌≡◌, refl, true, false, List, [], ◌∷◌, ◌++◌, take, ◌≤◌, arith}
use tcp_test.Frame.{get_word, put_word, verify_checksum}
use tcp_test.Frame.RoundTrip.{emit}
use tcp_test.Samples.{hello, hello_bytes, hello-Fits}
use tcp_test.Handler.{Handler, returned, overrun, dispatch, process_incoming_data, max_buffer_size}
use tcp_test.Handler.Replay.{process_incoming_data_partial, process_incoming_data_overruns}
use tcp_test.Handler.Limit.{start, processes, buffer_bounded}

abbrev listening : List ℕ → Handler
listening buffer = record { frame_buffer = buffer; has_callback = true }

overruns_example :
    process_incoming_data false (listening []) (hello_bytes ++ (0 ∷ []))
    ≡ overrun (hello ∷ hello ∷ [])
unfolding emit put_word dispatch verify_checksum
overruns_example =
    process_incoming_data_overruns false (listening []) (hello_bytes ++ (0 ∷ [])) (hello ∷ [])
      (0 ∷ []) (λ e. cc) (omega arith) (hello-Fits, tt) refl (omega arith) (omega arith)
      (omega arith)

half_there :
    process_incoming_data false (listening []) (take 18 hello_bytes)
    ≡ returned (listening (take 18 hello_bytes)) []
half_there =
    process_incoming_data_partial false (listening []) (take 18 hello_bytes) (λ e. cc) (omega arith)
      (unfold get_word in omega arith)

buffer_bounded_example : 18 ≤ max_buffer_size
buffer_bounded_example =
    buffer_bounded {enabled = false} (processes (take 18 hello_bytes) [] (start refl) half_there)
