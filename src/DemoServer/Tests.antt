-- ===== src/DemoServer/Tests.antt =====
-- One request on stream 2, in two pieces.
use tcp_test.Common.{◌≡◌, [], ◌∷◌, take, drop, arith}
use tcp_test.Samples.{hello_bytes}
use tcp_test.Parser.Chunks.{receive_all}
use tcp_test.StreamManager.{new_manager}
use tcp_test.DemoServer.{handle_read, waiting}
use tcp_test.DemoServer.Reading.{handle_all, handle_read-receive_all}

handle_read-receive_all_example :
    let r = receive_all [] (take 18 hello_bytes ∷ drop 18 hello_bytes ∷ []) in
    handle_read 9 new_manager [] (take 18 hello_bytes ∷ drop 18 hello_bytes ∷ [])
    ≡ waiting (handle_all 9 new_manager r.frames) r.buffer
handle_read-receive_all_example =
    handle_read-receive_all 9 (take 18 hello_bytes ∷ drop 18 hello_bytes ∷ []) new_manager [] tt
      (omega arith)
