-- ===== src/TcpServer/Tests.antt =====
-- A client that connects, asks, and leaves.
use tcp_test.Common.{none, ◌≡◌, refl, false, true, List, [], ◌∷◌, All, arith, append-nil, pos}
use tcp_test.Common.OrdMap.{find, find_or, assign, erase}
use tcp_test.Frame.{Frame}
use tcp_test.Frame.RoundTrip.{Fits}
use tcp_test.Parser.Chunks.{receive_all, serialize_all, serialize_all-IsByte}
use tcp_test.Samples.{numbered, numbered-Fits}
use tcp_test.StreamManager.Streams.{of_stream}
use tcp_test.ClientHandler.{new_handler, own_all}
use tcp_test.TcpServer.{
  TcpServer, new_server, Notice, connects, continues, terminated, accept_client,
  handle_client_disconnect, requests, process_frames, cleanup_inactive_streams,
}
use tcp_test.TcpServer.Accepting.{
  accepted, try_again, failed, accept_loop, enter, accept_loop-enters,
}
use tcp_test.TcpServer.Clients.{accepts, leaves, run, happens, disconnect-terminates}
use tcp_test.TcpServer.Streams.{
  queue_of, process_all, process_all-requests, cleanup_inactive_streams-queue,
}

abbrev one_client : TcpServer
one_client = record new_server { clients = (4, new_handler 4) ∷ [] }

disconnect-terminates_example :
    (told : List Notice) × (handle_client_disconnect one_client 4 ≡ terminated told)
disconnect-terminates_example =
    disconnect-terminates (leaves 9 ∷ accepts 4 ∷ []) one_client [] 4 (new_handler 4)
      (unfold run happens accept_client handle_client_disconnect find assign erase in refl)
      (unfold find in refl)

abbrev asked : List Frame
asked = numbered 3 7 ∷ numbered 5 8 ∷ numbered 3 9 ∷ []

asked-Fits : All Fits asked
asked-Fits = (
  numbered-Fits 3 7 (omega arith) (omega arith),
  (
    numbered-Fits 5 8 (omega arith) (omega arith),
    (numbered-Fits 3 9 (omega arith) (omega arith), tt),
  ),
)

process_all-requests_example :
    process_frames false false true
      (queue_of (process_all one_client 4 (serialize_all false asked ∷ [])) 3)
    ≡ requests (pos 4) 3 7 (7 ∷ []) ∷ requests (pos 4) 3 9 (9 ∷ []) ∷ []
unfolding of_stream
process_all-requests_example =
    process_all-requests false asked (serialize_all false asked ∷ []) one_client 4 (new_handler 4) 3
      asked-Fits (serialize_all-IsByte false asked asked-Fits, tt)
      (append-nil (serialize_all false asked)) (unfold find in refl) (unfold find_or find in refl)
      (unfold find_or find in refl)

-- A frame that waits in the queue of stream 3 is lost; two more arrive afterwards.
abbrev with_processor : TcpServer
with_processor = record one_client { stream_processors = (3, numbered 3 6 ∷ []) ∷ [] }

cleanup_inactive_streams-queue_example :
    let s' = cleanup_inactive_streams (λ k. false) with_processor in
    (find 3 s'.stream_processors ≡ none)
    × (queue_of (process_all s' 4 (serialize_all false asked ∷ [])) 3
        ≡ of_stream 3 (
            own_all
              (pos 4)
              (receive_all
                (find_or [] 4 with_processor.client_buffers)
                (serialize_all false asked ∷ [])).frames))
cleanup_inactive_streams-queue_example =
    cleanup_inactive_streams-queue (λ k. false) with_processor 3 4 (new_handler 4)
      (serialize_all false asked ∷ []) (omega arith, tt) (unfold find in refl)

-- Two connections, a call that was interrupted, and an error that ends the loop.
accept_loop-enters_example :
    accept_loop
      (record new_server { sock_fd = pos 3; running = true; has_connect_callback = true })
      (accepted 4 ∷ try_again ∷ accepted 5 ∷ failed ∷ accepted 6 ∷ [])
    ≡ continues
        (record new_server {
          sock_fd = pos 3;
          running = true;
          has_connect_callback = true;
          clients = (4, new_handler 4) ∷ (5, new_handler 5) ∷ [];
        })
        (connects 4 ∷ connects 5 ∷ [])
unfolding enter assign
accept_loop-enters_example =
    accept_loop-enters (accepted 4 ∷ try_again ∷ accepted 5 ∷ failed ∷ accepted 6 ∷ [])
      (record new_server { sock_fd = pos 3; running = true; has_connect_callback = true }) refl refl
      (unfold find in (refl, (omega arith, tt), unfold find in (refl, tt, tt)))
