-- ===== src/RpcServer/Tests.antt =====
-- One request on stream 3, and its answer.
use tcp_test.Common.{ℕ, ◌≡◌, refl, false, some, List, [], ◌∷◌, ◌++◌, All, arith, append-nil}
use tcp_test.Common.OrdMap.{find, assign}
use tcp_test.Frame.{Frame, serialize, deserialize, get_word, put_word, calculate_checksum}
use tcp_test.Parser.{receive, process_data, parse_loop, parse_round}
use tcp_test.Handler.{create_frame}
use tcp_test.Frame.RoundTrip.{Fits}
use tcp_test.Parser.Chunks.{serialize_all, serialize_all-IsByte}
use tcp_test.Samples.{numbered, numbered-Fits}
use tcp_test.TcpClient.{TcpClient, new_client, register, sends, handle_read}
use tcp_test.TcpClient.Waiting.{new_client-IsWaiting, register-IsWaiting}
use tcp_test.TcpClient.Deliveries.{first_payload}
use tcp_test.ClientHandler.{
  ClientHandler, new_handler, send_pending, send_loop, complete, write_round, own_all, read_bytes,
}
use tcp_test.ClientHandler
use tcp_test.TcpServer.{TcpServer, new_server, write_client, read_client, response}
use tcp_test.RpcServer.{greeting, serve, handle_request, handle_requests}
use tcp_test.RpcServer.Answers.{answer}
use tcp_test.RpcServer.RoundTrip.{request-answered}

abbrev requests : List Frame
requests = numbered 3 7 ∷ []

requests-Fits : All Fits requests
requests-Fits = (numbered-Fits 3 7 (omega arith) (omega arith), tt)

abbrev one_client : TcpServer
one_client = record new_server { clients = (4, new_handler 4) ∷ [] }

abbrev answered_text : List ℕ
answered_text = greeting ++ (7 ∷ [])

abbrev out : List ℕ
out = serialize false (answer 9 (numbered 3 7))

served :
    write_client (serve false 9 one_client 4 (serialize_all false requests ∷ [])) 4 (sends 34 ∷ [])
    ≡ some (complete out [], one_client)
unfolding write_client serve read_client read_bytes own_all handle_requests handle_request response
    find assign write_round send_pending send_loop greeting answer new_handler ClientHandler.start
    ClientHandler.write receive process_data parse_loop parse_round deserialize get_word serialize
    put_word calculate_checksum create_frame
served = refl

request-answered_example :
    (r : TcpClient) × (handle_read (register new_client 3).1 [] (out ∷ []) ≡ some r)
    × (find 0 r.values ≡ some answered_text)
unfolding first_payload
request-answered_example =
    request-answered false 9 requests (serialize_all false requests ∷ []) (out ∷ []) one_client
      one_client 4 (new_handler 4) (sends 34 ∷ []) [] out (register new_client 3).1 3 0
      (omega arith) requests-Fits (omega arith, tt)
      (serialize_all-IsByte false requests requests-Fits, tt)
      (append-nil (serialize_all false requests)) (unfold find in refl)
      (unfold new_handler ClientHandler.start in refl)
      (unfold new_handler ClientHandler.start in refl) served
      (unfold serialize put_word calculate_checksum answer create_frame greeting in omega arith, tt)
      (append-nil out) (register-IsWaiting new_client 3 new_client-IsWaiting)
      (unfold register find assign in refl)
