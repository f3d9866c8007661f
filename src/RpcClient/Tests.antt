-- ===== src/RpcClient/Tests.antt =====
-- A thread's message to the RPC server, which has answered another client's stream and this one.
use tcp_test.Common.{
  ℕ, ◌+◌, ◌^◌, ◌<◌, length, ◌≡◌, refl, false, none, some, List, [], ◌∷◌, ◌++◌, map, All, arith,
  append-nil,
}
use tcp_test.Common.Decimal.{digits, to_string}
use tcp_test.Common.OrdMap.{find, assign}
use tcp_test.Frame.{Frame, IsByte, serialize, deserialize, get_word, put_word, calculate_checksum}
use tcp_test.Frame.RoundTrip.{Fits}
use tcp_test.Parser.{receive, process_data, parse_loop, parse_round}
use tcp_test.Parser.Chunks.{receive_all, serialize_all, serialize_all-IsByte}
use tcp_test.Handler.{create_frame}
use tcp_test.Samples.{numbered, numbered-Fits}
use tcp_test.TcpClient.{TcpClient, new_client, sends, wrote, write, write_loop, request_frame}
use tcp_test.TcpClient.Waiting.{IsWaiting, new_client-IsWaiting}
use tcp_test.TcpClient.Deliveries.{first_payload}
use tcp_test.ClientHandler
use tcp_test.ClientHandler.{
  new_handler, send_pending, send_loop, complete, write_round, own_all, read_bytes,
}
use tcp_test.TcpServer.{TcpServer, new_server, write_client, read_client, response}
use tcp_test.RpcServer.{greeting, serve, handle_request, handle_requests}
use tcp_test.RpcServer.Answers.{answer}
use tcp_test.RpcServer.RoundTrip.{answers-Fits}
use tcp_test.RpcClient.{
  got_response, test_message, send_test_messages, from_thread, of_stream_text, message_number,
}
use tcp_test.RpcClient.Answered.{send_test_messages-answer}

abbrev own : Frame
own = request_frame 9 0 (test_message 3 3)

abbrev requests : List Frame
requests = numbered 1 8 ∷ own ∷ []

own-Fits : Fits own
unfolding request_frame test_message to_string digits from_thread of_stream_text message_number
own-Fits = record {
  length_u32 = omega arith;
  stream_u32 = omega arith;
  sequence_u32 = omega arith;
  checksum_u32 = omega arith;
  counted = omega arith;
  bytes = ground arith;
}

requests-Fits : All Fits requests
requests-Fits = (numbered-Fits 1 8 (omega arith) (omega arith), (own-Fits, tt))

requests-Short : All (λ f. length f.payload + 17 < 2 ^ 32) requests
unfolding request_frame test_message to_string digits from_thread of_stream_text message_number
requests-Short = (omega arith, (omega arith, tt))

abbrev one_client : TcpServer
one_client = record new_server { clients = (4, new_handler 4) ∷ [] }

abbrev out : List ℕ
out = serialize_all false (map (answer 7) requests)

served :
    write_client
      (serve false 7 one_client 4 (serialize_all false requests ∷ []))
      4
      (sends 34 ∷ sends 100 ∷ [])
    ≡ some (complete out [], one_client)
unfolding write_client serve read_client read_bytes own_all handle_requests handle_request response
    find assign write_round send_pending send_loop greeting answer new_handler ClientHandler.start
    ClientHandler.write receive process_data parse_loop parse_round deserialize get_word serialize
    put_word calculate_checksum create_frame request_frame test_message to_string digits from_thread
    of_stream_text message_number
served = refl

own_sent : write (serialize false own) (sends 100 ∷ []) ≡ wrote (serialize false own)
unfolding request_frame write write_loop serialize put_word calculate_checksum test_message
    to_string digits from_thread of_stream_text message_number
own_sent = refl

out-IsByte : All IsByte out
out-IsByte =
    serialize_all-IsByte false (map (answer 7) requests)
      (answers-Fits 7 requests (omega arith) requests-Short requests-Fits)

send_test_messages-answer_example :
    (r : TcpClient) × (send_test_messages false 9 new_client 3
        (sends 100 ∷ [])
        (receive_all [] (out ∷ [])).frames
        []
      ≡ some (got_response 3 (greeting ++ test_message 3 3), r))
    × (find 0 r.response_handlers ≡ none)
    × IsWaiting r
send_test_messages-answer_example =
    send_test_messages-answer false 9 7 new_client 3 (serialize false own) (sends 100 ∷ [])
      (numbered 1 8 ∷ []) [] [] (serialize_all false requests ∷ []) (out ∷ []) one_client one_client
      4 (new_handler 4) (sends 34 ∷ sends 100 ∷ []) [] out new_client-IsWaiting own_sent
      (unfold first_payload in refl) (omega arith) requests-Fits requests-Short
      (serialize_all-IsByte false requests requests-Fits, tt)
      (append-nil (serialize_all false requests)) (unfold find in refl)
      (unfold new_handler ClientHandler.start in refl)
      (unfold new_handler ClientHandler.start in refl) served (out-IsByte, tt) (append-nil out)
