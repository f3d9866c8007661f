-- ===== src/RpcClient/Answered.antt =====
-- What a thread prints when the server of src/rpc_server.cpp has answered its message.
use mathlib.Core.Option
use tcp_test.Common.{
  ℕ, ◌+◌, ◌^◌, ◌<◌, ◌≡◌, refl, ap, ◌∙◌, Bool, none, some, List, [], ◌∷◌, ◌++◌, map, length, All,
  arith,
}
use tcp_test.Common.OrdMap.{find}
use tcp_test.Frame.{Frame, IsByte, serialize}
use tcp_test.Frame.RoundTrip.{Fits}
use tcp_test.Parser.{Received}
use tcp_test.Parser.Chunks.{concat, receive_all, receive_all-serialize, serialize_all, sent}
use tcp_test.TcpClient.{TcpClient, SendResult, wrote, write, request_frame}
use tcp_test.TcpClient.Waiting.{IsWaiting}
use tcp_test.TcpClient.Deliveries.{first_payload}
use tcp_test.TcpClient.Responses.{first_payload-sent}
use tcp_test.TcpClient.Requests.{send_and_wait_response_lem}
use tcp_test.ClientHandler.{ClientHandler, complete}
use tcp_test.TcpServer.{TcpServer, write_client}
use tcp_test.RpcServer.{greeting, serve}
use tcp_test.RpcServer.Answers.{answer}
use tcp_test.RpcServer.RoundTrip.{first-answer, answers-Fits, answers-written}
use tcp_test.RpcClient.{got_response, test_message, send_test_messages}

-- The request of a thread among those of others.
first_payload-own :
    (id : ℕ) (before after : List Frame) (own : Frame)
    → own.stream_id ≡ id
    → first_payload id before ≡ none
    → first_payload id (before ++ (own ∷ after)) ≡ some own.payload
unfolding first_payload
first_payload-own id [] after own e h = ground (arith, e)
first_payload-own id (f ∷ before) after own e h =
    ground (arith, h, first_payload-own id before after own e)

-- A thread's message is sent completely, behind requests of other streams and before any others, and they
-- all reach a connection of the RPC server, whose buffer and queue were empty, cut anyhow. The
-- connection's writer sends its queue without an error, and during the wait its bytes reach the client cut
-- anyhow, all with the same checksum flag. Then the thread prints the greeting with its own message, and
-- its handler is gone (frames that fit the wire format, with texts seventeen bytes below the limit).
pub send_test_messages-answer :
    (enabled : Bool) (u u' : ℕ) (c : TcpClient) (thread_id : ℕ) (sent_out : List ℕ)
    (results : List SendResult) (others later late : List Frame) (there back : List (List ℕ))
    (s s' : TcpServer) (id : ℕ) (h : ClientHandler) (server_results left : List SendResult)
    (out : List ℕ)
    → IsWaiting c
    → let own = request_frame u c.next_stream_id (test_message thread_id thread_id) in
      let requests = others ++ (own ∷ later) in
      write (serialize enabled own) results ≡ wrote sent_out
      → first_payload c.next_stream_id others ≡ none
      → u' < 2 ^ 32
      → All Fits requests
      → All (λ f. length f.payload + 17 < 2 ^ 32) requests
      → All (All IsByte) there
      → concat there ≡ serialize_all enabled requests
      → find id s.clients ≡ some h
      → h.frame_buffer ≡ []
      → h.outgoing_queue ≡ []
      → write_client (serve enabled u' s id there) id server_results ≡ some (complete out left, s')
      → All (All IsByte) back
      → concat back ≡ out
      → (r : TcpClient) × (send_test_messages enabled u c thread_id results
            (receive_all [] back).frames
            late
          ≡ some (got_response thread_id (greeting ++ test_message thread_id thread_id), r))
        × (find c.next_stream_id r.response_handlers ≡ none)
        × IsWaiting r
unfolding request_frame send_test_messages
send_test_messages-answer enabled u u' c thread_id sent_out results others later late there back s
      s' id h server_results left out w wrote_all no_other hu v short b e found empty_buffer
      empty_queue written b' e' =
    let (r, ran, gone, w') =
      send_and_wait_response_lem enabled u c message sent_out results (receive_all [] back).frames
        late w wrote_all in
    (r, rw (send_test_messages, ran, answered) refl, gone, w')
  where
    message : List ℕ
    message = test_message thread_id thread_id

    own : Frame
    own = request_frame u c.next_stream_id message

    requests : List Frame
    requests = others ++ (own ∷ later)

    arrived : (receive_all [] back).frames ≡ map (sent enabled) (map (answer u') requests)
    arrived =
        ap (λ (q : Received). q.frames)
          (receive_all-serialize enabled (map (answer u') requests) back
            (answers-Fits u' requests hu short v)
            (e'
              ∙ answers-written enabled u' requests there s s' id h server_results left out v b e
                  found empty_buffer empty_queue written)
            b')

    answered :
        first_payload c.next_stream_id (receive_all [] back).frames ≡ some (greeting ++ message)
    answered =
        ap (first_payload c.next_stream_id) arrived
        ∙ first_payload-sent enabled c.next_stream_id (map (answer u') requests)
        ∙ first-answer u' c.next_stream_id requests
        ∙ ap (Option.map (◌++◌ greeting))
            (first_payload-own c.next_stream_id others later own refl no_other)
