-- ===== src/RpcServer.antt =====
-- src/rpc_server.cpp, class rpcServer: every request is answered with its text behind a greeting. It is
-- the request callback of its TcpServer, which the readers of the connections call.
pub mod Answers
pub mod RoundTrip
mod Tests
use tcp_test.Common.{ℕ, Bool, true, List, [], ◌∷◌, ◌++◌, ℤ, pos}
use tcp_test.Frame.{Frame}
use tcp_test.TcpConnection.{
  BufferOption, new_connection, set_send_buffer_size, set_receive_buffer_size,
}
use tcp_test.TcpConnection.Options.{Inherited}
use tcp_test.TcpServer.{TcpServer, new_server, set_request_callback, response, read_client}

-- The constructor, with what setsockopt would answer: the server, and what the two setters of the
-- buffers return, which the code does not look at.
unfoldable pub new_rpc_server : (ℤ → BufferOption → ℤ → ℤ) → Inherited × Bool × Bool
new_rpc_server setsockopt = (
  record { base = new_connection; server = set_request_callback new_server true },
  set_send_buffer_size setsockopt new_connection (pos 65536),
  set_receive_buffer_size setsockopt new_connection (pos 65536),
)

-- "服务器响应: ", as UTF-8
unfoldable pub greeting : List ℕ
greeting =
    230 ∷ 156 ∷ 141 ∷ 229 ∷ 138 ∷ 161 ∷ 229 ∷ 153 ∷ 168 ∷ 229 ∷ 147 ∷ 141 ∷ 229 ∷ 186 ∷ 148 ∷ 58
    ∷ 32 ∷ []

unfoldable pub handle_request : Bool → ℕ → TcpServer → ℕ → ℕ → ℕ → List ℕ → TcpServer
handle_request enabled uninitialised s client_id stream_id sequence payload =
    response enabled uninitialised s client_id stream_id sequence (greeting ++ payload)

-- The calls of the callback for the frames of a round of a connection's reader.
unfoldable pub handle_requests : Bool → ℕ → TcpServer → ℕ → List Frame → TcpServer
handle_requests enabled uninitialised s client_id [] = s
handle_requests enabled uninitialised s client_id (frame ∷ frames) =
    handle_requests enabled uninitialised
      (handle_request enabled uninitialised s client_id frame.stream_id frame.sequence
        frame.payload)
      client_id frames

-- The reader of a connection over what `recv` returns.
unfoldable pub serve : Bool → ℕ → TcpServer → ℕ → List (List ℕ) → TcpServer
serve enabled uninitialised s client_id [] = s
serve enabled uninitialised s client_id (bytes ∷ more) =
    let (frames, s') = read_client s client_id bytes in
    serve enabled uninitialised (handle_requests enabled uninitialised s' client_id frames)
      client_id more
