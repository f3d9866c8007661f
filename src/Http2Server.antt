-- ===== src/Http2Server.antt =====
-- src/http_server.cpp: the callbacks that the HTTP/2 server gives to nghttp2, and its loop over the
-- connections. What nghttp2 and the system return, and which callbacks they call, are arguments.
pub mod Bodies
pub mod Provider
pub mod Connections
pub mod Session
mod Tests
use tcp_test.Common.{
  ℕ, ◌-◌, Bool, true, false, not, Option, none, some, List, [], ◌∷◌, ◌++◌, length, take, drop, min,
  ltb, ◌==◌, if◌then◌else◌, ℤ, pos, is_negative, is_zero,
}
use tcp_test.Common.Text.{Text}
use tcp_test.Common.Decimal.{to_string}
use tcp_test.Frame.{is_empty}
use tcp_test.Common.OrdMap.{OrdMap, find, find_or, assign, erase}

pub record Http2Session : Type 0 where
  pub fd : ℕ
  pub stream_data : OrdMap Text

unfoldable pub create_http2_session : ℕ → Http2Session
create_http2_session fd = record { fd = fd; stream_data = [] }

-- `{"status":"success","message":"数据已接收"}`, as UTF-8
unfoldable pub response_text : Text
response_text =
    123 ∷ 34 ∷ 115 ∷ 116 ∷ 97 ∷ 116 ∷ 117 ∷ 115 ∷ 34 ∷ 58 ∷ 34 ∷ 115 ∷ 117 ∷ 99 ∷ 99 ∷ 101 ∷ 115
    ∷ 115 ∷ 34 ∷ 44 ∷ 34 ∷ 109 ∷ 101 ∷ 115 ∷ 115 ∷ 97 ∷ 103 ∷ 101 ∷ 34 ∷ 58 ∷ 34 ∷ 230 ∷ 149 ∷ 176
    ∷ 230 ∷ 141 ∷ 174 ∷ 229 ∷ 183 ∷ 178 ∷ 230 ∷ 142 ∷ 165 ∷ 230 ∷ 148 ∷ 182 ∷ 34 ∷ 125 ∷ []

-- The response's headers but for the constant names.
pub record Headers : Type 0 where
  pub status : Text
  pub content_type : Text
  pub content_length : Text

unfoldable pub response_headers : Headers
response_headers = record {
  status = 50 ∷ 48 ∷ 48 ∷ [];
  content_type =
      97 ∷ 112 ∷ 112 ∷ 108 ∷ 105 ∷ 99 ∷ 97 ∷ 116 ∷ 105 ∷ 111 ∷ 110 ∷ 47 ∷ 106 ∷ 115 ∷ 111 ∷ 110
      ∷ [];
  content_length = to_string (length response_text);
}

-- The string on the heap that `source.ptr` points to.
pub data Buffer : Type 0 where
  null : Buffer
  live : Text → Buffer
  deleted : Buffer

-- What a call of the data provider returns: the bytes that it copied, whether it set the EOF flag, and
-- the buffer afterwards.
pub record Chunk : Type 0 where
  pub bytes : Text
  pub eof : Bool
  pub buffer : Buffer

-- `read_callback`; `none` where it touches a deleted string, which is undefined.
unfoldable pub read_callback : ℕ → Buffer → Option Chunk
read_callback size deleted = none
read_callback size null = some (record { bytes = []; eof = true; buffer = null })
read_callback size (live []) = some (record { bytes = []; eof = true; buffer = deleted })
read_callback size (live (c ∷ s)) =
    let copy_len = min size (length (c ∷ s)) in
    let rest = drop copy_len (c ∷ s) in
    some (record {
      bytes = take copy_len (c ∷ s);
      eof = is_empty rest;
      buffer = if is_empty rest then deleted else live rest;
    })

-- What the calls of the provider make of a response: nghttp2 calls it for the sizes of its frames, and
-- no more once the EOF flag is set. `none` as above.
pub record Provided : Type 0 where
  pub body : Text
  pub finished : Bool
  pub left : Buffer

unfoldable pub provide : List ℕ → Buffer → Option Provided
provide [] buffer = some (record { body = []; finished = false; left = buffer })
provide (size ∷ sizes) buffer = elim (read_callback size buffer) [
  | none ↦ none
  | some chunk ↦ elim chunk.eof [
    | true ↦ some (record { body = chunk.bytes; finished = true; left = chunk.buffer })
    | false ↦ elim (provide sizes chunk.buffer) [
      | none ↦ none
      | some more ↦ some (record more { body = chunk.bytes ++ more.body })
    ]
  ]
]

-- `handle_post_data`, with whether `nghttp2_submit_response` and `nghttp2_session_send` succeed: its
-- result, where 0 is success, and the buffer. The response is `provide`d later.
unfoldable pub handle_post_data : ℤ → ℤ → ℤ × Buffer
handle_post_data submitted sent =
    let buffer = live response_text in
    if not (is_zero submitted)
    then (submitted, deleted)
    else if not (is_zero sent)
    then (sent, buffer)
    else (pos 0, buffer)

unfoldable pub on_data_chunk_recv : Http2Session → ℕ → Text → Http2Session
on_data_chunk_recv session stream_id bytes = record session {
  stream_data =
      assign stream_id (find_or [] stream_id session.stream_data ++ bytes) session.stream_data;
}

pub data FrameType : Type 0 where
  data_frame headers_frame other_frame : FrameType

-- `on_frame_recv_callback`, with the END_STREAM flag: the body that it hands to `handle_post_data`, if
-- any, and the session.
unfoldable pub on_frame_recv : Http2Session → FrameType → Bool → ℕ → Option Text × Http2Session
on_frame_recv session headers_frame end_stream stream_id = (none, session)
on_frame_recv session other_frame end_stream stream_id = (none, session)
on_frame_recv session data_frame false stream_id = (none, session)
on_frame_recv session data_frame true stream_id = elim (find stream_id session.stream_data) [
  | none ↦ (none, session)
  | some body ↦ (some body, record session { stream_data = erase stream_id session.stream_data })
]

-- The set-up of `main`, with what socket, setsockopt, bind and listen return: the listening descriptor,
-- or `none` where it exits with 1.
unfoldable pub open_server : ℤ → ℤ → ℤ → ℤ → Option ℤ
open_server server_fd option_set bound listening =
    if is_negative server_fd
    then none
    else if not (is_zero option_set)
    then none
    else if is_negative bound
    then none
    else if is_negative listening
    then none
    else some server_fd

-- A round of the event loop: read returns 0 or an error, or bytes, with what `nghttp2_session_mem_recv`
-- and `nghttp2_session_send` then return.
pub data Round : Type 0 where
  closed failed : Round
  received : ℤ → ℤ → Round

-- What ends the use of a connection: `nghttp2_session_del`, `close` and `delete`.
pub data Cleanup : Type 0 where
  deletes_session closes frees_session : ℕ → Cleanup

abbrev pub cleanup : ℕ → List Cleanup
cleanup client_fd = deletes_session client_fd ∷ closes client_fd ∷ frees_session client_fd ∷ []

-- The event loop; `none` while it waits for more.
unfoldable pub event_loop : ℕ → List Round → Option (List Cleanup)
event_loop client_fd [] = none
event_loop client_fd (closed ∷ rounds) = some (cleanup client_fd)
event_loop client_fd (failed ∷ rounds) = some (cleanup client_fd)
event_loop client_fd (received processed sent ∷ rounds) =
    let rest = event_loop client_fd rounds in
    if is_negative processed
    then some (cleanup client_fd)
    else if not (is_zero sent)
    then some (cleanup client_fd)
    else rest

-- A connection, with what sending the initial settings returns.
unfoldable pub serve_connection : ℕ → ℤ → List Round → Option (List Cleanup)
serve_connection client_fd sent rounds =
    if not (is_zero sent) then some (cleanup client_fd) else event_loop client_fd rounds

-- What a call of `accept` and its connection bring.
pub data Accepted : Type 0 where
  refused : Accepted
  accepted : ℕ → ℤ → List Round → Accepted

-- The loop over the connections: what it has cleaned up, and whether it is back at `accept`.
unfoldable pub accept_loop : List Accepted → List Cleanup × Bool
accept_loop [] = ([], true)
accept_loop (refused ∷ more) = accept_loop more
accept_loop (accepted client_fd sent rounds ∷ more) =
    elim (serve_connection client_fd sent rounds) [
      | none ↦ ([], false)
      | some done ↦ let (later, idle) = accept_loop more in (done ++ later, idle)
    ]
