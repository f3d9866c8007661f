-- ===== src/Http2Server/Session.antt =====
-- src/http_server.cpp: how a session is set up for nghttp2, and the two callbacks that change nothing
-- in it. The calls of nghttp2 and of `write` are recorded, and what `write` returns is an argument.
use tcp_test.Common.{ℕ, Bool, true, false, Option, none, some, List, [], ◌∷◌, ◌++◌, ℤ}
use tcp_test.Common.Text.{Text}
use tcp_test.Http2Server.{Http2Session, FrameType, data_frame, headers_frame, other_frame}

-- `send_callback`: the call of `write` that it makes, and what it returns.
unfoldable send_callback : Http2Session → Text → ℤ → (ℕ × Text) × ℤ
send_callback session bytes rv = ((session.fd, bytes), rv)

-- "收到头部: ", as UTF-8
unfoldable header_received : Text
header_received =
    230 ∷ 148 ∷ 182 ∷ 229 ∷ 136 ∷ 176 ∷ 229 ∷ 164 ∷ 180 ∷ 233 ∷ 131 ∷ 168 ∷ 58 ∷ 32 ∷ []

-- `on_header_callback`, with whether the category is that of a request: the line that it prints, if any.
unfoldable on_header : FrameType → Bool → Text → Text → Option Text
on_header data_frame request name value = none
on_header other_frame request name value = none
on_header headers_frame false name value = none
on_header headers_frame true name value = some (header_received ++ (name ++ (58 ∷ 32 ∷ value)))

-- What is registered.
data SessionCallback : Type 0 where
  sending frame_received data_chunk_received header_read : SessionCallback

-- The settings that are submitted.
data Setting : Type 0 where
  max_concurrent_streams initial_window_size : ℕ → Setting

-- The calls of nghttp2.
data SessionCall : Type 0 where
  creates_callbacks : SessionCall
  sets_callback : SessionCallback → SessionCall
  creates_session : SessionCall
  deletes_callbacks : SessionCall
  submits_settings : List Setting → SessionCall

-- The calls of `create_http2_session`, in their order.
unfoldable set_up_calls : List SessionCall
set_up_calls =
    creates_callbacks
    ∷ sets_callback sending
    ∷ sets_callback frame_received
    ∷ sets_callback data_chunk_received
    ∷ sets_callback header_read
    ∷ creates_session
    ∷ deletes_callbacks
    ∷ submits_settings (max_concurrent_streams 100 ∷ initial_window_size 65535 ∷ [])
    ∷ []
