-- ===== src/RpcServer/Answers.antt =====
-- From a request's bytes to the answer's: the server's reader, the callback and the writer's queue.
use tcp_test.Common.{
  ℕ, ◌≡◌, refl, sym, ap, ◌∙◌, Bool, some, List, [], ◌∷◌, ◌++◌, map, All, append_assoc, append-nil,
  ℤ, pos, map-append,
}
use tcp_test.Common.OrdMap.{find, assign, find-assign_self}
use tcp_test.Frame.{Frame, IsByte, serialize}
use tcp_test.Frame.RoundTrip.{Fits}
use tcp_test.Handler.{create_frame}
use tcp_test.Parser.{Received, receive}
use tcp_test.Parser.Chunks.{receive_all, concat, serialize_all, sent, receive_all-serialize}
use tcp_test.ClientHandler
use tcp_test.ClientHandler.{ClientHandler, read_bytes, own_all}
use tcp_test.TcpServer.{TcpServer, response, read_client}
use tcp_test.RpcServer.{greeting, handle_request, handle_requests, serve}

-- The answer to a request.
unfoldable pub answer : ℕ → Frame → Frame
answer u f = create_frame u f.stream_id f.sequence (greeting ++ f.payload)

abbrev answer_bytes : Bool → ℕ → Frame → List ℕ
answer_bytes enabled u f = serialize enabled (answer u f)

-- A handler that has read and queued something.
abbrev after : ClientHandler → List ℕ → List (List ℕ) → ClientHandler
after h buffer queued = record h {
  frame_buffer = buffer;
  outgoing_queue = h.outgoing_queue ++ queued;
}

handle_request-queues :
    (enabled : Bool) (u : ℕ) (s : TcpServer) (id : ℕ) (f : Frame) (h : ClientHandler)
    → find id s.clients ≡ some h
    → find id (handle_request enabled u s id f.stream_id f.sequence f.payload).clients
      ≡ some (after h h.frame_buffer (answer_bytes enabled u f ∷ []))
unfolding handle_request response answer ClientHandler.write
handle_request-queues enabled u s id f h e =
    rw (e, response)
      (find-assign_self id (after h h.frame_buffer (answer_bytes enabled u f ∷ [])) s.clients)

handle_requests-queue :
    (enabled : Bool) (u : ℕ) (fs : List Frame) (s : TcpServer) (id : ℕ) (h : ClientHandler) (c : ℤ)
    → find id s.clients ≡ some h
    → find id (handle_requests enabled u s id (own_all c fs)).clients
      ≡ some (after h h.frame_buffer (map (answer_bytes enabled u) fs))
unfolding handle_requests own_all
handle_requests-queue enabled u [] s id h c e =
    e
    ∙ ap (λ (q : List (List ℕ)). some (record h { outgoing_queue = q }))
        (sym (append-nil h.outgoing_queue))
handle_requests-queue enabled u (f ∷ fs) s id h c e =
    handle_requests-queue enabled u fs
      (handle_request enabled u s id f.stream_id f.sequence f.payload) id
      (after h h.frame_buffer (answer_bytes enabled u f ∷ [])) c
      (handle_request-queues enabled u s id f h e)
    ∙ ap (λ (q : List (List ℕ)). some (record h { outgoing_queue = q }))
        (append_assoc h.outgoing_queue (answer_bytes enabled u f ∷ [])
          (map (answer_bytes enabled u) fs))

read_client-finds :
    (s : TcpServer) (id : ℕ) (h : ClientHandler) (bytes : List ℕ)
    → find id s.clients ≡ some h
    → (s' : TcpServer) × (read_client s id bytes
        ≡ (own_all (pos id) (receive h.frame_buffer bytes).frames, s'))
      × (find id s'.clients
          ≡ some (record h { frame_buffer = (receive h.frame_buffer bytes).buffer }))
unfolding read_client read_bytes
read_client-finds s id h bytes e =
    let h' : ClientHandler = record h { frame_buffer = (receive h.frame_buffer bytes).buffer } in
    (
      record s { clients = assign id h' s.clients },
      rw (e, read_client) refl,
      find-assign_self id h' s.clients,
    )

-- A connection's reader keeps the rest of what it received, and queues an answer to every frame.
serve-finds :
    (enabled : Bool) (u : ℕ) (pieces : List (List ℕ)) (s : TcpServer) (id : ℕ) (h : ClientHandler)
    → find id s.clients ≡ some h
    → let r = receive_all h.frame_buffer pieces in
      find id (serve enabled u s id pieces).clients
      ≡ some (after h r.buffer (map (answer_bytes enabled u) r.frames))
unfolding serve receive_all
serve-finds enabled u [] s id h e =
    e
    ∙ ap (λ (q : List (List ℕ)). some (record h { outgoing_queue = q }))
        (sym (append-nil h.outgoing_queue))
serve-finds enabled u (bytes ∷ more) s id h e =
    let (s', read_, there) = read_client-finds s id h bytes e in
    let got : Received = receive h.frame_buffer bytes in
    let h' : ClientHandler = record h { frame_buffer = got.buffer } in
    let queued = handle_requests-queue enabled u got.frames s' id h' (pos id) there in
    rw (read_, serve)
      (serve-finds enabled u more (handle_requests enabled u s' id (own_all (pos id) got.frames)) id
          (after h' got.buffer (map (answer_bytes enabled u) got.frames)) queued
        ∙ ap
            (λ (q : List (List ℕ)). some (record h {
              frame_buffer = (receive_all got.buffer more).buffer;
              outgoing_queue = q;
            }))
            (append_assoc h.outgoing_queue (map (answer_bytes enabled u) got.frames)
                (map (answer_bytes enabled u) (receive_all got.buffer more).frames)
              ∙ ap (◌++◌ h.outgoing_queue)
                  (sym (map-append _ (receive h.frame_buffer bytes).frames _))))

answers-sent :
    (enabled : Bool) (u : ℕ) (fs : List Frame)
    → map (answer_bytes enabled u) (map (sent enabled) fs) ≡ map (answer_bytes enabled u) fs
unfolding answer
answers-sent enabled u [] = refl
answers-sent enabled u (f ∷ fs) = ap (◌∷◌ (answer_bytes enabled u f)) (answers-sent enabled u fs)

-- Requests that fit the wire format reach the server on a connection whose buffer and queue are empty,
-- cut anyhow on their way: afterwards the queue holds the bytes of the answers to all of them, in order
-- and once each, and the buffer is empty again.
pub serve-answers :
    (enabled : Bool) (u : ℕ) (fs : List Frame) (pieces : List (List ℕ)) (s : TcpServer) (id : ℕ)
    (h : ClientHandler)
    → All Fits fs
    → All (All IsByte) pieces
    → concat pieces ≡ serialize_all enabled fs
    → find id s.clients ≡ some h
    → h.frame_buffer ≡ []
    → h.outgoing_queue ≡ []
    → find id (serve enabled u s id pieces).clients
      ≡ some (record h {
        frame_buffer = [];
        outgoing_queue = map (λ f. serialize enabled (answer u f)) fs;
      })
serve-answers enabled u fs pieces s id h v b e there empty_buffer empty_queue =
    let got : receive_all h.frame_buffer pieces
        ≡ record { frames = map (sent enabled) fs; buffer = [] } =
      rw empty_buffer (receive_all-serialize enabled fs pieces v e b) in
    serve-finds enabled u pieces s id h there
    ∙ ap (λ (r : Received). some (after h r.buffer (map (answer_bytes enabled u) r.frames))) got
    ∙ ap (λ (q : List (List ℕ)). some (record h { frame_buffer = []; outgoing_queue = q }))
        (ap (λ (q : List (List ℕ)). q ++ map (answer_bytes enabled u) (map (sent enabled) fs))
            empty_queue
          ∙ answers-sent enabled u fs)
