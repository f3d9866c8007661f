-- ===== src/TcpServer/Streams.antt =====
-- The stream processors: what `processIncomingData` puts into their queues, and what they call back.
use tcp_test.Common.{
  ℕ, ◌≡◌, refl, sym, ap, subst, ◌∙◌, Bool, true, false, none, some, List, [], ◌∷◌, ◌++◌, map, All,
  arith, if◌then◌else◌, append_assoc, append-nil, ℤ, pos, suc, Bool-cases, inl, inr,
}
use native.Mathlib.Decide.{ℕ_discrete}
use tcp_test.Common.OrdMap.{
  OrdMap, find, find_or, assign, From, find_below, find_or-assign_self, find_or-assign_ne,
}
use tcp_test.Frame.{Frame, IsByte, verify_checksum, calculate_checksum}
use tcp_test.Parser.{Received, receive}
use tcp_test.Parser.Chunks.{receive_all, concat, serialize_all, sent, receive_all-serialize}
use tcp_test.StreamManager.Streams.{of_stream, of_stream-append, of_stream_self, of_stream_skip}
use tcp_test.ClientHandler.{ClientHandler, own_all}
use tcp_test.Frame.RoundTrip.{Fits}
use tcp_test.TcpServer.{
  TcpServer, add_frame, add_frames, process_incoming_data, StreamCall, requests, process_frame,
  process_frames, cleanup_streams, cleanup_inactive_streams,
}

-- The queue of a stream.
abbrev pub queue_of : TcpServer → ℕ → List Frame
queue_of s k = find_or [] k s.stream_processors

add_frame-queue :
    (s : TcpServer) (f : Frame) (k : ℕ)
    → queue_of (add_frame s f) k ≡ queue_of s k ++ of_stream k (f ∷ [])
unfolding add_frame
add_frame-queue s f k = elim (ℕ_discrete f.stream_id k) [
  | yes same ↦
      subst (λ (j : ℕ). queue_of (add_frame s f) j ≡ queue_of s j ++ of_stream j (f ∷ [])) same own
  | no other ↦
      find_or-assign_ne [] f.stream_id k (queue_of s f.stream_id ++ (f ∷ [])) s.stream_processors
        other
      ∙ sym (append-nil (queue_of s k))
      ∙ ap (◌++◌ (queue_of s k)) (sym (of_stream_skip k f [] other ∙ empty k))
]
  where
    empty : (j : ℕ) → of_stream j [] ≡ []
    empty j = unfold of_stream in refl

    own :
        queue_of (add_frame s f) f.stream_id
        ≡ queue_of s f.stream_id ++ of_stream f.stream_id (f ∷ [])
    own =
        find_or-assign_self [] f.stream_id (queue_of s f.stream_id ++ (f ∷ [])) s.stream_processors
        ∙ ap (λ (l : List Frame). queue_of s f.stream_id ++ l)
            (sym (of_stream_self f [] ∙ ap (◌∷◌ f) (empty f.stream_id)))

add_frames-queue :
    (fs : List Frame) (s : TcpServer) (k : ℕ)
    → queue_of (add_frames s fs) k ≡ queue_of s k ++ of_stream k fs
unfolding add_frames
add_frames-queue [] s k = unfold of_stream in sym (append-nil (queue_of s k))
add_frames-queue (f ∷ fs) s k =
    add_frames-queue fs (add_frame s f) k
    ∙ ap (λ (q : List Frame). q ++ of_stream k fs) (add_frame-queue s f k)
    ∙ append_assoc (queue_of s k) (of_stream k (f ∷ [])) (of_stream k fs)
    ∙ ap (◌++◌ (queue_of s k)) (sym (of_stream-append k (f ∷ []) fs))

add_frames-keeps :
    (fs : List Frame) (s : TcpServer)
    → ((add_frames s fs).clients ≡ s.clients)
      × ((add_frames s fs).client_buffers ≡ s.client_buffers)
unfolding add_frames add_frame
add_frames-keeps [] s = (refl, refl)
add_frames-keeps (f ∷ fs) s = add_frames-keeps fs (add_frame s f)

own_all-append : (c : ℤ) (fs gs : List Frame) → own_all c (fs ++ gs) ≡ own_all c fs ++ own_all c gs
unfolding own_all
own_all-append c [] gs = refl
own_all-append c (f ∷ fs) gs = ap (◌∷◌ (record f { client_id = c })) (own_all-append c fs gs)

-- Bytes of one client that arrive one after the other.
unfoldable pub process_all : TcpServer → ℕ → List (List ℕ) → TcpServer
process_all s id [] = s
process_all s id (bytes ∷ more) = process_all (process_incoming_data s id bytes) id more

process-step :
    (s : TcpServer) (id : ℕ) (h : ClientHandler) (bytes : List ℕ) (k : ℕ)
    → find id s.clients ≡ some h
    → let r = receive (find_or [] id s.client_buffers) bytes in
      let s' = process_incoming_data s id bytes in
      (find id s'.clients ≡ some h)
      × (find_or [] id s'.client_buffers ≡ r.buffer)
      × (queue_of s' k ≡ queue_of s k ++ of_stream k (own_all (pos id) r.frames))
unfolding process_incoming_data
process-step s id h bytes k there =
    let r : Received = receive (find_or [] id s.client_buffers) bytes in
    let t : TcpServer = record s { client_buffers = assign id r.buffer s.client_buffers } in
    let (clients_, buffers_) = add_frames-keeps (own_all (pos id) r.frames) t in
    (
      rw (there, process_incoming_data, clients_) there,
      rw (there, process_incoming_data, buffers_)
          (find_or-assign_self [] id r.buffer s.client_buffers),
      rw (there, process_incoming_data) (add_frames-queue (own_all (pos id) r.frames) t k),
    )

-- Whatever a connected client sends and however it is cut: the queue of each stream grows by that
-- stream's frames among those that a reader with FrameParser receives, in their order and under the
-- client's id, and by no others.
pub process_all-queue :
    (pieces : List (List ℕ)) (s : TcpServer) (id : ℕ) (h : ClientHandler) (k : ℕ)
    → find id s.clients ≡ some h
    → queue_of (process_all s id pieces) k
      ≡ queue_of s k
        ++ of_stream k
            (own_all (pos id) (receive_all (find_or [] id s.client_buffers) pieces).frames)
unfolding process_all receive_all
process_all-queue [] s id h k there = unfold own_all of_stream in sym (append-nil (queue_of s k))
process_all-queue (bytes ∷ more) s id h k there =
    let r : Received = receive (find_or [] id s.client_buffers) bytes in
    let (there', buffer_, queue_) = process-step s id h bytes k there in
    let later : List Frame = (receive_all r.buffer more).frames in
    process_all-queue more (process_incoming_data s id bytes) id h k there'
    ∙ ap
        (λ (b : List ℕ).
          queue_of (process_incoming_data s id bytes) k
          ++ of_stream k (own_all (pos id) (receive_all b more).frames))
        buffer_
    ∙ ap (λ (q : List Frame). q ++ of_stream k (own_all (pos id) later)) queue_
    ∙ append_assoc (queue_of s k) (of_stream k (own_all (pos id) r.frames))
        (of_stream k (own_all (pos id) later))
    ∙ ap (◌++◌ (queue_of s k)) (
        sym (
          ap (of_stream k) (own_all-append (pos id) r.frames later)
          ∙ of_stream-append k (own_all (pos id) r.frames) (own_all (pos id) later)))

-- A call of the request callback for a frame of a client.
abbrev pub request_of : ℕ → Frame → StreamCall
request_of id f = requests (pos id) f.stream_id f.sequence f.payload

-- What a reader makes of a frame that `serialize` has sent.
abbrev arrived : Bool → ℕ → Frame → Frame
arrived enabled id f = record (sent enabled f) { client_id = pos id }

verify-arrived :
    (enabled : Bool) (id : ℕ) (f : Frame) → verify_checksum enabled (arrived enabled id f) ≡ true
unfolding verify_checksum calculate_checksum
verify-arrived enabled id f = ground arith

of_stream_on :
    (k : ℕ) (f : Frame) (fs : List Frame)
    → f.stream_id ≡ k
    → of_stream k (f ∷ fs) ≡ f ∷ of_stream k fs
unfolding of_stream
of_stream_on k f fs e = ground (arith, e)

process-arrived :
    (enabled : Bool) (id : ℕ) (f : Frame)
    → process_frame enabled false true (arrived enabled id f) ≡ request_of id f ∷ []
unfolding process_frame
process-arrived enabled id f = rw (verify-arrived enabled id f) refl

process_frames-sent :
    (enabled : Bool) (id k : ℕ) (fs : List Frame)
    → process_frames enabled false true (of_stream k (own_all (pos id) (map (sent enabled) fs)))
      ≡ map (request_of id) (of_stream k fs)
unfolding process_frames own_all
process_frames-sent enabled id k [] = unfold of_stream in refl
process_frames-sent enabled id k (f ∷ fs) = elim (ℕ_discrete f.stream_id k) [
  | yes same ↦
      ap (process_frames enabled false true)
        (of_stream_on k (arrived enabled id f) (own_all (pos id) (map (sent enabled) fs)) same)
      ∙ ap
          (λ (l : List StreamCall).
            l
            ++ process_frames enabled false true
                (of_stream k (own_all (pos id) (map (sent enabled) fs))))
          (process-arrived enabled id f)
      ∙ ap (◌∷◌ (request_of id f)) (process_frames-sent enabled id k fs)
      ∙ ap (map (request_of id)) (sym (of_stream_on k f fs same))
  | no other ↦
      ap (process_frames enabled false true)
        (of_stream_skip k (arrived enabled id f) (own_all (pos id) (map (sent enabled) fs)) other)
      ∙ process_frames-sent enabled id k fs
      ∙ ap (map (request_of id)) (sym (of_stream_skip k f fs other))
]

-- Frames that fit the wire format reach a connected client's empty buffer, serialized with the checksum
-- flag of the server and cut anyhow. The processor of a stream whose queue was empty then calls the
-- request callback, if that alone is set, once for every frame of its stream, in order.
pub process_all-requests :
    (enabled : Bool) (fs : List Frame) (pieces : List (List ℕ)) (s : TcpServer) (id : ℕ)
    (h : ClientHandler) (k : ℕ)
    → All Fits fs
    → All (All IsByte) pieces
    → concat pieces ≡ serialize_all enabled fs
    → find id s.clients ≡ some h
    → find_or [] id s.client_buffers ≡ []
    → queue_of s k ≡ []
    → process_frames enabled false true (queue_of (process_all s id pieces) k)
      ≡ map (request_of id) (of_stream k fs)
process_all-requests enabled fs pieces s id h k v b e there no_bytes no_frames =
    ap (process_frames enabled false true) (
      process_all-queue pieces s id h k there
      ∙ ap
          (λ (q : List Frame).
            q
            ++ of_stream k
                (own_all (pos id) (receive_all (find_or [] id s.client_buffers) pieces).frames))
          no_frames
      ∙ ap (λ (bytes : List ℕ). of_stream k (own_all (pos id) (receive_all bytes pieces).frames))
          no_bytes
      ∙ ap (λ (r : Received). of_stream k (own_all (pos id) r.frames))
          (receive_all-serialize enabled fs pieces v e b))
    ∙ process_frames-sent enabled id k fs

cleanup-find :
    (held : ℕ → Bool) (k n : ℕ) (m : OrdMap (List Frame))
    → From n m
    → find k (cleanup_streams held m) ≡ (if held k then find k m else none)
unfolding cleanup_streams find
cleanup-find held k n [] f = elim (Bool-cases (held k)) [ inl e ↦ rw e refl | inr e ↦ rw e refl ]
cleanup-find held k n ((j, q) ∷ m) f = elim (ℕ_discrete j k) [
  | yes same ↦ ground (
    arith,
    same,
    ap held same,
    Bool-cases (held k),
    cleanup-find held k (suc j) m f.1,
    find_below k (suc j) m f.1,
  )
  | no other ↦
      ground
        (arith, other, Bool-cases (held j), Bool-cases (held k), cleanup-find held k (suc j) m f.1)
]

-- The minute's cleanup keeps the processors that are referred to outside the map, as they are, and takes
-- every other one away: the frames that waited in its queue are gone, and the stream's next processor
-- holds only those frames that a client's later data completes.
pub cleanup_inactive_streams-queue :
    (held : ℕ → Bool) (s : TcpServer) (k id : ℕ) (h : ClientHandler) (pieces : List (List ℕ))
    → From 0 s.stream_processors
    → find id s.clients ≡ some h
    → let s' = cleanup_inactive_streams held s in
      let later = own_all (pos id) (receive_all (find_or [] id s.client_buffers) pieces).frames in
      (find k s'.stream_processors ≡ (if held k then find k s.stream_processors else none))
      × (queue_of (process_all s' id pieces) k
          ≡ (if held k then queue_of s k ++ of_stream k later else of_stream k later))
unfolding cleanup_inactive_streams find_or
cleanup_inactive_streams-queue held s k id h pieces f there = (
  found,
  process_all-queue pieces (cleanup_inactive_streams held s) id h k there
      ∙ ground (arith, Bool-cases (held k), found),
)
  where
    found :
        find k (cleanup_streams held s.stream_processors)
        ≡ (if held k then find k s.stream_processors else none)
    found = cleanup-find held k 0 s.stream_processors f
