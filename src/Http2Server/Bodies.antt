-- ===== src/Http2Server/Bodies.antt =====
-- The bodies of requests: what the callbacks collect under a stream's id, and hand on at its end.
use native.Mathlib.Decide.{ℕ_discrete}
use tcp_test.Common.{
  ℕ, ◌≡◌, ◌≢◌, refl, ◌∙◌, Bool, true, false, ◌&&◌, Option, none, some, List, [], ◌∷◌, ◌++◌, arith,
  ◌==◌, if◌then◌else◌, Bool-cases, Option-cases, inl, inr, subst, ==_refl, ==_of_eq, ==_of_ne,
}
use tcp_test.Common.Text.{Text}
use tcp_test.Common.OrdMap.{
  From, find, find_or, assign, find-assign, find-erase_self, find-erase_ne, assign-From, erase-From,
}
use tcp_test.Http2Server.{
  Http2Session, FrameType, data_frame, headers_frame, other_frame, on_data_chunk_recv,
  on_frame_recv,
}

-- The callbacks that nghttp2 makes.
pub data Event : Type 0 where
  chunk : ℕ → Text → Event
  frame : FrameType → Bool → ℕ → Event

-- A body that is handed on, with its stream.
pub record Post : Type 0 where
  pub stream_id : ℕ
  pub body : Text

abbrev pub posts_of : ℕ → Option Text → List Post
posts_of id none = []
posts_of id (some body) = record { stream_id = id; body = body } ∷ []

unfoldable pub run : Http2Session → List Event → List Post × Http2Session
run session [] = ([], session)
run session (chunk id bytes ∷ events) = run (on_data_chunk_recv session id bytes) events
run session (frame type end_stream id ∷ events) =
    let (body, session') = on_frame_recv session type end_stream id in
    let (posts, session'') = run session' events in (posts_of id body ++ posts, session'')

-- A DATA frame with END_STREAM.
abbrev pub ends : FrameType → Bool → Bool
ends data_frame end_stream = end_stream
ends headers_frame end_stream = false
ends other_frame end_stream = false

abbrev pub texts_of : Option Text → List Text
texts_of none = []
texts_of (some s) = s ∷ []

-- One stream by itself: what it has collected, if anything, and the bodies handed on.
unfoldable pub collect : ℕ → Option Text → List Event → List Text × Option Text
collect id body [] = ([], body)
collect id body (chunk k bytes ∷ events) =
    collect id (if k == id then some ((elim body [ none ↦ [] | some s ↦ s ]) ++ bytes) else body)
      events
collect id body (frame type end_stream k ∷ events) =
    let kept = collect id body events in
    let ended = collect id none events in
    if ends type end_stream && (k == id) then (texts_of body ++ ended.0, ended.1) else kept

unfoldable pub bodies_of : ℕ → List Post → List Text
bodies_of id [] = []
bodies_of id (p ∷ ps) =
    let rest = bodies_of id ps in if p.stream_id == id then p.body ∷ rest else rest

bodies_of-append :
    (id : ℕ) (ps qs : List Post) → bodies_of id (ps ++ qs) ≡ bodies_of id ps ++ bodies_of id qs
unfolding bodies_of
bodies_of-append id [] qs = refl
bodies_of-append id (p ∷ ps) qs = ground (arith, bodies_of-append id ps qs)

find-chunk :
    (session : Http2Session) (k id : ℕ) (bytes : Text)
    → find id (on_data_chunk_recv session k bytes).stream_data ≡ (
        if k == id
        then some ((elim (find id session.stream_data) [ none ↦ [] | some s ↦ s ]) ++ bytes)
        else find id session.stream_data)
unfolding on_data_chunk_recv find_or
find-chunk session k id bytes = elim (ℕ_discrete k id) [
  | yes same ↦ rw (==_of_eq same) (
      subst
        (λ (j : ℕ).
          find j (assign k (found k ++ bytes) session.stream_data) ≡ some (found j ++ bytes))
        same (find-assign k k (found k ++ bytes) session.stream_data ∙ rw (==_refl k) refl))
  | no other ↦ find-assign k id (found k ++ bytes) session.stream_data ∙ rw (==_of_ne other) refl
]
  where
    found : ℕ → Text
    found j = elim (find j session.stream_data) [ none ↦ [] | some s ↦ s ]

abbrev Kept : Http2Session → ℕ → ℕ → Type 0
Kept session id k =
    let (body, session') = on_frame_recv session data_frame true k in
    (bodies_of id (posts_of k body)
      ≡ (if k == id then texts_of (find id session.stream_data) else []))
    × (find id session'.stream_data ≡ (if k == id then none else find id session.stream_data))
    × From 0 session'.stream_data

end_self : (session : Http2Session) (k : ℕ) → From 0 session.stream_data → Kept session k k
unfolding on_frame_recv bodies_of
end_self session k f = elim (Option-cases (find k session.stream_data)) [
  | inl e ↦ ground (arith, e, ==_refl k)
  | inr (body, e) ↦ ground (
    arith,
    e,
    ==_refl k,
    find-erase_self k 0 session.stream_data f,
    erase-From 0 k session.stream_data f,
  )
]

end_other :
    (session : Http2Session) (k id : ℕ) → k ≢ id → From 0 session.stream_data → Kept session id k
unfolding on_frame_recv bodies_of
end_other session k id other f = elim (Option-cases (find k session.stream_data)) [
  | inl e ↦ ground (arith, e, ==_of_ne other)
  | inr (body, e) ↦ ground (
    arith,
    e,
    ==_of_ne other,
    find-erase_ne k id session.stream_data other,
    erase-From 0 k session.stream_data f,
  )
]

chunk-From :
    (session : Http2Session) (k : ℕ) (bytes : Text)
    → From 0 session.stream_data
    → From 0 (on_data_chunk_recv session k bytes).stream_data
unfolding on_data_chunk_recv
chunk-From session k bytes f =
    assign-From 0 k (find_or [] k session.stream_data ++ bytes) session.stream_data (omega arith) f

frame-keeps :
    (session : Http2Session) (type : FrameType) (end_stream : Bool) (k id : ℕ)
    → From 0 session.stream_data
    → let (body, session') = on_frame_recv session type end_stream k in
      (bodies_of id (posts_of k body) ≡ (
        if ends type end_stream && (k == id) then texts_of (find id session.stream_data) else []))
      × (find id session'.stream_data
          ≡ (if ends type end_stream && (k == id) then none else find id session.stream_data))
      × From 0 session'.stream_data
unfolding on_frame_recv bodies_of
frame-keeps session headers_frame e k id f = (refl, refl, f)
frame-keeps session other_frame e k id f = (refl, refl, f)
frame-keeps session data_frame false k id f = (refl, refl, f)
frame-keeps session data_frame true k id f = elim (ℕ_discrete k id) [
  | yes same ↦ subst (λ (j : ℕ). Kept session j k) same (end_self session k f)
  | no other ↦ end_other session k id other f
]

-- Whatever the callbacks are and however the streams mix: the bodies handed on for a stream, and what is
-- collected of it at the end, are those of the stream by itself. A body is all the chunks that came
-- for the stream since the last end of one, and a stream that ends without a chunk hands nothing on.
pub run-collect :
    (events : List Event) (session : Http2Session) (id : ℕ)
    → From 0 session.stream_data
    → let (posts, session') = run session events in
      let (bodies, left) = collect id (find id session.stream_data) events in
      (bodies_of id posts ≡ bodies) × (find id session'.stream_data ≡ left)
unfolding run collect
run-collect [] session id f = (unfold bodies_of in refl, refl)
run-collect (chunk k bytes ∷ events) session id f =
    subst
      (λ (o : Option Text).
        (bodies_of id (run (on_data_chunk_recv session k bytes) events).0 ≡ (collect id o events).0)
        × (find id (run (on_data_chunk_recv session k bytes) events).1.stream_data
            ≡ (collect id o events).1))
      (find-chunk session k id bytes)
      (run-collect events (on_data_chunk_recv session k bytes) id (chunk-From session k bytes f))
run-collect (frame type end_stream k ∷ events) session id f =
    let session' = (on_frame_recv session type end_stream k).1 in
    let (posted, kept, f') = frame-keeps session type end_stream k id f in
    let ih : (bodies_of id (run session' events).0
          ≡ (collect id
              (if ends type end_stream && (k == id) then none else find id session.stream_data)
              events).0)
        × (find id (run session' events).1.stream_data
            ≡ (collect id
                (if ends type end_stream && (k == id) then none else find id session.stream_data)
                events).1) =
      subst
        (λ (o : Option Text).
          (bodies_of id (run session' events).0 ≡ (collect id o events).0)
          × (find id (run session' events).1.stream_data ≡ (collect id o events).1))
        kept (run-collect events session' id f') in
    let joined =
      bodies_of-append id (posts_of k (on_frame_recv session type end_stream k).0)
        (run session' events).0 in
    elim (Bool-cases (ends type end_stream && (k == id))) [
      | inl ended ↦ ground (arith, ended, joined, posted, ih.0, ih.1)
      | inr open_ ↦ ground (arith, open_, joined, posted, ih.0, ih.1)
    ]
