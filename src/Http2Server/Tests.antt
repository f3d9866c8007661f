-- ===== src/Http2Server/Tests.antt =====
-- Two streams that send a body at the same time, and a response in two frames.
use tcp_test.Common.{
  All, refl, ◌≡◌, true, false, none, some, List, [], ◌∷◌, ◌++◌, length, arith, pos, negsuc,
}
use tcp_test.Common.Decimal.{spelled}
use tcp_test.Common.OrdMap.{find}
use tcp_test.Http2Server.{
  Http2Session, data_frame, headers_frame, Provided, provide, deleted, response_text,
  response_headers, handle_post_data, cleanup, closed, received, refused, accepted, accept_loop,
  Accepted, serve_connection, event_loop,
}
use tcp_test.Http2Server.Bodies.{Event, chunk, frame, run, collect, bodies_of, run-collect}
use tcp_test.Http2Server.Provider.{response-provided}
use tcp_test.Http2Server.Connections.{Ends, StopsAt, cleanups, descriptors, accept_loop_lem}
use tcp_test.Frame.{is_empty}

abbrev session : Http2Session
session = record { fd = 5; stream_data = [] }

abbrev events : List Event
events =
    frame headers_frame false 1
    ∷ chunk 1 (65 ∷ [])
    ∷ chunk 3 (66 ∷ [])
    ∷ chunk 1 (67 ∷ [])
    ∷ frame data_frame true 1
    ∷ frame data_frame true 7
    ∷ []

run-collect_example :
    (bodies_of 1 (run session events).0 ≡ (65 ∷ 67 ∷ []) ∷ [])
    × (find 1 (run session events).1.stream_data ≡ none)
unfolding collect find
run-collect_example = run-collect events session 1 tt

response-provided_example :
    (p : Provided) × (provide (30 ∷ 30 ∷ []) (handle_post_data (pos 0) (pos 0)).1 ≡ some p)
    × (p.body ≡ response_text)
    × (length p.body ≡ spelled 0 response_headers.content_length)
    × (p.finished ≡ true)
    × (p.left ≡ deleted)
response-provided_example =
    response-provided (30 ∷ 30 ∷ []) (pos 0) (unfold response_text in omega arith)

abbrev accepts : List Accepted
accepts =
    accepted 5 (pos 0) (received (pos 3) (pos 0) ∷ closed ∷ [])
    ∷ refused
    ∷ accepted 6 (negsuc 0) []
    ∷ accepted 7 (pos 0) []
    ∷ []

two_cleaned : accept_loop accepts ≡ (cleanup 5 ++ cleanup 6, false)
unfolding accept_loop serve_connection event_loop
two_cleaned = refl

accept_loop_lem_example :
    (front : List Accepted) × (back : List Accepted) × (accepts ≡ front ++ back)
    × All Ends front
    × StopsAt back
    × (accept_loop accepts ≡ (cleanups (descriptors front), is_empty back))
accept_loop_lem_example = accept_loop_lem accepts
