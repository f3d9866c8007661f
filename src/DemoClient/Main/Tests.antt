-- ===== src/DemoClient/Main/Tests.antt =====
-- The three threads from their start to the end, and what the client prints for the second of them.
use tcp_test.Common.{
  ◌≡◌, ◌∙◌, refl, ap, sym, subst, false, List, [], ◌∷◌, map, All, arith, append-nil,
}
use tcp_test.Frame.{Frame, IsByte}
use tcp_test.Frame.RoundTrip.{Fits}
use tcp_test.Parser.Chunks.{concat, receive_all, serialize_all, serialize_all-IsByte, sent}
use tcp_test.StreamManager.{new_manager}
use tcp_test.StreamManager.Streams.{of_stream}
use tcp_test.DemoServer.Serving
use tcp_test.DemoServer.Serving.{Serving, accepted_connection, reads, IsServed}
use tcp_test.DemoServer.Serving.Progress
use tcp_test.DemoServer.Serving.Progress.{responses_finish}
use tcp_test.DemoServer.Serving.Requests.{all_answered}
use tcp_test.Parser.{receive}
use tcp_test.DemoServer.Reading.{handle_all, read_loop-receive}
use tcp_test.DemoServer.Responses.{all_responses, all_responses-Fits}
use tcp_test.DemoClient.{new_client, new_reader, handle_read}
use tcp_test.DemoClient.Main.{Program, before, Reach, start, Runs, IsFinished}
use tcp_test.DemoClient.Main.Order.{messages, InOrder, Reach-InOrder}
use tcp_test.DemoClient.Main.Finish.{main_finishes, Runs-Reach}
use tcp_test.DemoClient.Main.Exchange.{all_sent, main-prints}

abbrev started : Program
started = record { client = new_client; loops = λ i. before 0; socket = [] }

main_finishes_example : (t : Program) × Runs false 9 started t × IsFinished t
main_finishes_example = main_finishes false 9 (omega arith) (start refl)

ended : (s : Program) × Reach false 9 s × IsFinished s
ended =
    let (t, runs, finished) = main_finishes false 9 (omega arith) (start {s = started} refl) in
    (t, Runs-Reach false 9 runs (start refl), finished)

in_order : InOrder false 9 ended.0
in_order = Reach-InOrder false 9 (omega arith) ended.1

abbrev requests : List Frame
requests = in_order.written

requests-Fits : All Fits requests
requests-Fits = subst (All Fits) (all_sent in_order ended.2) in_order.fit

up-IsByte : All IsByte ended.0.socket
up-IsByte =
    subst (All IsByte) (sym in_order.sent_bytes) (serialize_all-IsByte false requests requests-Fits)

-- The connection has read all of it in one piece.
abbrev has_read : Serving
has_read = record accepted_connection {
  buffer = (receive [] ended.0.socket).buffer;
  pending = (handle_all 8 new_manager (receive [] ended.0.socket).frames).outgoing_frames;
  received = ended.0.socket ∷ [];
}

has_read-Reach : Serving.Reach false 8 has_read
has_read-Reach = Serving.next (Serving.start refl) (
    reads ended.0.socket (receive [] ended.0.socket).buffer
      (handle_all 8 new_manager (receive [] ended.0.socket).frames) refl refl up-IsByte
      (read_loop-receive 8 new_manager [] ended.0.socket up-IsByte) refl)

has_served :
    (c : Serving) × Serving.Runs false 8 has_read c
    × IsServed c
    × (c.received ≡ ended.0.socket ∷ [])
    × (c.sent_bytes
        ≡ serialize_all false (all_responses 8 (receive_all [] (ended.0.socket ∷ [])).frames))
has_served = responses_finish false 8 has_read-Reach refl

served-Reach : Serving.Reach false 8 has_served.0
served-Reach = Progress.Runs-Reach false 8 has_served.1 has_read-Reach

came : concat has_served.0.received ≡ ended.0.socket
came = ap concat has_served.3 ∙ append-nil ended.0.socket

sent-IsByte : All IsByte has_served.0.sent_bytes
sent-IsByte =
    subst (All IsByte)
      (sym (
        all_answered false 8 requests served-Reach requests-Fits (came ∙ in_order.sent_bytes)
          has_served.2))
      (serialize_all-IsByte false (all_responses 8 requests)
        (all_responses-Fits 8 requests (omega arith) requests-Fits))

main-prints_example :
    (has_served.0.buffer ≡ [])
    × (of_stream 2 (handle_read false new_reader [] (has_served.0.sent_bytes ∷ [])).printed
        ≡ map (sent false) (all_responses 8 (messages 9 1 5)))
main-prints_example =
    main-prints false 9 8 1 ended.0 has_served.0 (has_served.0.sent_bytes ∷ []) (omega arith)
      (omega arith) ended.1 ended.2 (omega arith) served-Reach has_served.2 came (sent-IsByte, tt)
      (append-nil has_served.0.sent_bytes)
