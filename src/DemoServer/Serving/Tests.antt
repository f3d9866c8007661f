-- ===== src/DemoServer/Serving/Tests.antt =====
-- A connection that has read one request, before and after its responses are queued.
use tcp_test.Common.{ℕ, ◌≡◌, refl, subst, false, true, List, [], ◌∷◌, ◌++◌, All, arith, append-nil}
use tcp_test.Frame.{IsByte, serialize}
use tcp_test.Parser.{receive}
use tcp_test.Parser.Chunks.{receive_all, serialize_all, serialize_all-IsByte}
use tcp_test.Samples.{numbered, numbered-Fits}
use tcp_test.StreamManager.{new_manager}
use tcp_test.DemoServer.Reading.{handle_all, read_loop-receive}
use tcp_test.DemoServer.Responses.{all_responses}
use tcp_test.DemoServer.Serving.{
  Serving, accepted_connection, reads, Reach, start, next, Runs, IsServed,
}
use tcp_test.DemoServer.Serving.Order.{responses_in_order}
use tcp_test.DemoServer.Serving.Progress.{
  responses_finish, closed-strays, all_pending, queues_out, Runs-Reach,
}

abbrev request : List ℕ
request = serialize false (numbered 2 7)

request-IsByte : All IsByte request
request-IsByte = subst (All IsByte) (append-nil request) (
    serialize_all-IsByte false (numbered 2 7 ∷ [])
      (numbered-Fits 2 7 (omega arith) (omega arith), tt))

abbrev has_read : Serving
has_read = record accepted_connection {
  buffer = (receive [] request).buffer;
  pending = (handle_all 9 new_manager (receive [] request).frames).outgoing_frames;
  received = request ∷ [];
}

has_read-Reach : Reach false 9 has_read
has_read-Reach = next (start refl) (
    reads request (receive [] request).buffer (handle_all 9 new_manager (receive [] request).frames)
      refl refl request-IsByte (read_loop-receive 9 new_manager [] request request-IsByte) refl)

responses_in_order_example :
    (has_read.sent_bytes ++ (has_read.stray_bytes ++ serialize_all false ([] ++ has_read.pending))
      ≡ serialize_all false (all_responses 9 (receive_all [] (request ∷ [])).frames))
    × (true ≡ true → has_read.stray_bytes ≡ [])
responses_in_order_example = responses_in_order false 9 has_read-Reach

responses_finish_example :
    (t : Serving) × Runs false 9 has_read t
    × IsServed t
    × (t.received ≡ request ∷ [])
    × (t.sent_bytes ≡ serialize_all false (all_responses 9 (receive_all [] (request ∷ [])).frames))
responses_finish_example = responses_finish false 9 has_read-Reach refl

abbrev has_queued : Serving
has_queued = all_pending false 9 has_read

has_queued-Reach : Reach false 9 has_queued
has_queued-Reach =
    Runs-Reach false 9 (queues_out false 9 has_read.pending has_read refl) has_read-Reach

closed-strays_example :
    (t : Serving) × Runs false 9 has_queued t
    × (t.is_open ≡ false)
    × (t.sent_bytes ≡ [])
    × (t.stray_bytes ≡ serialize_all false has_queued.manager.outgoing_frames)
closed-strays_example = closed-strays false 9 has_queued-Reach refl refl
