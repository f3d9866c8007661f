-- ===== src/DemoServer/Exchange.antt =====
-- From the bytes of the requests to the frames that a client hands on, in the order of their numbers.
use mathlib.Core.List.Perm
use tcp_test.Common.{
  ℕ, ◌*◌, ◌^◌, ◌≤◌, ◌<◌, ◌≡◌, refl, ap, ◌∙◌, Bool, List, [], map, length, All, arith,
}
use tcp_test.Frame.{Frame, IsByte, IsU32}
use tcp_test.Frame.RoundTrip.{Fits}
use tcp_test.Parser.Chunks.{receive_all, concat, serialize_all, sent, receive_all-serialize}
use tcp_test.Reorder.{lane_run, empty_lane}
use tcp_test.Reorder.InOrder.{Numbered, lane_run-perm}
use tcp_test.StreamManager.{StreamManager, new_manager}
use tcp_test.StreamManager.Streams.{of_stream}
use tcp_test.DemoServer.{handle_read, waiting, write_rounds}
use tcp_test.DemoServer.Reading.{handle_all, handle_read-receive_all}
use tcp_test.DemoServer.Responses.{
  all_responses-sent, all_responses, handle_all-outgoing, write_rounds-serialize,
  all_responses-Fits, all_responses-Numbered, of_stream-responses, length-all_responses,
  of_stream-sent, Numbered-sent, length-sent,
}

-- The bytes that the writer sends for requests that were received.
pub written_bytes :
    (enabled : Bool) (u : ℕ) (requests : List Frame) (n : ℕ)
    → 5 * length requests ≤ n
    → (write_rounds n enabled (handle_all u new_manager (map (sent enabled) requests))).0
      ≡ serialize_all enabled (all_responses u requests)
written_bytes enabled u requests n rounds =
    ap (λ (r : List ℕ × StreamManager). r.0)
      (write_rounds-serialize enabled n (all_responses u requests) _ queued
        (omega (arith, length-all_responses u requests)))
  where
    queued :
        (handle_all u new_manager (map (sent enabled) requests)).outgoing_frames
        ≡ all_responses u requests
    queued =
        ap (λ (m : StreamManager). m.outgoing_frames)
          (handle_all-outgoing u (map (sent enabled) requests) new_manager)
        ∙ all_responses-sent enabled u requests

-- The reader, on the bytes of requests.
pub handle_read-serialize :
    (enabled : Bool) (u : ℕ) (requests : List Frame) (up : List (List ℕ))
    → All Fits requests
    → All (All IsByte) up
    → concat up ≡ serialize_all enabled requests
    → handle_read u new_manager [] up
      ≡ waiting (handle_all u new_manager (map (sent enabled) requests)) []
handle_read-serialize enabled u requests up fit up_bytes up_sent =
    handle_read-receive_all u up new_manager [] tt up_bytes
    ∙ rw (receive_all-serialize enabled requests up fit up_sent up_bytes) refl

module _ (enabled : Bool) (u : ℕ) (requests : List Frame) (s n : ℕ) (up down : List (List ℕ))
    (u32 : IsU32 u) (fit : All Fits requests) (numbered : Numbered 0 (of_stream s requests))
    (few : 5 * length (of_stream s requests) < 2 ^ 32) (rounds : 5 * length requests ≤ n)
    (up_bytes : All (All IsByte) up) (up_sent : concat up ≡ serialize_all enabled requests)
    (down_bytes : All (All IsByte) down)
    (down_sent : concat down
      ≡ (write_rounds n enabled (handle_all u new_manager (map (sent enabled) requests))).0) where
  written : concat down ≡ serialize_all enabled (all_responses u requests)
  written = down_sent ∙ written_bytes enabled u requests n rounds

  arrived : (receive_all [] down).frames ≡ map (sent enabled) (all_responses u requests)
  arrived =
      rw
        (receive_all-serialize enabled (all_responses u requests) down
          (all_responses-Fits u requests u32 fit) written down_bytes)
        refl

  counted :
      (fs : List Frame)
      → Numbered 0 fs
      → length fs ≡ 5 * length (of_stream s requests)
      → lane_run empty_lane (map (sent enabled) fs) ≡ record {
        delivered = map (sent enabled) fs;
        lane = record { queue = []; next = 5 * length (of_stream s requests) };
      }
  counted fs num e =
      lane_run-perm (map (sent enabled) fs) (map (sent enabled) fs)
        (omega (arith, length-sent enabled fs, e)) (Numbered-sent enabled 0 fs num) (Perm.refl _)
      ∙ ap
          (λ (k : ℕ). record {
            delivered = map (sent enabled) fs;
            lane = record { queue = []; next = k };
          })
          (length-sent enabled fs ∙ e)

  -- From end to end. Clients' requests that fit the wire format reach the server cut anyhow; it answers,
  -- and its writer's bytes reach the client cut anyhow. Then the server has read every request and
  -- nothing else, and the client's queue of a stream whose requests were numbered from 0 up hands on the
  -- five responses to each, all of them and in order. Sequence numbers stay below 2 ^ 32, and the
  -- writer makes a round for every response at least.
  pub exchange :
      (handle_read u new_manager [] up
        ≡ waiting (handle_all u new_manager (map (sent enabled) requests)) [])
      × (lane_run empty_lane (of_stream s (receive_all [] down).frames) ≡ record {
        delivered = map (sent enabled) (all_responses u (of_stream s requests));
        lane = record { queue = []; next = 5 * length (of_stream s requests) };
      })
  exchange = (
    handle_read-serialize enabled u requests up fit up_bytes up_sent,
    rw
        (
          arrived,
          of_stream-sent enabled s (all_responses u requests),
          of_stream-responses u s requests,
        )
        (counted (all_responses u (of_stream s requests))
          (all_responses-Numbered u 0 (of_stream s requests) numbered (omega arith))
          (length-all_responses u (of_stream s requests))),
  )
