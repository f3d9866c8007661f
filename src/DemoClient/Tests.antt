-- ===== src/DemoClient/Tests.antt =====
-- Two messages of which the second overtakes the first.
use mathlib.Core.List.{Perm}
use tcp_test.Common.{
  map, sym, ◌∙◌, ◌<◌, ◌^◌, ℕ, ◌≡◌, refl, false, true, List, [], ◌∷◌, All, arith, append-nil,
}
use tcp_test.Common.OrdMap.{find_or, find, assign}
use tcp_test.Frame.{Frame}
use tcp_test.Frame.RoundTrip.{Fits}
use tcp_test.Parser.Chunks.{sent, serialize_all, serialize_all-IsByte}
use tcp_test.Reorder.InOrder.{Numbered}
use tcp_test.StreamManager.Streams.{of_stream}
use tcp_test.DemoClient.{
  new_client, new_reader, take_sequence, message_frame, push_frame, handle_read,
}
use tcp_test.DemoServer
use tcp_test.DemoServer.{waiting}
use tcp_test.DemoServer.Reading.{handle_all}
use tcp_test.DemoServer.Responses.{all_responses, all_responses-Fits}
use tcp_test.DemoServer.Exchange.{written_bytes}
use tcp_test.StreamManager.{new_manager}
use tcp_test.DemoClient.Conversation.{conversation-prints}
use tcp_test.DemoClient.Stopping
use tcp_test.DemoClient.Stopping.{Threads, sleeping, joining_reader, receiving, waiting, working}
use tcp_test.DemoClient.Sending.{Senders, Reach, takes, queues, start, next}

overtaken : Reach 9 (record {
  client = record {
    next_sequence = (1, 2) ∷ [];
    outgoing_frames = message_frame 9 (66 ∷ []) 1 1 ∷ message_frame 9 (65 ∷ []) 1 0 ∷ [];
  };
  held = [];
})
unfolding take_sequence find_or find assign push_frame
overtaken =
    next {t = three}
      (next {t = two}
        (next {t = one} (next {t = zero_} (start refl) (takes (65 ∷ []) 1 refl))
          (takes (66 ∷ []) 1 refl))
        (queues [] (message_frame 9 (65 ∷ []) 1 0 ∷ []) (message_frame 9 (66 ∷ []) 1 1) refl refl))
      (queues [] [] (message_frame 9 (65 ∷ []) 1 0) refl refl)
  where
    zero_ : Senders
    zero_ = record { client = new_client; held = [] }

    one : Senders
    one = record {
      client = record { next_sequence = (1, 1) ∷ []; outgoing_frames = [] };
      held = message_frame 9 (65 ∷ []) 1 0 ∷ [];
    }

    two : Senders
    two = record {
      client = record { next_sequence = (1, 2) ∷ []; outgoing_frames = [] };
      held = message_frame 9 (66 ∷ []) 1 1 ∷ message_frame 9 (65 ∷ []) 1 0 ∷ [];
    }

    three : Senders
    three = record {
      client = record {
        next_sequence = (1, 2) ∷ [];
        outgoing_frames = message_frame 9 (66 ∷ []) 1 1 ∷ [];
      };
      held = message_frame 9 (65 ∷ []) 1 0 ∷ [];
    }

abbrev queued : List Frame
queued = message_frame 9 (66 ∷ []) 1 1 ∷ message_frame 9 (65 ∷ []) 1 0 ∷ []

message-Fits : (b i : ℕ) → b < 256 → i < 2 ^ 32 → Fits (message_frame 9 (b ∷ []) 1 i)
unfolding message_frame
message-Fits b i hb hi = record {
  length_u32 = omega arith;
  stream_u32 = omega arith;
  sequence_u32 = hi;
  checksum_u32 = omega arith;
  counted = omega arith;
  bytes = (hb, tt);
}

queued-Fits : All Fits queued
queued-Fits = (
  message-Fits 66 1 (omega arith) (omega arith),
  (message-Fits 65 0 (omega arith) (omega arith), tt),
)

abbrev answers : List (List ℕ)
answers = serialize_all false (all_responses 9 queued) ∷ []

conversation-prints_example :
    (DemoServer.handle_read 9 new_manager [] (serialize_all false queued ∷ [])
      ≡ waiting (handle_all 9 new_manager (map (sent false) queued)) [])
    × (frames : List Frame) × Numbered 0 frames
    × Perm (of_stream 1 queued) frames
    × (of_stream 1 (handle_read false new_reader [] answers).printed
        ≡ map (sent false) (all_responses 9 frames))
unfolding of_stream message_frame
conversation-prints_example =
    conversation-prints false 9 9 1 10 _ (serialize_all false queued ∷ []) answers overtaken refl
      (omega arith) queued-Fits (omega arith) (omega arith)
      (serialize_all-IsByte false queued queued-Fits, tt) (append-nil (serialize_all false queued))
      (
        serialize_all-IsByte false (all_responses 9 queued)
            (all_responses-Fits 9 queued (omega arith) queued-Fits),
        tt,
      )
      (append-nil (serialize_all false (all_responses 9 queued))
        ∙ sym (written_bytes false 9 queued 10 (omega arith)))

-- A client whose reader waits in recv, while `stop` has set `running_` and joins the reader.
abbrev waiting_client : Threads
waiting_client = record {
  main = sleeping;
  reader = receiving;
  writer = working;
  running = true;
  queued = 1;
  socket_open = true;
  returns = 0;
  wakeups = 0;
}

abbrev stopping_client : Threads
stopping_client = record waiting_client { main = joining_reader; running = false; queued = 0 }

abbrev idle_client : Threads
idle_client = record waiting_client { writer = waiting; queued = 0 }
