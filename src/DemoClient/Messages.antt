-- ===== src/DemoClient/Messages.antt =====
-- The messages of a thread of client.cpp, and the numbers that their frames carry.
use tcp_test.Common.{
  ℕ, zero, suc, ◌+◌, ◌%◌, ◌^◌, ◌<◌, ◌≡◌, refl, sym, ap, ◌∙◌, List, [], ◌∷◌, ◌++◌, arith, append-nil,
  append_snoc,
}
use tcp_test.Common.Text.{Text}
use tcp_test.Common.OrdMap.{find_or, find_or-assign_self}
use tcp_test.Frame.{Frame}
use tcp_test.DemoClient.{Client, take_sequence, message_frame, push_frame, send_message}
use tcp_test.DemoClient.Sessions.{message_text, send_messages}

-- The frames of messages j, j + 1, … on a stream, numbered from n on.
unfoldable pub frames_from : ℕ → ℕ → ℕ → ℕ → ℕ → List Frame
frames_from u stream_id zero j n = []
frames_from u stream_id (suc rounds) j n =
    message_frame u (message_text stream_id j) stream_id n
    ∷ frames_from u stream_id rounds (j + 1) (n + 1)

send-queues :
    (u stream_id : ℕ) (c : Client) (text : Text)
    → (send_message u c text stream_id).outgoing_frames
      ≡ c.outgoing_frames
        ++ (message_frame u text stream_id (find_or 0 stream_id c.next_sequence) ∷ [])
unfolding send_message take_sequence push_frame
send-queues u stream_id c text = refl

send-numbers :
    (u stream_id : ℕ) (c : Client) (text : Text)
    → find_or 0 stream_id (send_message u c text stream_id).next_sequence
      ≡ (find_or 0 stream_id c.next_sequence + 1) % 2 ^ 32
unfolding send_message take_sequence push_frame
send-numbers u stream_id c text =
    find_or-assign_self 0 stream_id ((find_or 0 stream_id c.next_sequence + 1) % 2 ^ 32)
      c.next_sequence

-- A thread queues its messages behind what is there, in their order, and their frames carry consecutive
-- numbers from the next one of the stream on, as long as these stay below 2 ^ 32.
pub send_messages_lem :
    (u stream_id rounds j n : ℕ) (c : Client)
    → find_or 0 stream_id c.next_sequence ≡ n
    → n + rounds < 2 ^ 32
    → let c' = send_messages u stream_id rounds j c in
      (c'.outgoing_frames ≡ c.outgoing_frames ++ frames_from u stream_id rounds j n)
      × (find_or 0 stream_id c'.next_sequence ≡ n + rounds)
unfolding send_messages frames_from
send_messages_lem u stream_id zero j n c e h =
    (sym (append-nil c.outgoing_frames), omega (arith, e))
send_messages_lem u stream_id (suc rounds) j n c e h =
    let c' = send_message u c (message_text stream_id j) stream_id in
    let (queued, numbered) =
      send_messages_lem u stream_id rounds (j + 1) (n + 1) c'
        (send-numbers u stream_id c (message_text stream_id j) ∙ omega (arith, e)) (omega arith) in
    (
      queued
          ∙ ap (λ (q : List Frame). q ++ frames_from u stream_id rounds (j + 1) (n + 1))
              (send-queues u stream_id c (message_text stream_id j)
                ∙ ap
                    (λ (k : ℕ).
                      c.outgoing_frames
                      ++ (message_frame u (message_text stream_id j) stream_id k ∷ []))
                    e)
          ∙ append_snoc c.outgoing_frames (message_frame u (message_text stream_id j) stream_id n)
              (frames_from u stream_id rounds (j + 1) (n + 1)),
      omega (arith, numbered),
    )
