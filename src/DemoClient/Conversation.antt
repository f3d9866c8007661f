-- ===== src/DemoClient/Conversation.antt =====
-- client.cpp and server.cpp together: from the sending threads of a client to what its reader prints.
use mathlib.Core.List.{Perm, Permᴰ, perm_append_comm}
use mathlib.Core.List.Perm
use mathlib.Core.Logic.{∥∥₁_elim, ∥∥₁_prop}
use tcp_test.Common.{
  ℕ, ◌*◌, ◌^◌, ◌≤◌, ◌<◌, ◌≡◌, ap, sym, subst, ◌∙◌, Bool, List, [], ◌++◌, map, length, All, arith,
  append_assoc,
}
use tcp_test.Common.Perms.{length-perm}
use tcp_test.Frame.{Frame, IsByte, IsU32}
use tcp_test.Frame.RoundTrip.{Fits}
use tcp_test.Parser.Chunks.{concat, serialize_all, sent}
use tcp_test.Reorder.InOrder.{Numbered}
use tcp_test.StreamManager.{new_manager}
use tcp_test.StreamManager.Streams.{of_stream}
use tcp_test.DemoServer
use tcp_test.DemoServer.{waiting, write_rounds}
use tcp_test.DemoServer.Reading.{handle_all}
use tcp_test.DemoServer.Responses.{
  responses, all_responses, all_responses-Fits, all_responses-Numbered, of_stream-responses,
  of_stream-sent, Numbered-sent, length-sent, length-all_responses,
}
use tcp_test.DemoServer.Exchange.{written_bytes, handle_read-serialize}
use tcp_test.DemoClient.{new_reader, handle_read}
use tcp_test.DemoClient.Arrivals.{handle_read-prints}
use tcp_test.DemoClient.Sending.{Senders, Reach, Reach-Numbered}

-- Responses to the same frames in another order.
derived-Perm :
    (u : ℕ) {fs gs : List Frame} → Permᴰ fs gs → Perm (all_responses u fs) (all_responses u gs)
derived-Perm u Permᴰ.nil = Perm.nil
derived-Perm u (Permᴰ.cons {a} {b} {l₁} {l₂} e d) =
    subst
      (λ (c : Frame).
        Perm (responses u a ++ all_responses u l₁) (responses u c ++ all_responses u l₂))
      e (Perm.append_left (responses u a) (derived-Perm u d))
derived-Perm u (Permᴰ.swap {a} {b} {a'} {b'} {l} e e') =
    subst
      (λ (c : Frame).
        Perm (responses u a ++ (responses u b ++ all_responses u l))
          (responses u c ++ (responses u b' ++ all_responses u l)))
      e'
      (subst
        (λ (c : Frame).
          Perm (responses u a ++ (responses u b ++ all_responses u l))
            (responses u b ++ (responses u c ++ all_responses u l)))
        e moved)
  where
    moved :
        Perm
          (responses u a ++ (responses u b ++ all_responses u l))
          (responses u b ++ (responses u a ++ all_responses u l))
    moved =
        subst (λ (fs : List Frame). Perm fs (responses u b ++ (responses u a ++ all_responses u l)))
          (append_assoc (responses u a) (responses u b) (all_responses u l))
          (subst
            (λ (fs : List Frame). Perm ((responses u a ++ responses u b) ++ all_responses u l) fs)
            (append_assoc (responses u b) (responses u a) (all_responses u l))
            (Perm.append_right (all_responses u l)
              (perm_append_comm (responses u a) (responses u b))))
derived-Perm u (Permᴰ.trans d d') = Perm.trans (derived-Perm u d) (derived-Perm u d')

all_responses-Perm :
    (u : ℕ) {fs gs : List Frame} → Perm fs gs → Perm (all_responses u fs) (all_responses u gs)
all_responses-Perm u p = ∥∥₁_elim p ∥∥₁_prop (derived-Perm u)

-- What the reader of client.cpp prints of the answers to requests that were in some order.
module _ (enabled : Bool) (u : ℕ) (requests : List Frame) (s : ℕ) (frames : List Frame)
    (down : List (List ℕ)) (u32 : IsU32 u) (fit : All Fits requests) (num : Numbered 0 frames)
    (order : Perm (of_stream s requests) frames) (few : 5 * length frames < 2 ^ 32)
    (down_bytes : All (All IsByte) down)
    (down_sent : concat down ≡ serialize_all enabled (all_responses u requests)) where
  pub answers-printed :
      of_stream s (handle_read enabled new_reader [] down).printed
      ≡ map (sent enabled) (all_responses u frames)
  answers-printed =
      handle_read-prints enabled (all_responses u requests) down s
        (map (sent enabled) (all_responses u frames)) (all_responses-Fits u requests u32 fit)
        down_bytes down_sent
        (omega (arith, length-sent enabled (all_responses u frames), length-all_responses u frames))
        (Numbered-sent enabled 0 (all_responses u frames)
          (all_responses-Numbered u 0 frames num (omega arith)))
        (subst (λ (fs : List Frame). Perm fs (map (sent enabled) (all_responses u frames)))
          (sym (
            of_stream-sent enabled s (all_responses u requests)
            ∙ ap (map (sent enabled)) (of_stream-responses u s requests)))
          (Perm.map (sent enabled) (all_responses-Perm u order)))

-- The threads of a client send messages of any streams, in any interleaving; the messages that are
-- queued fit the wire format and reach the server cut anyhow, and its writer's bytes reach the client
-- cut anyhow. Then the server has read every message and nothing else. Where no thread holds a message
-- of a stream, the stream's messages are, in some order, numbered from 0 up, and the client prints for
-- the stream the five responses to each of them, all of them and in the order of the numbers. Sequence
-- numbers stay below 2 ^ 32, and the writer makes a round for every response at least.
pub conversation-prints :
    (enabled : Bool) (u u' s n : ℕ) (t : Senders) (up down : List (List ℕ))
    → Reach u' t
    → of_stream s t.held ≡ []
    → IsU32 u
    → All Fits t.client.outgoing_frames
    → 5 * length (of_stream s t.client.outgoing_frames) < 2 ^ 32
    → 5 * length t.client.outgoing_frames ≤ n
    → All (All IsByte) up
    → concat up ≡ serialize_all enabled t.client.outgoing_frames
    → All (All IsByte) down
    → concat down
      ≡ (write_rounds n enabled
          (handle_all u new_manager (map (sent enabled) t.client.outgoing_frames))).0
    → (DemoServer.handle_read u new_manager [] up
        ≡ waiting (handle_all u new_manager (map (sent enabled) t.client.outgoing_frames)) [])
      × (frames : List Frame) × Numbered 0 frames
      × Perm (of_stream s t.client.outgoing_frames) frames
      × (of_stream s (handle_read enabled new_reader [] down).printed
          ≡ map (sent enabled) (all_responses u frames))
conversation-prints enabled u u' s n t up down reached none_held u32 fit few rounds up_bytes up_sent
      down_bytes down_sent =
    let (frames, num, order) = Reach-Numbered s reached none_held (omega arith) in
    (
      handle_read-serialize enabled u t.client.outgoing_frames up fit up_bytes up_sent,
      frames,
      num,
      order,
      answers-printed enabled u t.client.outgoing_frames s frames down u32 fit num order
          (omega (arith, length-perm order)) down_bytes
          (down_sent ∙ written_bytes enabled u t.client.outgoing_frames n rounds),
    )
