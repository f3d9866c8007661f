-- ===== src/DemoClient/Main/Exchange.antt =====
-- What the server reads of the messages of main, and what the client prints of its answers.
use mathlib.Core.List.{Perm}
use mathlib.Core.List.Perm
use tcp_test.Common.{
  ℕ, zero, suc, ◌+◌, ◌<◌, ◌≡◌, ap, sym, subst, ◌∙◌, refl, Bool, List, [], ◌++◌, map, length, All,
  arith, append-nil,
}
use tcp_test.Frame.{Frame, IsByte, IsU32}
use tcp_test.Frame.RoundTrip.{Fits}
use tcp_test.Parser.Chunks.{concat, sent}
use tcp_test.Reorder.InOrder.{Numbered}
use tcp_test.StreamManager.Streams.{of_stream}
use tcp_test.DemoServer.Responses.{all_responses}
use tcp_test.DemoServer.Serving
use tcp_test.DemoServer.Serving.{Serving, IsServed}
use tcp_test.DemoServer.Serving.Requests.{nothing_left, all_answered}
use tcp_test.DemoClient.{new_reader, handle_read, message_frame}
use tcp_test.DemoClient.Conversation.{answers-printed}
use tcp_test.DemoClient.Messages.{frames_from}
use tcp_test.DemoClient.Main.{Loop, before, Program, Reach, IsFinished}
use tcp_test.DemoClient.Main.Order.{messages, queued, InOrder, Reach-InOrder}

frames_from-Numbered : (u s k j n : ℕ) → Numbered n (frames_from u s k j n)
unfolding frames_from message_frame
frames_from-Numbered u s zero j n = tt
frames_from-Numbered u s (suc k) j n = (
  refl,
  subst (λ (m : ℕ). Numbered m (frames_from u s k (j + 1) (n + 1))) (omega arith)
      (frames_from-Numbered u s k (j + 1) (n + 1)),
)

finished_loop : (s : Program) (i : ℕ) → i < 3 → IsFinished s → s.loops i ≡ before 5
finished_loop s zero h v = v.first
finished_loop s (suc zero) h v = v.second
finished_loop s (suc (suc zero)) h v = v.third
finished_loop s (suc (suc (suc i))) h v = absurd (omega arith)

frames_from-length : (u s k j n : ℕ) → length (frames_from u s k j n) ≡ k
unfolding frames_from
frames_from-length u s zero j n = refl
frames_from-length u s (suc k) j n = omega (arith, frames_from-length u s k (j + 1) (n + 1))

module _ {enabled : Bool} {u : ℕ} {s : Program} (v : InOrder enabled u s)
    (finished : IsFinished s) where
  pub all_sent : v.written ++ s.client.outgoing_frames ≡ v.written
  all_sent = ap (λ (fs : List Frame). v.written ++ fs) finished.all_written ∙ append-nil v.written

-- The three threads of main have ended, in any interleaving with one another and with the writer, which
-- has sent everything. Its bytes reach the server cut anyhow, and the connection there, whose reader and
-- writer interleave anyhow, has nothing left to send. What it has sent reaches the client cut anyhow.
-- Then the server's reader has no rest, and the client prints for each of the three streams the five
-- responses to each of the five messages of its thread, in the order of the messages.
pub main-prints :
    (enabled : Bool) (u u' i : ℕ) (s : Program) (c : Serving) (down : List (List ℕ))
    → IsU32 u
    → IsU32 u'
    → Reach enabled u s
    → IsFinished s
    → i < 3
    → Serving.Reach enabled u' c
    → IsServed c
    → concat c.received ≡ s.socket
    → All (All IsByte) down
    → concat down ≡ c.sent_bytes
    → (c.buffer ≡ [])
      × (of_stream (i + 1) (handle_read enabled new_reader [] down).printed
          ≡ map (sent enabled) (all_responses u' (messages u i 5)))
main-prints enabled u u' i s c down u32 u32' reached finished hi served done came down_bytes
      down_sent =
    (
      nothing_left enabled u' v.written served fit (came ∙ v.sent_bytes),
      answers-printed enabled u' v.written (i + 1) (messages u i 5) down u32' fit
          (frames_from-Numbered u (i + 1) 5 0 0)
          (subst (λ (fs : List Frame). Perm fs (messages u i 5)) (sym own)
            (Perm.refl (messages u i 5)))
          (omega (arith, frames_from-length u (i + 1) 5 0 0)) down_bytes
          (down_sent ∙ all_answered enabled u' v.written served fit (came ∙ v.sent_bytes) done),
    )
  where
    v : InOrder enabled u s
    v = Reach-InOrder enabled u u32 reached

    fit : All Fits v.written
    fit = subst (All Fits) (all_sent v finished) v.fit

    own : of_stream (i + 1) v.written ≡ messages u i 5
    own =
        ap (of_stream (i + 1)) (sym (all_sent v finished))
        ∙ v.ordered i
        ∙ ap (λ (l : Loop). messages u i (queued l)) (finished_loop s i hi finished)
