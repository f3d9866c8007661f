-- ===== src/DemoServer/Serving/Requests.antt =====
-- A connection that has read whole requests and has answered them all.
use tcp_test.Common.{ℕ, ◌≡◌, refl, sym, ap, ◌∙◌, Bool, List, [], ◌++◌, map, All, append-nil}
use tcp_test.Frame.{Frame}
use tcp_test.Frame.RoundTrip.{Fits}
use tcp_test.Parser.{Received}
use tcp_test.Parser.Chunks.{concat, receive_all, receive_all-serialize, serialize_all, sent}
use tcp_test.DemoServer.Responses.{all_responses, all_responses-sent}
use tcp_test.DemoServer.Serving.{Serving, Reach, IsServed}
use tcp_test.DemoServer.Serving.Order.{InService, Reach-InService, responses_in_order}

module _ (enabled : Bool) (u : ℕ) {s : Serving} (requests : List Frame)
    (reached : Reach enabled u s) (fit : All Fits requests)
    (came : concat s.received ≡ serialize_all enabled requests) where
  v : InService enabled u s
  v = Reach-InService enabled u reached

  all_received :
      receive_all [] s.received ≡ record { frames = map (sent enabled) requests; buffer = [] }
  all_received = receive_all-serialize enabled requests s.received fit came v.all_bytes

  pub nothing_left : s.buffer ≡ []
  nothing_left = v.rest ∙ ap (λ (r : Received). r.buffer) all_received

  pub all_answered : IsServed s → s.sent_bytes ≡ serialize_all enabled (all_responses u requests)
  all_answered done =
      let (answers, stray) = responses_in_order enabled u reached in
      sym (append-nil s.sent_bytes)
      ∙ ap (λ (l : List ℕ). s.sent_bytes ++ l) (sym (nothing_waits done (stray done.still_open)))
      ∙ answers
      ∙ ap (λ (r : Received). serialize_all enabled (all_responses u r.frames)) all_received
      ∙ ap (serialize_all enabled) (all_responses-sent enabled u requests)
    where
      nothing_waits :
          IsServed s
          → s.stray_bytes ≡ []
          → s.stray_bytes ++ serialize_all enabled (s.manager.outgoing_frames ++ s.pending) ≡ []
      nothing_waits d none_stray = rw (none_stray, d.all_sent, d.all_queued) refl
