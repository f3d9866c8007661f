-- ===== src/DemoServer/Serving/Order.antt =====
-- What a connection has sent, has queued and has yet to queue are the responses to what it has read.
use tcp_test.Common.{
  ℕ, suc, ◌≡◌, refl, sym, ap, subst, ◌∙◌, Bool, true, Option, inl, inr, List, [], ◌∷◌, ◌++◌, length,
  All, All-append, append_snoc, List-cases, Bool-cases,
}
use tcp_test.Frame.{Frame, IsByte, serialize}
use tcp_test.Parser.{Received, receive}
use tcp_test.Parser.Chunks.{
  receive_all, serialize_all-append, serialize_all-snoc, receive-IsByte, serialize_all,
}
use tcp_test.StreamManager.{StreamManager, new_manager, send_frame}
use tcp_test.DemoServer.{waiting, read_loop, write_round, bytes_of}
use tcp_test.DemoServer.Reading.{handle_all, read_loop-receive}
use tcp_test.DemoServer.Responses.{all_responses, handle_all-outgoing}
use tcp_test.DemoServer.Serving.{
  Serving, give, Step, reads, queues, closes, writes, Reach, start, next,
}
use tcp_test.DemoServer.Serving.Rounds.{
  receive_all-snoc, all_responses-append, write-round_first, write-round_none, joined, moves_first,
  moves_next, give-nil,
}

pub record InService (enabled : Bool) (u : ℕ) (s : Serving) : Type 0 where
  pub sent : List Frame
  pub stray : List Frame
  pub sent_bytes : s.sent_bytes ≡ serialize_all enabled sent
  pub stray_bytes : s.stray_bytes ≡ serialize_all enabled stray
  pub none_stray : s.is_open ≡ true → stray ≡ []
  pub bytes : All IsByte s.buffer
  pub all_bytes : All (All IsByte) s.received
  pub rest : s.buffer ≡ (receive_all [] s.received).buffer
  pub answers :
      sent ++ (stray ++ (s.manager.outgoing_frames ++ s.pending))
      ≡ all_responses u (receive_all [] s.received).frames

module _ (enabled : Bool) (u : ℕ) where
  -- What the reader finds in the bytes that came.
  reads-InService :
      (s : Serving) (came rest : List ℕ) (m : StreamManager)
      → s.pending ≡ []
      → All IsByte came
      → read_loop u (suc (length (s.buffer ++ came))) new_manager (s.buffer ++ came)
        ≡ waiting m rest
      → InService enabled u s
      → InService enabled u (record s {
        buffer = rest;
        pending = m.outgoing_frames;
        received = s.received ++ (came ∷ []);
      })
  reads-InService s came rest m none_pending hb ran v = record {
    sent = v.sent;
    stray = v.stray;
    sent_bytes = v.sent_bytes;
    stray_bytes = v.stray_bytes;
    none_stray = v.none_stray;
    all_bytes = All-append (All IsByte) s.received (came ∷ []) v.all_bytes (hb, tt);
    bytes = subst (All IsByte) (sym rest_is) (receive-IsByte s.buffer came v.bytes hb).0;
    rest =
        rest_is
        ∙ ap (λ (b : List ℕ). (receive b came).buffer) v.rest
        ∙ sym (ap (λ (r : Received). r.buffer) (receive_all-snoc s.received [] came));
    answers =
        joined v.sent v.stray s.manager.outgoing_frames m.outgoing_frames s.pending none_pending
        ∙ ap (λ (fs : List Frame). fs ++ m.outgoing_frames) v.answers
        ∙ ap (λ (fs : List Frame). all_responses u before.frames ++ fs) queued
        ∙ sym (all_responses-append u before.frames first.frames)
        ∙ ap (λ (b : List ℕ). all_responses u (before.frames ++ (receive b came).frames)) v.rest
        ∙ sym
            (ap (λ (r : Received). all_responses u r.frames) (receive_all-snoc s.received [] came));
  }
    where
      before : Received
      before = receive_all [] s.received

      first : Received
      first = receive s.buffer came

      loop : waiting m rest ≡ waiting (handle_all u new_manager first.frames) first.buffer
      loop =
          sym ran
          ∙ read_loop-receive u new_manager s.buffer came
              (All-append IsByte s.buffer came v.bytes hb)

      rest_is : rest ≡ first.buffer
      rest_is = cc loop

      m_is : m ≡ handle_all u new_manager first.frames
      m_is = cc loop

      queued : m.outgoing_frames ≡ all_responses u first.frames
      queued =
          ap (λ (k : StreamManager). k.outgoing_frames)
            (m_is ∙ handle_all-outgoing u first.frames new_manager)

  queues-InService :
      (s : Serving) (f : Frame) (more : List Frame)
      → s.pending ≡ f ∷ more
      → InService enabled u s
      → InService enabled u (record s { manager = send_frame s.manager f; pending = more })
  unfolding send_frame
  queues-InService s f more e v = record {
    sent = v.sent;
    stray = v.stray;
    sent_bytes = v.sent_bytes;
    stray_bytes = v.stray_bytes;
    none_stray = v.none_stray;
    bytes = v.bytes;
    all_bytes = v.all_bytes;
    rest = v.rest;
    answers =
        ap (λ (fs : List Frame). v.sent ++ (v.stray ++ fs))
          (append_snoc s.manager.outgoing_frames f more
            ∙ ap (λ (fs : List Frame). s.manager.outgoing_frames ++ fs) (sym e))
        ∙ v.answers;
  }

  -- A response that is sent while the descriptor is open, and one that is sent later.
  sends-InService :
      (s : Serving) (f : Frame) (rest : List Frame)
      → s.manager.outgoing_frames ≡ f ∷ rest
      → InService enabled u s
      → InService enabled u (
          give
            (serialize enabled f)
            (record s { manager = record s.manager { outgoing_frames = rest } }))
  unfolding give
  sends-InService s f rest e v = elim (Bool-cases s.is_open) [
    | inl on ↦ rw on (record {
      sent = v.sent ++ (f ∷ []);
      stray = v.stray;
      sent_bytes =
          ap (λ (l : List ℕ). l ++ serialize enabled f) v.sent_bytes
          ∙ sym (serialize_all-snoc enabled v.sent f);
      stray_bytes = v.stray_bytes;
      none_stray = λ t. v.none_stray on;
      bytes = v.bytes;
      all_bytes = v.all_bytes;
      rest = v.rest;
      answers =
          moves_first v.sent v.stray s.manager.outgoing_frames rest s.pending f (v.none_stray on) e
          ∙ v.answers;
    })
    | inr off ↦ rw off (record {
      sent = v.sent;
      stray = v.stray ++ (f ∷ []);
      sent_bytes = v.sent_bytes;
      stray_bytes =
          ap (λ (l : List ℕ). l ++ serialize enabled f) v.stray_bytes
          ∙ sym (serialize_all-snoc enabled v.stray f);
      none_stray = λ on. absurd (cc on);
      bytes = v.bytes;
      all_bytes = v.all_bytes;
      rest = v.rest;
      answers = moves_next v.sent v.stray s.manager.outgoing_frames rest s.pending f e ∙ v.answers;
    })
  ]

  -- A round of the writer, with and without a frame in the queue.
  pub gives_first :
      (s : Serving) (f : Frame) (rest : List Frame)
      → s.manager.outgoing_frames ≡ f ∷ rest
      → give
          (bytes_of (write_round enabled s.manager).0)
          (record s { manager = (write_round enabled s.manager).1 })
        ≡ give
            (serialize enabled f)
            (record s { manager = record s.manager { outgoing_frames = rest } })
  gives_first s f rest e =
      ap (λ (r : Option (List ℕ) × StreamManager). give (bytes_of r.0) (record s { manager = r.1 }))
        (write-round_first enabled s.manager f rest e)

  gives_nothing :
      (s : Serving)
      → s.manager.outgoing_frames ≡ []
      → give
          (bytes_of (write_round enabled s.manager).0)
          (record s { manager = (write_round enabled s.manager).1 })
        ≡ s
  gives_nothing s e = rw (write-round_none enabled s.manager e) (give-nil s)

  pub Step-InService :
      {s t : Serving} → Step enabled u s t → InService enabled u s → InService enabled u t
  Step-InService {s} (reads came rest m on none_pending hb ran e) v =
      rw e (reads-InService s came rest m none_pending hb ran v)
  Step-InService {s} (queues f more e e') v = rw e' (queues-InService s f more e v)
  Step-InService {s} (closes on none_pending e) v = rw e (record {
    sent = v.sent;
    stray = v.stray;
    sent_bytes = v.sent_bytes;
    stray_bytes = v.stray_bytes;
    none_stray = λ t. absurd (cc t);
    bytes = v.bytes;
    all_bytes = v.all_bytes;
    rest = v.rest;
    answers = v.answers;
  })
  Step-InService {s} (writes e) v = elim (List-cases s.manager.outgoing_frames) [
    | inl none_queued ↦ rw (e ∙ gives_nothing s none_queued) v
    | inr (f, rest, queued) ↦
        rw (e ∙ gives_first s f rest queued) (sends-InService s f rest queued v)
  ]

  pub Reach-InService : {s : Serving} → Reach enabled u s → InService enabled u s
  unfolding receive_all
  Reach-InService (start e) = rw e (record {
    sent = [];
    stray = [];
    sent_bytes = refl;
    stray_bytes = refl;
    none_stray = λ t. refl;
    bytes = tt;
    all_bytes = tt;
    rest = refl;
    answers = refl;
  })
  Reach-InService (next r st) = Step-InService st (Reach-InService r)

  -- However the reader and the writer of a connection interleave: the bytes that were sent, those that
  -- were sent on the number of the descriptor after it was closed, and those of the responses that wait
  -- in the queue or that the reader has yet to queue are, in this order, the responses to the frames that
  -- were received, five to each, complete and in order. Nothing is sent on a closed descriptor while the
  -- reader has not ended.
  pub responses_in_order :
      {s : Serving}
      → Reach enabled u s
      → (s.sent_bytes
            ++ (s.stray_bytes ++ serialize_all enabled (s.manager.outgoing_frames ++ s.pending))
          ≡ serialize_all enabled (all_responses u (receive_all [] s.received).frames))
        × (s.is_open ≡ true → s.stray_bytes ≡ [])
  responses_in_order {s} r =
      let v = Reach-InService r in
      let later = s.manager.outgoing_frames ++ s.pending in
      (
        rw (v.sent_bytes, v.stray_bytes)
            (ap (λ (l : List ℕ). serialize_all enabled v.sent ++ l)
                (sym (serialize_all-append enabled v.stray later))
              ∙ sym (serialize_all-append enabled v.sent (v.stray ++ later))
              ∙ ap (serialize_all enabled) v.answers),
        λ on. v.stray_bytes ∙ ap (serialize_all enabled) (v.none_stray on),
      )
