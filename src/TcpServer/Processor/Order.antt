-- ===== src/TcpServer/Processor/Order.antt =====
-- The worker handles the frames of a stream in the order in which they were added.
use tcp_test.Common.{
  ◌≡◌, refl, ap, sym, ◌∙◌, Bool, true, false, List, [], ◌∷◌, ◌++◌, append-nil, append_assoc,
  append_snoc, inl, inr, List-cases, Bool-cases, if◌then◌else◌,
}
use tcp_test.Frame.{Frame}
use tcp_test.TcpServer.{StreamCall, process_frame, process_frames}
use tcp_test.TcpServer.Processor.{
  WorkerState, looping, looking, waiting, done, handling, alive, destroying, StreamProcessor,
  push_frame, look, Step, adds, loops, looks, ends_wait, handles, destroys, joins, Reach, start,
  next,
}

-- The frame in the worker's hands.
abbrev pub in_hand : WorkerState → List Frame
in_hand looping = []
in_hand looking = []
in_hand waiting = []
in_hand done = []
in_hand (handling frame) = frame ∷ []

pub look_empty :
    (p : StreamProcessor) (otherwise : WorkerState)
    → p.frame_queue ≡ []
    → look otherwise p ≡ record p { worker = otherwise }
unfolding look
look_empty p otherwise e = simp (look, e)

pub look_first :
    (p : StreamProcessor) (otherwise : WorkerState) (f : Frame) (rest : List Frame)
    → p.frame_queue ≡ f ∷ rest
    → look otherwise p ≡ record p { worker = handling f; frame_queue = rest }
unfolding look
look_first p otherwise f rest e = simp (look, e)

module _ (enabled checksum_set request_set : Bool) where
  process_frames-snoc :
      (fs : List Frame) (f : Frame)
      → process_frames enabled checksum_set request_set (fs ++ (f ∷ []))
        ≡ process_frames enabled checksum_set request_set fs
          ++ process_frame enabled checksum_set request_set f
  unfolding process_frames
  process_frames-snoc [] f = append-nil (process_frame enabled checksum_set request_set f)
  process_frames-snoc (g ∷ fs) f =
      ap (◌++◌ (process_frame enabled checksum_set request_set g)) (process_frames-snoc fs f)
      ∙ sym (
          append_assoc (process_frame enabled checksum_set request_set g)
            (process_frames enabled checksum_set request_set fs)
            (process_frame enabled checksum_set request_set f))

  -- The callbacks were called for the frames `handled`, and those that were added and not handled are in
  -- the worker's hands or wait. The worker runs until the destructor begins.
  pub record InOrder (p : StreamProcessor) : Type 0 where
    pub handled : List Frame
    pub all_added : p.added ≡ handled ++ (in_hand p.worker ++ p.frame_queue)
    pub all_called : p.called ≡ process_frames enabled checksum_set request_set handled
    pub runs : p.owner ≡ alive → p.running ≡ true
    pub stops : p.worker ≡ done → p.running ≡ false
    pub stopped : p.owner ≡ destroying → p.running ≡ false

  set_worker-InOrder :
      (p : StreamProcessor) (worker : WorkerState)
      → in_hand p.worker ≡ in_hand worker
      → (worker ≡ done → p.running ≡ false)
      → InOrder p
      → InOrder (record p { worker = worker })
  set_worker-InOrder p worker same stops v = record {
    handled = v.handled;
    all_added = v.all_added ∙ ap (λ (h : List Frame). v.handled ++ (h ++ p.frame_queue)) same;
    all_called = v.all_called;
    runs = v.runs;
    stops = stops;
    stopped = v.stopped;
  }

  look-InOrder :
      (p : StreamProcessor) (otherwise : WorkerState)
      → in_hand p.worker ≡ []
      → in_hand otherwise ≡ []
      → (otherwise ≡ done → p.running ≡ false)
      → InOrder p
      → InOrder (look otherwise p)
  look-InOrder p otherwise empty none_ stops v = elim (List-cases p.frame_queue) [
    | inl e ↦
        rw (look_empty p otherwise e) (set_worker-InOrder p otherwise (empty ∙ sym none_) stops v)
    | inr (f, rest, e) ↦ rw (look_first p otherwise f rest e) (record {
      handled = v.handled;
      all_added =
          v.all_added
          ∙ ap (λ (h : List Frame). v.handled ++ (h ++ p.frame_queue)) empty
          ∙ ap (λ (q : List Frame). v.handled ++ q) e;
      all_called = v.all_called;
      runs = v.runs;
      stops = λ d. absurd (cc d);
      stopped = v.stopped;
    })
  ]

  Step-InOrder :
      {p q : StreamProcessor} → Step enabled checksum_set request_set p q → InOrder p → InOrder q
  unfolding push_frame
  Step-InOrder {p} (adds f o e) v = rw e (record {
    handled = v.handled;
    all_added =
        ap (λ (l : List Frame). l ++ (f ∷ [])) v.all_added
        ∙ append_assoc v.handled (in_hand p.worker ++ p.frame_queue) (f ∷ [])
        ∙ ap (λ (l : List Frame). v.handled ++ l)
            (append_assoc (in_hand p.worker) p.frame_queue (f ∷ []));
    all_called = v.all_called;
    runs = v.runs;
    stops = v.stops;
    stopped = v.stopped;
  })
  Step-InOrder {p} (loops w e) v = elim (Bool-cases p.running) [
    | inl on ↦
        rw (e ∙ ap (λ (b : Bool). record p { worker = if b then looking else done }) on)
          (set_worker-InOrder p looking (ap in_hand w) (λ d. absurd (cc d)) v)
    | inr off ↦
        rw (e ∙ ap (λ (b : Bool). record p { worker = if b then looking else done }) off)
          (set_worker-InOrder p done (ap in_hand w) (λ d. off) v)
  ]
  Step-InOrder {p} (looks w e) v =
      rw e (look-InOrder p waiting (ap in_hand w) refl (λ d. absurd (cc d)) v)
  Step-InOrder {p} (ends_wait w e) v =
      rw e (look-InOrder p looping (ap in_hand w) refl (λ d. absurd (cc d)) v)
  Step-InOrder {p} (handles f w e) v = rw e (record {
    handled = v.handled ++ (f ∷ []);
    all_added =
        v.all_added
        ∙ ap (λ (h : WorkerState). v.handled ++ (in_hand h ++ p.frame_queue)) w
        ∙ sym (append_snoc v.handled f p.frame_queue);
    all_called =
        ap (λ (c : List StreamCall). c ++ process_frame enabled checksum_set request_set f)
          v.all_called
        ∙ sym (process_frames-snoc v.handled f);
    runs = v.runs;
    stops = λ d. absurd (cc d);
    stopped = v.stopped;
  })
  Step-InOrder {p} (destroys o e) v = rw e (record {
    handled = v.handled;
    all_added = v.all_added;
    all_called = v.all_called;
    runs = λ d. absurd (cc d);
    stops = λ d. refl;
    stopped = λ d. refl;
  })
  Step-InOrder {p} (joins o w e) v = rw e (record {
    handled = v.handled;
    all_added = v.all_added;
    all_called = v.all_called;
    runs = λ d. absurd (cc d);
    stops = v.stops;
    stopped = λ d. v.stops w;
  })

  pub Reach-InOrder : {p : StreamProcessor} → Reach enabled checksum_set request_set p → InOrder p
  unfolding process_frames
  Reach-InOrder (start e) = rw e (record {
    handled = [];
    all_added = refl;
    all_called = refl;
    runs = λ d. refl;
    stops = λ d. absurd (cc d);
    stopped = λ d. absurd (cc d);
  })
  Reach-InOrder (next r st) = Step-InOrder st (Reach-InOrder r)

  -- However the calls of addFrame, the worker and the destructor interleave: the callbacks have been
  -- called for the first frames that were added, for each as a round of processLoop does, in their order
  -- and once each. The frames behind them are, in their order, the one in the worker's hands and those of
  -- the queue.
  pub callbacks_in_order :
      {p : StreamProcessor}
      → Reach enabled checksum_set request_set p
      → (handled : List Frame) × (p.called
          ≡ process_frames enabled checksum_set request_set handled)
        × (p.added ≡ handled ++ (in_hand p.worker ++ p.frame_queue))
  callbacks_in_order r = let v = Reach-InOrder r in (v.handled, v.all_called, v.all_added)
