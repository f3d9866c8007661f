-- ===== src/TcpServer/Processor/Progress.antt =====
-- The worker never waits for ever: the destructor comes to its end, and a queue is worked off.
use tcp_test.Common.{
  ◌≡◌, refl, ap, sym, subst, ◌∙◌, Bool, false, List, [], ◌∷◌, ◌++◌, append-nil, inl, inr, ◌⊎◌,
  List-cases, if◌then◌else◌,
}
use tcp_test.Frame.{Frame}
use tcp_test.TcpServer.{process_frame, process_frames}
use tcp_test.TcpServer.Processor.{
  WorkerState, looping, looking, waiting, done, handling, alive, destroying, joined,
  StreamProcessor, Step, loops, looks, ends_wait, handles, joins, Reach, next, Runs, stays, steps,
}
use tcp_test.TcpServer.Processor.Order.{in_hand, look_empty, look_first, InOrder, Reach-InOrder}

module _ (enabled checksum_set request_set : Bool) where
  after :
      {p q r : StreamProcessor}
      → Runs enabled checksum_set request_set p q
      → Runs enabled checksum_set request_set q r
      → Runs enabled checksum_set request_set p r
  after {r = r} (stays e) later =
      subst (λ (q : StreamProcessor). Runs enabled checksum_set request_set q r) e later
  after (steps st more) later = steps st (after more later)

  -- What the worker's own steps lead to, with the owner as it was and nothing more added.
  record Leads (p : StreamProcessor) (P : StreamProcessor → Type 0) : Type 0 where
    last : StreamProcessor
    runs : Runs enabled checksum_set request_set p last
    same_owner : last.owner ≡ p.owner
    same_running : last.running ≡ p.running
    same_added : last.added ≡ p.added
    holds : P last

  step_first :
      {p r : StreamProcessor} (P : StreamProcessor → Type 0)
      → Step enabled checksum_set request_set p r
      → r.owner ≡ p.owner
      → r.running ≡ p.running
      → r.added ≡ p.added
      → Leads r P
      → Leads p P
  step_first P st o b a l = record {
    last = l.last;
    runs = steps st l.runs;
    same_owner = l.same_owner ∙ o;
    same_running = l.same_running ∙ b;
    same_added = l.same_added ∙ a;
    holds = l.holds;
  }

  abbrev AtHead : StreamProcessor → Type 0
  AtHead p = (p.worker ≡ looping) ⊎ (p.worker ≡ done)

  stays_here : (p : StreamProcessor) (P : StreamProcessor → Type 0) → P p → Leads p P
  stays_here p P h = record {
    last = p;
    runs = stays refl;
    same_owner = refl;
    same_running = refl;
    same_added = refl;
    holds = h;
  }

  handling_to_head : (p : StreamProcessor) (f : Frame) → p.worker ≡ handling f → Leads p AtHead
  handling_to_head p f w =
      step_first AtHead (handles f w refl) refl refl refl (stays_here _ AtHead (inl refl))

  waiting_to_head : (p : StreamProcessor) → p.worker ≡ waiting → Leads p AtHead
  waiting_to_head p w = elim (List-cases p.frame_queue) [
    | inl e ↦
        step_first AtHead (ends_wait w (sym (look_empty p looping e))) refl refl refl
          (stays_here (record p { worker = looping }) AtHead (inl refl))
    | inr (f, rest, e) ↦
        step_first AtHead (ends_wait w (sym (look_first p looping f rest e))) refl refl refl
          (handling_to_head (record p { worker = handling f; frame_queue = rest }) f refl)
  ]

  looking_to_head : (p : StreamProcessor) → p.worker ≡ looking → Leads p AtHead
  looking_to_head p w = elim (List-cases p.frame_queue) [
    | inl e ↦
        step_first AtHead (looks w (sym (look_empty p waiting e))) refl refl refl
          (waiting_to_head (record p { worker = waiting }) refl)
    | inr (f, rest, e) ↦
        step_first AtHead (looks w (sym (look_first p waiting f rest e))) refl refl refl
          (handling_to_head (record p { worker = handling f; frame_queue = rest }) f refl)
  ]

  to_head : (p : StreamProcessor) (worker : WorkerState) → p.worker ≡ worker → Leads p AtHead
  to_head p looping w = stays_here p AtHead (inl w)
  to_head p done w = stays_here p AtHead (inr w)
  to_head p (handling f) w = handling_to_head p f w
  to_head p waiting w = waiting_to_head p w
  to_head p looking w = looking_to_head p w

  Runs-Reach :
      {p q : StreamProcessor}
      → Reach enabled checksum_set request_set p
      → Runs enabled checksum_set request_set p q
      → Reach enabled checksum_set request_set q
  Runs-Reach r (stays e) = subst (Reach enabled checksum_set request_set) (sym e) r
  Runs-Reach r (steps st more) = Runs-Reach (next r st) more

  leaves_and_joins :
      (p : StreamProcessor)
      → p.owner ≡ destroying
      → p.running ≡ false
      → AtHead p
      → (q : StreamProcessor) × Runs enabled checksum_set request_set p q × (q.owner ≡ joined)
  leaves_and_joins p o off (inr w) =
      (record p { owner = joined }, steps (joins o w refl) (stays refl), refl)
  leaves_and_joins p o off (inl w) =
      let r = record p { worker = done } in
      (
        record r { owner = joined },
        steps {r = r}
            (loops w
              (ap (λ (b : Bool). record p { worker = if b then looking else done }) (sym off)))
            (steps (joins o refl refl) (stays refl)),
        refl,
      )

  -- Wherever the worker is when the destructor begins, its own next steps lead it out of its loop, and
  -- the destructor to its end: no wait of the worker lasts for ever.
  pub destructor_joins :
      {p : StreamProcessor}
      → Reach enabled checksum_set request_set p
      → p.owner ≡ destroying
      → (q : StreamProcessor) × Runs enabled checksum_set request_set p q × (q.owner ≡ joined)
  destructor_joins {p} r o =
      let l = to_head p p.worker refl in
      let (q, runs, e) =
        leaves_and_joins l.last (l.same_owner ∙ o)
          (l.same_running ∙ (Reach-InOrder enabled checksum_set request_set r).stopped o) l.holds in
      (q, after l.runs runs, e)

  abbrev pub HandlesAll : StreamProcessor → Type 0
  HandlesAll p =
      (q : StreamProcessor) × Runs enabled checksum_set request_set p q
      × (q.owner ≡ alive)
      × (q.added ≡ p.added)
      × (q.called ≡ process_frames enabled checksum_set request_set p.added)

  nothing_left :
      (p : StreamProcessor)
      → InOrder enabled checksum_set request_set p
      → p.owner ≡ alive
      → p.worker ≡ looping
      → p.frame_queue ≡ []
      → HandlesAll p
  nothing_left p v o w e = (
    p,
    stays refl,
    o,
    refl,
    v.all_called ∙ ap (process_frames enabled checksum_set request_set) (sym all_handled),
  )
    where
      all_handled : p.added ≡ v.handled
      all_handled =
          v.all_added
          ∙ ap (λ (k : WorkerState). v.handled ++ (in_hand k ++ p.frame_queue)) w
          ∙ ap (λ (l : List Frame). v.handled ++ l) e
          ∙ append-nil v.handled

  drains_from :
      (queue : List Frame) (p : StreamProcessor)
      → Reach enabled checksum_set request_set p
      → p.owner ≡ alive
      → p.worker ≡ looping
      → p.frame_queue ≡ queue
      → HandlesAll p
  drains_from [] p r o w e = nothing_left p (Reach-InOrder enabled checksum_set request_set r) o w e
  drains_from (f ∷ rest) p r o w e =
      let on = (Reach-InOrder enabled checksum_set request_set r).runs o in
      let p1 = record p { worker = looking } in
      let p2 = record p1 { worker = handling f; frame_queue = rest } in
      let p3 = record p2 {
        worker = looping;
        called = p.called ++ process_frame enabled checksum_set request_set f;
      } in
      let runs : Runs enabled checksum_set request_set p p3 =
        steps {r = p1}
          (loops w (ap (λ (b : Bool). record p { worker = if b then looking else done }) (sym on)))
          (steps {r = p2} (looks refl (sym (look_first p1 waiting f rest e)))
            (steps {r = p3} (handles f refl refl) (stays refl))) in
      let (q, later, o', a, c) = drains_from rest p3 (Runs-Reach r runs) o refl refl in
      (q, after runs later, o', a, c)

  drains_all :
      (p : StreamProcessor)
      → Reach enabled checksum_set request_set p
      → p.owner ≡ alive
      → AtHead p
      → HandlesAll p
  drains_all p r o (inl w) = drains_from p.frame_queue p r o w refl
  drains_all p r o (inr w) =
      let v = Reach-InOrder enabled checksum_set request_set r in absurd (cc (v.runs o, v.stops w))

  -- As long as the destructor has not begun, the worker's next steps handle every frame that was added,
  -- if no more are added.
  pub worker_drains :
      {p : StreamProcessor}
      → Reach enabled checksum_set request_set p
      → p.owner ≡ alive
      → HandlesAll p
  worker_drains {p} r o =
      let l = to_head p p.worker refl in
      let (q, runs, o', a, c) =
        drains_all l.last (Runs-Reach r l.runs) (l.same_owner ∙ o) l.holds in
      (
        q,
        after l.runs runs,
        o',
        a ∙ l.same_added,
        c ∙ ap (process_frames enabled checksum_set request_set) l.same_added,
      )
