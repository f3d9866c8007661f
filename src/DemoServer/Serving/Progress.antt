-- ===== src/DemoServer/Serving/Progress.antt =====
-- The writer sends everything that is queued, before the end of the connection and after it.
use tcp_test.Common.{
  ℕ, ◌≡◌, refl, sym, ap, subst, ◌∙◌, Bool, true, false, inl, inr, List, [], ◌∷◌, ◌++◌, arith,
  append-nil, append_assoc, Bool-cases,
}
use tcp_test.Frame.{Frame, serialize}
use tcp_test.Parser.Chunks.{serialize_all, receive_all}
use tcp_test.StreamManager.{StreamManager, send_frame}
use tcp_test.DemoServer.Responses.{all_responses}
use tcp_test.DemoServer.Serving.{
  Serving, give, queues, closes, writes, Reach, next, Runs, stays, steps, IsServed,
}
use tcp_test.DemoServer.Serving.Rounds.{give-nil}
use tcp_test.DemoServer.Serving.Order.{Reach-InService, responses_in_order, gives_first}

-- A connection whose queue is taken to be empty.
abbrev emptied : Serving → Serving
emptied s = record s { manager = record s.manager { outgoing_frames = [] } }

give-give : (a b : List ℕ) (s : Serving) → give b (give a s) ≡ give (a ++ b) s
unfolding give
give-give a b s = elim (Bool-cases s.is_open) [
  | inl on ↦ rw on (
      ap (λ (l : List ℕ). record s { is_open = true; sent_bytes = l })
        (append_assoc s.sent_bytes a b))
  | inr off ↦ rw off (
      ap (λ (l : List ℕ). record s { is_open = false; stray_bytes = l })
        (append_assoc s.stray_bytes a b))
]

emptied-give : (bytes : List ℕ) (s : Serving) → emptied (give bytes s) ≡ give bytes (emptied s)
unfolding give
emptied-give bytes s = ground (arith, Bool-cases s.is_open)

give-manager : (bytes : List ℕ) (s : Serving) → (give bytes s).manager ≡ s.manager
unfolding give
give-manager bytes s = ground (arith, Bool-cases s.is_open)

module _ (enabled : Bool) (u : ℕ) where
  after : {r s t : Serving} → Runs enabled u r s → Runs enabled u s t → Runs enabled u r t
  after {t = t} (stays e) more = subst (λ (s : Serving). Runs enabled u s t) e more
  after (steps st later) more = steps st (after later more)

  writes_out :
      (queue : List Frame) (s : Serving)
      → s.manager.outgoing_frames ≡ queue
      → Runs enabled u s (give (serialize_all enabled queue) (emptied s))
  writes_out [] s e = stays (
      give-nil (emptied s)
      ∙ ap (λ (q : List Frame). record s { manager = record s.manager { outgoing_frames = q } })
          (sym e))
  writes_out (f ∷ rest) s e =
      let s' =
        give (serialize enabled f)
          (record s { manager = record s.manager { outgoing_frames = rest } }) in
      steps {r = s'} (writes (sym (gives_first enabled u s f rest e))) (
        subst (Runs enabled u s')
          (ap (give (serialize_all enabled rest)) (
              emptied-give (serialize enabled f)
                (record s { manager = record s.manager { outgoing_frames = rest } }))
            ∙ give-give (serialize enabled f) (serialize_all enabled rest) (emptied s))
          (writes_out rest s' (
            ap (λ (m : StreamManager). m.outgoing_frames)
              (give-manager (serialize enabled f)
                (record s { manager = record s.manager { outgoing_frames = rest } })))))

  -- The reader has queued what it has yet to queue.
  abbrev pub all_pending : Serving → Serving
  all_pending s = record s {
    manager = record s.manager { outgoing_frames = s.manager.outgoing_frames ++ s.pending };
    pending = [];
  }

  pub queues_out :
      (pending : List Frame) (s : Serving) → s.pending ≡ pending → Runs enabled u s (all_pending s)
  unfolding send_frame
  queues_out [] s e = stays (
      rw e (
        ap
          (λ (q : List Frame). record s {
            manager = record s.manager { outgoing_frames = q };
            pending = [];
          })
          (append-nil s.manager.outgoing_frames))
      ∙ ap (λ (q : List Frame). record s { pending = q }) (sym e))
  queues_out (f ∷ more) s e =
      let s' = record s { manager = send_frame s.manager f; pending = more } in
      steps {r = s'} (queues f more e refl) (
        subst (Runs enabled u s')
          (ap
            (λ (q : List Frame). record s {
              manager = record s.manager { outgoing_frames = q };
              pending = [];
            })
            (append_assoc s.manager.outgoing_frames (f ∷ []) more
              ∙ ap (λ (q : List Frame). s.manager.outgoing_frames ++ q) (sym e)))
          (queues_out more s' refl))

  -- All that waits is sent.
  abbrev finished : Serving → Serving
  finished s =
      give (serialize_all enabled (s.manager.outgoing_frames ++ s.pending))
        (emptied (all_pending s))

  finishes : (s : Serving) → Runs enabled u s (finished s)
  finishes s =
      after (queues_out s.pending s refl)
        (writes_out (s.manager.outgoing_frames ++ s.pending) (all_pending s) refl)

  pub Runs-Reach : {s t : Serving} → Runs enabled u s t → Reach enabled u s → Reach enabled u t
  Runs-Reach (stays e) r = subst (Reach enabled u) (sym e) r
  Runs-Reach (steps st more) r = Runs-Reach more (next r st)

  -- When a connection ends, the writer goes on: everything that is queued at that time can still be sent
  -- on the number of the descriptor, which is closed.
  pub closed-strays :
      {s : Serving}
      → Reach enabled u s
      → s.is_open ≡ true
      → s.pending ≡ []
      → (t : Serving) × Runs enabled u s t
        × (t.is_open ≡ false)
        × (t.sent_bytes ≡ s.sent_bytes)
        × (t.stray_bytes ≡ serialize_all enabled s.manager.outgoing_frames)
  unfolding give
  closed-strays {s} r on none_pending =
      let v = Reach-InService enabled u r in
      let s' = record s { is_open = false } in
      (
        give (serialize_all enabled s.manager.outgoing_frames) (emptied s'),
        steps {r = s'} (closes on none_pending refl) (writes_out s.manager.outgoing_frames s' refl),
        refl,
        refl,
        ap (λ (l : List ℕ). l ++ serialize_all enabled s.manager.outgoing_frames)
            (v.stray_bytes ∙ ap (serialize_all enabled) (v.none_stray on)),
      )

  give-open :
      (bytes : List ℕ) (s : Serving)
      → s.is_open ≡ true
      → give bytes s ≡ record s { sent_bytes = s.sent_bytes ++ bytes }
  unfolding give
  give-open bytes s on = ground (arith, on)

  -- As long as the reader has not ended, the connection's own steps can send all five responses to every
  -- frame that was received, complete and in order, and leave nothing in the queue.
  pub responses_finish :
      {s : Serving}
      → Reach enabled u s
      → s.is_open ≡ true
      → (t : Serving) × Runs enabled u s t
        × IsServed t
        × (t.received ≡ s.received)
        × (t.sent_bytes
            ≡ serialize_all enabled (all_responses u (receive_all [] s.received).frames))
  responses_finish {s} r on =
      let waits = s.manager.outgoing_frames ++ s.pending in
      let t = record (emptied (all_pending s)) {
        sent_bytes = s.sent_bytes ++ serialize_all enabled waits;
      } in
      let (answers, stray) = responses_in_order enabled u r in
      (
        t,
        subst (Runs enabled u s)
            (give-open (serialize_all enabled waits) (emptied (all_pending s)) on) (finishes s),
        record { still_open = on; all_queued = refl; all_sent = refl },
        refl,
        ap (λ (l : List ℕ). s.sent_bytes ++ (l ++ serialize_all enabled waits)) (sym (stray on))
            ∙ answers,
      )
