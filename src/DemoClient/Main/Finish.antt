-- ===== src/DemoClient/Main/Finish.antt =====
-- The threads of main come to their end, and the writer sends everything.
use tcp_test.Common.{
  ℕ, zero, suc, ◌+◌, ◌-◌, ◌*◌, ◌<◌, ◌≤◌, ◌≡◌, ◌⊎◌, inl, inr, refl, ap, sym, subst, ◌∙◌, Bool, [],
  ◌∷◌, ◌++◌, length, length-append, List-cases, arith, update,
}
use tcp_test.Frame.{IsU32, serialize}
use tcp_test.DemoClient.{take_sequence, message_frame, push_frame}
use tcp_test.DemoClient.Sessions.{message_text}
use tcp_test.DemoClient.Main.{
  Loop, before, holding, Program, Step, takes, queues, writes, Reach, next, Runs, stays, steps,
  IsFinished,
}
use tcp_test.DemoClient.Main.Frames.{write-first}
use tcp_test.DemoClient.Main.Order.{InBounds, InOrder, Step-InOrder, Reach-InOrder}

-- The steps that a thread has left, with those of the writer for its messages.
abbrev left : Loop → ℕ
left (before j) = 3 * (5 - j)
left (holding j sequence) = 3 * (5 - j) - 1

abbrev all_left : (ℕ → Loop) → ℕ
all_left loops = left (loops 0) + left (loops 1) + left (loops 2)

abbrev to_do : Program → ℕ
to_do s = all_left s.loops + length s.client.outgoing_frames

all_left-update :
    (loops : ℕ → Loop) (k : ℕ) (l : Loop)
    → k < 3
    → all_left (update loops k l) + left (loops k) ≡ all_left loops + left l
all_left-update loops zero l h = omega arith
all_left-update loops (suc zero) l h = omega arith
all_left-update loops (suc (suc zero)) l h = omega arith
all_left-update loops (suc (suc (suc k))) l h = absurd (omega arith)

module _ (enabled : Bool) (u : ℕ) where
  record Advance (s : Program) : Type 0 where
    after : Program
    step : Step enabled u s after
    less : to_do after < to_do s

  take_number : (s : Program) (i j : ℕ) → i < 3 → j < 5 → s.loops i ≡ before j → Advance s
  unfolding take_sequence
  take_number s i j hi hj e = record {
    after = record s {
      client = (take_sequence s.client (i + 1)).1;
      loops = update s.loops i (holding j (take_sequence s.client (i + 1)).0);
    };
    step = takes i j hi hj e refl;
    less = omega (
      arith,
      all_left-update s.loops i (holding j (take_sequence s.client (i + 1)).0) hi,
      ap left e,
    );
  }

  queue_message :
      (s : Program) (i j sequence : ℕ) → i < 3 → j < 5 → s.loops i ≡ holding j sequence → Advance s
  unfolding push_frame
  queue_message s i j sequence hi hj e = record {
    after = record s {
      client = push_frame s.client (message_frame u (message_text (i + 1) j) (i + 1) sequence);
      loops = update s.loops i (before (j + 1));
    };
    step = queues i j sequence e refl;
    less = omega (
      arith,
      all_left-update s.loops i (before (j + 1)) hi,
      ap left e,
      length-append s.client.outgoing_frames
          (message_frame u (message_text (i + 1) j) (i + 1) sequence ∷ []),
    );
  }

  -- A thread has ended, or it can go on.
  thread_goes_on :
      (s : Program) (i : ℕ) (l : Loop)
      → i < 3
      → s.loops i ≡ l
      → InBounds i l
      → (s.loops i ≡ before 5) ⊎ Advance s
  thread_goes_on s i (before j) hi e b = elim (j_cases b.0) [
    | inl same ↦ inl (e ∙ ap before same)
    | inr less ↦ inr (take_number s i j hi less e)
  ]
    where
      j_cases : j ≤ 5 → (j ≡ 5) ⊎ (j < 5)
      j_cases h = ground arith
  thread_goes_on s i (holding j sequence) hi e b = inr (queue_message s i j sequence hi b.1 e)

  goes_on : (s : Program) → InOrder enabled u s → IsFinished s ⊎ Advance s
  goes_on s v = elim (List-cases s.client.outgoing_frames) [
    | inr (f, rest, e) ↦ inr (record {
      after = record s {
        client = record s.client { outgoing_frames = rest };
        socket = s.socket ++ serialize enabled f;
      };
      step = writes _ _ (write-first enabled s.client f rest e) refl;
      less = omega (arith, ap length e);
    })
    | inl none_queued ↦ elim (thread_goes_on s 0 (s.loops 0) (omega arith) refl (v.bounds 0)) [
      | inr a ↦ inr a
      | inl first ↦ elim (thread_goes_on s 1 (s.loops 1) (omega arith) refl (v.bounds 1)) [
        | inr a ↦ inr a
        | inl second ↦ elim (thread_goes_on s 2 (s.loops 2) (omega arith) refl (v.bounds 2)) [
          | inr a ↦ inr a
          | inl third ↦
              inl (record {
                first = first;
                second = second;
                third = third;
                all_written = none_queued;
              })
        ]
      ]
    ]
  ]

  finishes_within :
      (m : ℕ) (s : Program)
      → IsU32 u
      → to_do s < m
      → InOrder enabled u s
      → (t : Program) × Runs enabled u s t × IsFinished t
  finishes_within zero s u32 h v = absurd (omega arith)
  finishes_within (suc m) s u32 h v = elim (goes_on s v) [
    | inl finished ↦ (s, stays refl, finished)
    | inr a ↦
        let (t, runs, finished) =
          finishes_within m a.after u32 (omega (arith, a.less))
            (Step-InOrder enabled u u32 a.step v) in
        (t, steps a.step runs, finished)
  ]

  -- Wherever the threads of main and the writer are, they can still come to the end: all three threads
  -- have sent their five messages, and the writer has written everything that was queued.
  pub main_finishes :
      {s : Program}
      → IsU32 u
      → Reach enabled u s
      → (t : Program) × Runs enabled u s t × IsFinished t
  main_finishes {s} u32 r =
      finishes_within (suc (to_do s)) s u32 (omega arith) (Reach-InOrder enabled u u32 r)

  pub Runs-Reach : {s t : Program} → Runs enabled u s t → Reach enabled u s → Reach enabled u t
  Runs-Reach (stays e) r = subst (Reach enabled u) (sym e) r
  Runs-Reach (steps st more) r = Runs-Reach more (next r st)
