-- ===== src/DemoClient/Sending.antt =====
-- Threads that send at the same time. `sendMessage` holds one mutex while it takes a number and another
-- while it queues the frame, so a thread can be overtaken in between: a step relation with the frames
-- that have a number and are not queued yet.
use mathlib.Core.List.{Perm, perm_middle, perm_append_singleton, filter}
use mathlib.Core.List.Perm
use native.Mathlib.Decide.{ℕ_discrete}
use tcp_test.Common.{
  ℕ, suc, ◌+◌, ◌%◌, ◌^◌, ◌≤◌, ◌≡◌, ◌≢◌, refl, ap, sym, subst, ◌∙◌, List, [], ◌∷◌, ◌++◌, length,
  arith, append-nil, append_snoc, length-append,
}
use tcp_test.Common.Perms.{length-perm}
use tcp_test.Common.OrdMap.{find_or, find, find_or-assign_self, find_or-assign_ne}
use tcp_test.Frame.{Frame}
use tcp_test.Reorder.InOrder.{Numbered}
use tcp_test.StreamManager.Streams.{
  of_stream, of_stream-append, of_stream_self, of_stream_skip, of_stream-filter,
}
use tcp_test.DemoClient.{Client, new_client, take_sequence, message_frame, push_frame}

-- The client's members, and the frames in the hands of threads between the two critical sections.
pub record Senders : Type 0 where
  pub client : Client
  pub held : List Frame

pub data Step (u : ℕ) (t : Senders) (t' : Senders) : Type 0 where
  takes :
      (message : List ℕ) (s : ℕ)
      → t' ≡ record {
        client = (take_sequence t.client s).1;
        held = message_frame u message s (take_sequence t.client s).0 ∷ t.held;
      }
      → Step u t t'
  queues :
      (front back : List Frame) (f : Frame)
      → t.held ≡ front ++ (f ∷ back)
      → t' ≡ record { client = push_frame t.client f; held = front ++ back }
      → Step u t t'

pub data Reach (u : ℕ) : Senders → Type 0 where
  start : {t : Senders} → t ≡ record { client = new_client; held = [] } → Reach u t
  next : {t t' : Senders} → Reach u t → Step u t t' → Reach u t'

-- Numbers from `n` up, as a uint32_t counts them.
abbrev Counted : ℕ → List Frame → Type 0
Counted n [] = Unit {0}
Counted n (f ∷ fs) = (f.sequence ≡ n % 2 ^ 32) × Counted (suc n) fs

Counted-append :
    (n k : ℕ) (fs : List Frame) (f : Frame)
    → Counted n fs
    → k ≡ n + length fs
    → f.sequence ≡ k % 2 ^ 32
    → Counted n (fs ++ (f ∷ []))
Counted-append n k [] f c e h = (h ∙ ap (λ (j : ℕ). j % 2 ^ 32) (omega arith), tt)
Counted-append n k (g ∷ fs) f c e h = (c.0, Counted-append (suc n) k fs f c.1 (omega arith) h)

Counted-Numbered : (n : ℕ) (fs : List Frame) → Counted n fs → n + length fs ≤ 2 ^ 32 → Numbered n fs
Counted-Numbered n [] c h = tt
Counted-Numbered n (f ∷ fs) c h =
    (omega (arith, c.0), Counted-Numbered (suc n) fs c.1 (omega arith))

of_stream-perm : (s : ℕ) {fs gs : List Frame} → Perm fs gs → Perm (of_stream s fs) (of_stream s gs)
of_stream-perm s {fs} {gs} p =
    subst (λ l. Perm l (of_stream s gs)) (sym (as_filter fs))
      (subst (Perm (filter on fs)) (sym (as_filter gs)) (Perm.filter on p))
  where
    on : (f : Frame) → Dec (f.stream_id ≡ s)
    on f = ℕ_discrete f.stream_id s

    as_filter : (l : List Frame) → of_stream s l ≡ filter on l
    as_filter l = of_stream-filter s l

-- Every frame of a client that has a number, queued or in the hands of a thread.
abbrev taken : Senders → List Frame
taken t = t.client.outgoing_frames ++ t.held

-- The frames of a stream that have a number, in the order in which they took it; they are queued or held
-- in some order.
record Taken (t : Senders) (s : ℕ) : Type 0 where
  frames : List Frame
  counted : Counted 0 frames
  next : find_or 0 s t.client.next_sequence ≡ length frames % 2 ^ 32
  there : Perm (of_stream s (taken t)) frames

takes_self :
    (u s : ℕ) (message : List ℕ) (t : Senders)
    → Taken t s
    → Taken
        (record {
          client = (take_sequence t.client s).1;
          held = message_frame u message s (take_sequence t.client s).0 ∷ t.held;
        })
        s
unfolding take_sequence message_frame
takes_self u s message t v = record {
  frames = v.frames ++ (f ∷ []);
  counted = Counted-append 0 (length v.frames) v.frames f v.counted (omega arith) v.next;
  next =
      find_or-assign_self 0 s ((find_or 0 s t.client.next_sequence + 1) % 2 ^ 32)
        t.client.next_sequence
      ∙ omega (arith, v.next, length-append v.frames (f ∷ []));
  there = Perm.trans (of_stream-perm s (perm_middle t.client.outgoing_frames t.held)) (
      subst (λ l. Perm l (v.frames ++ (f ∷ []))) (sym (of_stream_self f (taken t)))
        (Perm.trans (Perm.cons f v.there) (Perm.symm (perm_append_singleton f v.frames))));
}
  where
    f : Frame
    f = message_frame u message s (find_or 0 s t.client.next_sequence)

takes_other :
    (u s s' : ℕ) (message : List ℕ) (t : Senders)
    → s' ≢ s
    → Taken t s
    → Taken
        (record {
          client = (take_sequence t.client s').1;
          held = message_frame u message s' (take_sequence t.client s').0 ∷ t.held;
        })
        s
unfolding take_sequence message_frame
takes_other u s s' message t ne v = record {
  frames = v.frames;
  counted = v.counted;
  next =
      find_or-assign_ne 0 s' s ((find_or 0 s' t.client.next_sequence + 1) % 2 ^ 32)
        t.client.next_sequence ne
      ∙ v.next;
  there =
      Perm.trans (of_stream-perm s (perm_middle t.client.outgoing_frames t.held))
        (subst (λ l. Perm l v.frames) (sym (of_stream_skip s f (taken t) ne)) v.there);
}
  where
    f : Frame
    f = message_frame u message s' (find_or 0 s' t.client.next_sequence)

queues_any :
    (s : ℕ) (front back : List Frame) (f : Frame) (t : Senders)
    → t.held ≡ front ++ (f ∷ back)
    → Taken t s
    → Taken (record { client = push_frame t.client f; held = front ++ back }) s
unfolding push_frame
queues_any s front back f t e v = record {
  frames = v.frames;
  counted = v.counted;
  next = v.next;
  there = Perm.trans (of_stream-perm s moved) v.there;
}
  where
    moved : Perm ((t.client.outgoing_frames ++ (f ∷ [])) ++ (front ++ back)) (taken t)
    moved =
        rw (append_snoc t.client.outgoing_frames f (front ++ back), e)
          (Perm.append_left t.client.outgoing_frames (Perm.symm (perm_middle front back)))

Step-Taken : {u : ℕ} {t t' : Senders} (s : ℕ) → Step u t t' → Taken t s → Taken t' s
Step-Taken {u} {t} s (takes message s' e) v = elim (ℕ_discrete s' s) [
  | yes same ↦ rw e (subst (λ k. Taken (after k) s) (sym same) (takes_self u s message t v))
  | no ne ↦ rw e (takes_other u s s' message t ne v)
]
  where
    after : ℕ → Senders
    after k = record {
      client = (take_sequence t.client k).1;
      held = message_frame u message k (take_sequence t.client k).0 ∷ t.held;
    }
Step-Taken {u} {t} s (queues front back f e e') v = rw e' (queues_any s front back f t e v)

Reach-Taken : {u : ℕ} {t : Senders} (s : ℕ) → Reach u t → Taken t s
unfolding find_or find of_stream
Reach-Taken s (start e) = rw e (record { frames = []; counted = tt; next = refl; there = Perm.nil })
Reach-Taken s (next r st) = Step-Taken s st (Reach-Taken s r)

-- However the sending threads interleave, the queued frames of a stream are, in some order, frames
-- numbered from 0 up, as soon as no thread holds a frame of it; there are at most 2 ^ 32 of them.
pub Reach-Numbered :
    {u : ℕ} {t : Senders} (s : ℕ)
    → Reach u t
    → of_stream s t.held ≡ []
    → length (of_stream s t.client.outgoing_frames) ≤ 2 ^ 32
    → (frames : List Frame) × Numbered 0 frames × Perm (of_stream s t.client.outgoing_frames) frames
Reach-Numbered {t = t} s r none_held few = (
  v.frames,
  Counted-Numbered 0 v.frames v.counted (omega (arith, length-perm all_queued)),
  all_queued,
)
  where
    v : Taken t s
    v = Reach-Taken s r

    all_queued : Perm (of_stream s t.client.outgoing_frames) v.frames
    all_queued =
        subst (λ l. Perm l v.frames)
          (of_stream-append s t.client.outgoing_frames t.held
            ∙ rw (none_held, append-nil (of_stream s t.client.outgoing_frames)))
          v.there
