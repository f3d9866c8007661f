-- ===== src/DemoClient/Main/Order.antt =====
-- What the threads have queued and the writer has sent: the messages of each stream, in their order.
use tcp_test.Common.{
  ℕ, ◌+◌, ◌%◌, ◌^◌, ◌<◌, ◌≤◌, ◌≡◌, ◌≢◌, refl, sym, ap, subst, ◌∙◌, Bool, true, some, inl, inr, List,
  [], ◌∷◌, ◌++◌, All, All-append, arith, append-nil, append_assoc, append_snoc, update, update_all,
  List-cases,
}
use tcp_test.Common.OrdMap.{OrdMap, assign, find_or, find, find_or-assign_self, find_or-assign_ne}
use tcp_test.Frame.{Frame, IsU32, serialize}
use tcp_test.Frame.RoundTrip.{Fits}
use tcp_test.Parser.Chunks.{serialize_all, serialize_all-snoc}
use tcp_test.StreamManager.Streams.{of_stream, of_stream-append}
use tcp_test.DemoClient.{Client, take_sequence, push_frame, write_frame}
use tcp_test.DemoClient.Messages.{frames_from}
use tcp_test.DemoClient.Main.Texts.{message-Fits, frames_from-snoc}
use tcp_test.DemoClient.Main.Frames.{
  message, of_stream-message, of_stream-message_ne, write-first, write-none,
}
use tcp_test.DemoClient.Main.{
  Loop, before, holding, Program, Step, takes, queues, writes, Reach, start, next,
}

-- How many messages of a thread are queued, and how many numbers it took.
abbrev pub queued : Loop → ℕ
queued (before j) = j
queued (holding j sequence) = j

abbrev pub numbered : Loop → ℕ
numbered (before j) = j
numbered (holding j sequence) = j + 1

-- A thread makes five messages, and holds the number of its message.
abbrev pub InBounds : ℕ → Loop → Type 0
InBounds i (before j) = (j ≤ 5) × (3 ≤ i → j ≡ 0)
InBounds i (holding j sequence) = (i < 3) × (j < 5) × (sequence ≡ j)

-- The messages of the thread `i`, up to the message `k`.
abbrev pub messages : ℕ → ℕ → ℕ → List Frame
messages u i k = frames_from u (i + 1) k 0 0

pub record InOrder (enabled : Bool) (u : ℕ) (s : Program) : Type 0 where
  pub written : List Frame
  pub sent_bytes : s.socket ≡ serialize_all enabled written
  pub fit : All Fits (written ++ s.client.outgoing_frames)
  pub bounds : (i : ℕ) → InBounds i (s.loops i)
  pub next_number : (i : ℕ) → find_or 0 (i + 1) s.client.next_sequence ≡ numbered (s.loops i)
  pub ordered :
      (i : ℕ)
      → of_stream (i + 1) (written ++ s.client.outgoing_frames) ≡ messages u i (queued (s.loops i))

module _ (enabled : Bool) (u : ℕ) where
  takes-InOrder :
      (s : Program) (i j : ℕ)
      → i < 3
      → j < 5
      → s.loops i ≡ before j
      → InOrder enabled u s
      → InOrder enabled u (record s {
        client = (take_sequence s.client (i + 1)).1;
        loops = update s.loops i (holding j (take_sequence s.client (i + 1)).0);
      })
  unfolding take_sequence
  takes-InOrder s i j hi hj e v = record {
    written = v.written;
    sent_bytes = v.sent_bytes;
    fit = v.fit;
    bounds = update_all InBounds s.loops i (holding j number) (hi, hj, given) (λ k ne. v.bounds k);
    next_number =
        update_all (λ (k : ℕ) (l : Loop). find_or 0 (k + 1) next_sequence ≡ numbered l) s.loops i
          (holding j number)
          (find_or-assign_self 0 (i + 1) ((number + 1) % 2 ^ 32) s.client.next_sequence
            ∙ omega (arith, given))
          (λ k ne.
            find_or-assign_ne 0 (i + 1) (k + 1) ((number + 1) % 2 ^ 32) s.client.next_sequence
              (λ same. ne (omega (arith, same)))
            ∙ v.next_number k);
    ordered =
        update_all
          (λ (k : ℕ) (l : Loop).
            of_stream (k + 1) (v.written ++ s.client.outgoing_frames) ≡ messages u k (queued l))
          s.loops i (holding j number) (v.ordered i ∙ ap (λ (l : Loop). messages u i (queued l)) e)
          (λ k ne. v.ordered k);
  }
    where
      number : ℕ
      number = find_or 0 (i + 1) s.client.next_sequence

      next_sequence : OrdMap ℕ
      next_sequence = assign (i + 1) ((number + 1) % 2 ^ 32) s.client.next_sequence

      given : number ≡ j
      given = v.next_number i ∙ ap numbered e

  queues-InOrder :
      (s : Program) (i j sequence : ℕ)
      → IsU32 u
      → s.loops i ≡ holding j sequence
      → InOrder enabled u s
      → InOrder enabled u (record s {
        client = push_frame s.client (message u i j sequence);
        loops = update s.loops i (before (j + 1));
      })
  unfolding push_frame
  queues-InOrder s i j sequence u32 e v = record {
    written = v.written;
    sent_bytes = v.sent_bytes;
    fit = subst (All Fits) (append_assoc v.written s.client.outgoing_frames (f ∷ [])) (
        All-append Fits all_frames (f ∷ []) v.fit (
          message-Fits u (i + 1) j sequence u32 (omega (arith, in_bounds.0))
              (omega (arith, in_bounds.1)) (omega (arith, in_bounds.1, in_bounds.2)),
          tt,
        ));
    bounds =
        update_all InBounds s.loops i (before (j + 1))
          (omega (arith, in_bounds.1), λ above. omega (arith, in_bounds.0, above))
          (λ k ne. v.bounds k);
    next_number =
        update_all (λ (k : ℕ) (l : Loop). find_or 0 (k + 1) s.client.next_sequence ≡ numbered l)
          s.loops i (before (j + 1)) (v.next_number i ∙ ap numbered e) (λ k ne. v.next_number k);
    ordered =
        update_all
          (λ (k : ℕ) (l : Loop).
            of_stream (k + 1) (v.written ++ (s.client.outgoing_frames ++ (f ∷ [])))
            ≡ messages u k (queued l))
          s.loops i (before (j + 1)) (longer i ∙ own) (λ k ne. longer k ∙ other k ne);
  }
    where
      f : Frame
      f = message u i j sequence

      all_frames : List Frame
      all_frames = v.written ++ s.client.outgoing_frames

      in_bounds : InBounds i (holding j sequence)
      in_bounds = subst (InBounds i) e (v.bounds i)

      longer :
          (k : ℕ)
          → of_stream (k + 1) (v.written ++ (s.client.outgoing_frames ++ (f ∷ [])))
            ≡ of_stream (k + 1) all_frames ++ of_stream (k + 1) (f ∷ [])
      longer k =
          ap (of_stream (k + 1)) (sym (append_assoc v.written s.client.outgoing_frames (f ∷ [])))
          ∙ of_stream-append (k + 1) all_frames (f ∷ [])

      own : of_stream (i + 1) all_frames ++ of_stream (i + 1) (f ∷ []) ≡ messages u i (j + 1)
      own =
          ap (λ (l : List Frame). l ++ of_stream (i + 1) (f ∷ []))
            (v.ordered i ∙ ap (λ (l : Loop). messages u i (queued l)) e)
          ∙ ap (λ (l : List Frame). messages u i j ++ l) (of_stream-message u i j sequence)
          ∙ sym (
              frames_from-snoc u (i + 1) j 0 0 j sequence (omega arith)
                (omega (arith, in_bounds.2)))
          ∙ ap (messages u i) (omega arith)

      other :
          (k : ℕ)
          → i ≢ k
          → of_stream (k + 1) all_frames ++ of_stream (k + 1) (f ∷ [])
            ≡ messages u k (queued (s.loops k))
      other k ne =
          ap (λ (l : List Frame). of_stream (k + 1) all_frames ++ l)
            (of_stream-message_ne u i k j sequence ne)
          ∙ append-nil (of_stream (k + 1) all_frames)
          ∙ v.ordered k

  first-InOrder :
      (s : Program) (f : Frame) (rest : List Frame)
      → s.client.outgoing_frames ≡ f ∷ rest
      → InOrder enabled u s
      → InOrder enabled u (record s {
        client = record s.client { outgoing_frames = rest };
        socket = s.socket ++ serialize enabled f;
      })
  first-InOrder s f rest e v = record {
    written = v.written ++ (f ∷ []);
    sent_bytes =
        ap (λ (l : List ℕ). l ++ serialize enabled f) v.sent_bytes
        ∙ sym (serialize_all-snoc enabled v.written f);
    fit = subst (All Fits) same v.fit;
    bounds = v.bounds;
    next_number = v.next_number;
    ordered = λ i. ap (of_stream (i + 1)) (sym same) ∙ v.ordered i;
  }
    where
      same : v.written ++ s.client.outgoing_frames ≡ (v.written ++ (f ∷ [])) ++ rest
      same = ap (λ (l : List Frame). v.written ++ l) e ∙ sym (append_snoc v.written f rest)

  writes-InOrder :
      (s : Program) (bytes : List ℕ) (c : Client)
      → write_frame enabled true s.client ≡ some (bytes, c)
      → InOrder enabled u s
      → InOrder enabled u (record s { client = c; socket = s.socket ++ bytes })
  writes-InOrder s bytes c ran v = elim (List-cases s.client.outgoing_frames) [
    | inl e ↦ absurd (cc (ran, write-none enabled s.client e))
    | inr (f, rest, e) ↦
        let wrote : (serialize enabled f, record s.client { outgoing_frames = rest }) ≡ (bytes, c) =
          cc (ran, write-first enabled s.client f rest e) in
        subst
          (λ (p : List ℕ × Client).
            InOrder enabled u (record s { client = p.1; socket = s.socket ++ p.0 }))
          wrote (first-InOrder s f rest e v)
  ]

  pub Step-InOrder :
      {s t : Program} → IsU32 u → Step enabled u s t → InOrder enabled u s → InOrder enabled u t
  Step-InOrder {s} u32 (takes i j hi hj e e') v = rw e' (takes-InOrder s i j hi hj e v)
  Step-InOrder {s} u32 (queues i j sequence e e') v = rw e' (queues-InOrder s i j sequence u32 e v)
  Step-InOrder {s} u32 (writes bytes c ran e') v = rw e' (writes-InOrder s bytes c ran v)

  pub Reach-InOrder : {s : Program} → IsU32 u → Reach enabled u s → InOrder enabled u s
  unfolding of_stream frames_from find_or find
  Reach-InOrder u32 (start e) = rw e (record {
    written = [];
    sent_bytes = refl;
    fit = tt;
    bounds = λ i. (omega arith, λ above. refl);
    next_number = λ i. refl;
    ordered = λ i. refl;
  })
  Reach-InOrder u32 (next r st) = Step-InOrder u32 st (Reach-InOrder u32 r)
