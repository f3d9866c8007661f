-- ===== src/Reorder/Queue.antt =====
-- The frames that wait in a queue for those with lower numbers.
use mathlib.Core.List.{
  Mem, Nodup, mem-cons_self, mem-cons_of_mem, mem_of_ne_of_mem, Nodup-cons, not-mem-nil,
  mem-map_of_mem,
}
use native.Mathlib.Decide.{dec_le}
use tcp_test.Common.{
  ℕ, suc, ◌+◌, ◌%◌, ◌^◌, ◌≤◌, ◌<◌, ◌≡◌, ◌≢◌, refl, ap, sym, ◌∙◌, List, [], ◌∷◌, ◌++◌, map, length,
  take, get_elem?, get_elem?-lt, take-suc, take_all, All, arith, none, some, ◌==◌, if◌then◌else◌,
  append_assoc, append-nil, append_snoc, inl, inr, Bool-cases,
}
use tcp_test.Common.OrdMap.{
  OrdMap, find, insert, From, From-mono, find_below, find-insert, insert-From,
}
use tcp_test.Frame.{Frame}
use tcp_test.Reorder.{Lane, Drained, drain, lane_add, lane_run}

module _ (gs : List Frame) (small : length gs < 2 ^ 32) where
  -- A queue whose entries are frames of the stream, under their numbers.
  abbrev pub Holds : OrdMap Frame → Type 0
  Holds [] = Unit {0}
  Holds ((k, f) ∷ q) = (get_elem? gs k ≡ some f) × Holds q

  insert-Holds :
      (k : ℕ) (f : Frame) (q : OrdMap Frame)
      → get_elem? gs k ≡ some f
      → Holds q
      → Holds (insert k f q)
  unfolding insert
  insert-Holds k f [] e h = (e, tt)
  insert-Holds k f ((j, g) ∷ q) e h = ground (arith, insert-Holds k f q)

  -- What the loop does to a queue of numbers from `next` on.
  record Drains (q : OrdMap Frame) (next : ℕ) (d : Drained) : Type 0 where
    handed : take next gs ++ d.delivered ≡ take d.lane.next gs
    onward : next ≤ d.lane.next
    within : next ≤ length gs → d.lane.next ≤ length gs
    ahead : From (suc d.lane.next) d.lane.queue
    holds : Holds d.lane.queue
    missing :
        (i : ℕ) → next ≤ i → find i q ≡ none → (d.lane.next ≤ i) × (find i d.lane.queue ≡ none)
    kept : (i : ℕ) → d.lane.next ≤ i → find i d.lane.queue ≡ none → find i q ≡ none

  Drains-hit :
      (q : OrdMap Frame) (next : ℕ) (g : Frame) (d : Drained)
      → get_elem? gs next ≡ some g
      → Drains q (suc next) d
      → Drains ((next, g) ∷ q) next (record { delivered = g ∷ d.delivered; lane = d.lane })
  unfolding find
  Drains-hit q next g d e ih = record {
    handed =
        sym (append_snoc (take next gs) g d.delivered)
        ∙ ap (λ l. l ++ d.delivered) (sym (take-suc gs next g e))
        ∙ ih.handed;
    onward = omega (arith, ih.onward);
    within = λ le. ih.within (get_elem?-lt gs next g e);
    ahead = ih.ahead;
    holds = ih.holds;
    missing = λ i le m. ground (arith, ih.missing i);
    kept = λ i le m. ground (arith, ih.kept i, ih.onward);
  }

  Drains-miss :
      (q : OrdMap Frame) (next : ℕ)
      → From (suc next) q
      → Holds q
      → Drains q next (record { delivered = []; lane = record { queue = q; next = next } })
  Drains-miss q next f h = record {
    handed = append-nil (take next gs);
    onward = omega arith;
    within = λ le. le;
    ahead = f;
    holds = h;
    missing = λ i le e. (le, e);
    kept = λ i le e. e;
  }

  drain-Drains :
      (q : OrdMap Frame) (next : ℕ) → From next q → Holds q → Drains q next (drain q next)
  unfolding drain
  drain-Drains [] next f h = Drains-miss [] next tt tt
  drain-Drains ((k, g) ∷ q) next f h = elim (Bool-cases (k == next)) [
    | inl hit ↦
        let same : k ≡ next = ground arith in
        let e : get_elem? gs next ≡ some g = rw (← same) h.0 in
        let w : (next + 1) % 2 ^ 32 ≡ suc next = omega (arith, get_elem?-lt gs next g e) in
        rw (hit, w)
          (rw same (
            Drains-hit q next g (drain q (suc next)) e
              (drain-Drains q (suc next) (rw (← same) f.1) h.1)))
    | inr miss ↦ rw miss (Drains-miss ((k, g) ∷ q) next (ground arith) h)
  ]

  -- A lane that has handed on the frames below its number, while `left` are still to arrive.
  pub record Waiting (lane : Lane) (left : List Frame) : Type 0 where
    pub within : lane.next ≤ length gs
    pub ahead : From (suc lane.next) lane.queue
    pub holds : Holds lane.queue
    pub genuine : All (λ f. get_elem? gs f.sequence ≡ some f) left
    pub fresh :
        (f : Frame) → Mem f left → (lane.next ≤ f.sequence) × (find f.sequence lane.queue ≡ none)
    pub distinct : Nodup (map (λ f. f.sequence) left)
    pub covered :
        (i : ℕ)
        → i < length gs
        → lane.next ≤ i
        → find i lane.queue ≡ none
        → Mem i (map (λ f. f.sequence) left)

  no_queue : (n : ℕ) (q : OrdMap Frame) → length gs ≤ n → From n q → Holds q → q ≡ []
  no_queue n [] le f h = refl
  no_queue n ((k, g) ∷ q) le f h = absurd (omega (arith, get_elem?-lt gs k g h.0))

  Waiting-done : (lane : Lane) → Waiting lane [] → (lane.next ≡ length gs) × (lane.queue ≡ [])
  Waiting-done lane w = (
    omega (arith, w.within, reached),
    no_queue (suc lane.next) lane.queue (omega (arith, reached)) w.ahead w.holds,
  )
    where
      reached : length gs ≤ lane.next
      reached = elim (dec_le (length gs) lane.next) [
        | yes le ↦ le
        | no gt ↦ absurd (
            not-mem-nil (
              w.covered lane.next (omega arith) (omega arith)
                (find_below lane.next (suc lane.next) lane.queue w.ahead (omega arith))))
      ]

  Waiting-add :
      (lane : Lane) (f : Frame) (fs : List Frame)
      → Waiting lane (f ∷ fs)
      → let d = lane_add lane f in
        Waiting d.lane fs × (take lane.next gs ++ d.delivered ≡ take d.lane.next gs)
  unfolding lane_add
  Waiting-add lane f fs w = (
    record {
      within = d.within w.within;
      ahead = d.ahead;
      holds = d.holds;
      genuine = w.genuine.1;
      fresh = λ g m.
          let old = w.fresh g (mem-cons_of_mem f m) in
          d.missing g.sequence old.0 (
            rw
              (unmoved g.sequence
                (λ e. (Nodup-cons.0 w.distinct).0 (rw e (mem-map_of_mem (λ h. h.sequence) m))))
              old.1);
      distinct = (Nodup-cons.0 w.distinct).1;
      covered = λ i lt le e.
          let past = d.kept i le e in
          let ne : i ≢ f.sequence = λ same. cc (ahead_found i same, past) in
          mem_of_ne_of_mem ne (
            w.covered i lt (omega (arith, d.onward, le))
              (sym (unmoved i (λ same. ne (sym same))) ∙ past));
    },
    d.handed,
  )
    where
      q : OrdMap Frame
      q = insert f.sequence f lane.queue

      here : (lane.next ≤ f.sequence) × (find f.sequence lane.queue ≡ none)
      here = w.fresh f mem-cons_self

      d : Drains q lane.next (drain q lane.next)
      d =
          drain-Drains q lane.next
            (insert-From lane.next f.sequence f lane.queue here.0
              (From-mono lane.next (suc lane.next) lane.queue (omega arith) w.ahead))
            (insert-Holds f.sequence f lane.queue w.genuine.0 w.holds)

      looked : (i : ℕ) → find i q ≡ (if f.sequence == i then some f else find i lane.queue)
      looked i =
          ground (arith, find-insert f.sequence i (suc lane.next) f lane.queue w.ahead, here.1)

      ahead_found : (i : ℕ) → i ≡ f.sequence → find i q ≡ some f
      ahead_found i e = ground (arith, looked i)

      unmoved : (i : ℕ) → f.sequence ≢ i → find i q ≡ find i lane.queue
      unmoved i ne = ground (arith, looked i)

  pub lane_run-Waiting :
      (left : List Frame) (lane : Lane)
      → Waiting lane left
      → let r = lane_run lane left in
        (take lane.next gs ++ r.delivered ≡ gs) × (r.lane ≡ record { queue = []; next = length gs })
  unfolding lane_run
  lane_run-Waiting [] lane w =
      let (whole, none_left) = Waiting-done lane w in
      (append-nil (take lane.next gs) ∙ take_all lane.next gs (omega arith), ground arith)
  lane_run-Waiting (f ∷ fs) lane w =
      let (w', handed) = Waiting-add lane f fs w in
      let (rest, final) = lane_run-Waiting fs (lane_add lane f).lane w' in
      (sym (append_assoc (take lane.next gs) (lane_add lane f).delivered _) ∙ rw handed rest, final)
